-- ===== src/Memory/Bytes.antt =====
-- Byte access: bytes lie in their words highest first, and a write changes just its own byte.
use dez.Base.{
  ℕ, zero, suc, ◌+◌, ◌-◌, ◌*◌, ◌/◌, ◌%◌, ◌^◌, ◌<◌, ◌≡◌, ◌&&◌, ltb, ◌==◌, if◌then◌else◌, bit_and,
  bit_or, u32, not32, ◌<<◌, ◌>>◌, IsWord, update, arith,
}
use dez.Base.Bits.{bit_and-mask, bit_or-set_byte}
use dez.Memory.Defs.{
  Memory, success, failure, memory_size_words, memory_read_byte, memory_write_byte,
}
use dez.Memory.Access.{SameLayout, SameLayout-refl, is_protected, can_store, IsValid}

-- The byte at offset `o` of a word.
pub byte_of : ℕ → ℕ → ℕ
byte_of w o =
    if o == 0
    then w / 2 ^ 24
    else if o == 1
    then w / 2 ^ 16 % 256
    else if o == 2
    then w / 2 ^ 8 % 256
    else w % 256

-- The word with the byte at offset `o` replaced.
pub with_byte : ℕ → ℕ → ℕ → ℕ
with_byte w o v =
    if o == 0
    then v * 2 ^ 24 + w % 2 ^ 24
    else if o == 1
    then (w / 2 ^ 24 * 256 + v) * 2 ^ 16 + w % 2 ^ 16
    else if o == 2
    then (w / 2 ^ 16 * 256 + v) * 2 ^ 8 + w % 2 ^ 8
    else w / 2 ^ 8 * 256 + v

-- The bytes of a word are its digits to base 256, and replacing one keeps the others.
pub byte_of-with_byte :
    (w o p v : ℕ)
    → IsWord w
    → v < 256
    → o < 4
    → p < 4
    → byte_of (with_byte w o v) p ≡ (if p == o then v else byte_of w p)
unfolding byte_of with_byte
byte_of-with_byte w o p v hw hv ho hp = ground arith

pub byte_of-lt : (w o : ℕ) → IsWord w → byte_of w o < 256
unfolding byte_of
byte_of-lt w o h = ground arith

pub with_byte-IsWord : (w o v : ℕ) → IsWord w → v < 256 → o < 4 → IsWord (with_byte w o v)
unfolding with_byte
with_byte-IsWord w o v hw hv ho = ground arith

offset : (a : ℕ) → bit_and a 3 ≡ a % 4
offset a = bit_and-mask 2 a

-- The shift and mask of the source pick out that byte.
shifted-byte_of : (w o : ℕ) → IsWord w → o < 4 → bit_and (w >> (24 - (o << 3))) 0xFF ≡ byte_of w o
unfolding byte_of
shifted-byte_of w zero hw ho = ground (arith, bit_and-mask 8 (w / 2 ^ 24))
shifted-byte_of w (suc zero) hw ho = ground (arith, bit_and-mask 8 (w / 2 ^ 16))
shifted-byte_of w (suc (suc zero)) hw ho = ground (arith, bit_and-mask 8 (w / 2 ^ 8))
shifted-byte_of w (suc (suc (suc zero))) hw ho = ground (arith, bit_and-mask 8 (w / 2 ^ 0))
shifted-byte_of w (suc (suc (suc (suc o)))) hw ho = absurd (omega arith)

masked-with_byte :
    (w o v : ℕ)
    → IsWord w
    → v < 256
    → o < 4
    → bit_or (bit_and w (not32 (u32 (0xFF << (24 - (o << 3)))))) (u32 (v << (24 - (o << 3))))
      ≡ with_byte w o v
unfolding with_byte
masked-with_byte w zero v hw hv ho =
    ground (arith, bit_or-set_byte 0 24 0 (w / 2 ^ 24) (w % 2 ^ 24) v)
masked-with_byte w (suc zero) v hw hv ho =
    ground (arith, bit_or-set_byte 8 16 (w / 2 ^ 24) (w / 2 ^ 16 % 256) (w % 2 ^ 16) v)
masked-with_byte w (suc (suc zero)) v hw hv ho =
    ground (arith, bit_or-set_byte 16 8 (w / 2 ^ 16) (w / 2 ^ 8 % 256) (w % 2 ^ 8) v)
masked-with_byte w (suc (suc (suc zero))) v hw hv ho =
    ground (arith, bit_or-set_byte 24 0 (w / 2 ^ 8) (w % 256) 0 v)
masked-with_byte w (suc (suc (suc (suc o)))) v hw hv ho = absurd (omega arith)

-- A byte read returns byte `a % 4` of word `a / 4`, or 0 out of bounds.
pub memory_read_byte_lem :
    (m : Memory) (a : ℕ)
    → IsValid m
    → (memory_read_byte m a).0
      ≡ (if ltb (a / 4) memory_size_words then byte_of (m.memory (a / 4)) (a % 4) else 0)
unfolding memory_read_byte
memory_read_byte_lem m a v =
    ground (arith, offset a, v.words (a / 4), shifted-byte_of (m.memory (a / 4)) (a % 4))

-- A byte write in bounds, outside protected code, replaces that byte; any other fails and sets
-- nothing.
pub memory_write_byte_lem :
    (m : Memory) (a v : ℕ)
    → IsValid m
    → v < 256
    → let (s, n, log) = memory_write_byte m a v in
      (s ≡ (if can_store m (a / 4) then success else failure))
      × (n.memory ≡ (
          if can_store m (a / 4)
          then update m.memory (a / 4) (with_byte (m.memory (a / 4)) (a % 4) v)
          else m.memory))
      × SameLayout m n
unfolding memory_write_byte is_protected
memory_write_byte_lem m a v valid hv = ground (
  arith,
  offset a,
  valid.words (a / 4),
  masked-with_byte (m.memory (a / 4)) (a % 4) v,
  SameLayout-refl m,
)

pub memory_write_byte-IsValid :
    (m : Memory) (a v : ℕ) → IsValid m → v < 256 → IsValid (memory_write_byte m a v).1
memory_write_byte-IsValid m a v valid h = record {
  words = λ i. ground (
    arith,
    memory_write_byte_lem m a v,
    valid.words i,
    valid.words (a / 4),
    with_byte-IsWord (m.memory (a / 4)) (a % 4) v,
  );
  code_start = ground (arith, memory_write_byte_lem m a v);
  code_end = ground (arith, memory_write_byte_lem m a v);
}

-- What is read after a byte is written: that byte where the write took place, and every other byte
-- as before.
pub memory_read_byte-memory_write_byte :
    (m : Memory) (a b v : ℕ)
    → IsValid m
    → v < 256
    → (memory_read_byte (memory_write_byte m a v).1 b).0
      ≡ (if b == a && can_store m (a / 4) then v else (memory_read_byte m b).0)
memory_read_byte-memory_write_byte m a b v valid hv = ground (
  arith,
  memory_write_byte_lem m a v,
  memory_write_byte-IsValid m a v,
  memory_read_byte_lem m b,
  memory_read_byte_lem (memory_write_byte m a v).1 b,
  valid.words (a / 4),
  byte_of-with_byte (m.memory (a / 4)) (a % 4) (b % 4) v,
)
