-- ===== src/Loader/Image.antt =====
-- A program file in the assembler's format, and the memory after loading it.
use dez.Base.{
  ℕ, zero, suc, ◌+◌, ◌-◌, ◌/◌, ◌<◌, ◌≤◌, ◌≡◌, ◌⊎◌, refl, ◌∙◌, true, false, ◌&&◌, List, [], ◌∷◌, ltb,
  leb, if◌then◌else◌, IsWord, length, Bool-cases, inl, inr, arith,
}
use dez.Memory.{Memory, success, memory_write_word, memory_write_byte, memory_read_byte}
use dez.Memory.Access.{
  IsValid, can_store, is_protected, memory_write_word_lem, memory_write_word-IsValid,
}
use dez.Memory.Bytes.{
  memory_write_byte_lem, memory_read_byte-memory_write_byte, memory_write_byte-IsValid,
}
use dez.Loader.Defs.{ByteOrder, loaded, read_uint32, load_instructions, load_strings, strings_end}

-- Item `i` of a list, 0 behind its end.
unfoldable pub nth : List ℕ → ℕ → ℕ
nth [] i = 0
nth (x ∷ xs) zero = x
nth (x ∷ xs) (suc i) = nth xs i

abbrev pub AllBelow : ℕ → List ℕ → Type 0
AllBelow bound [] = Unit
AllBelow bound (x ∷ xs) = (x < bound) × AllBelow bound xs

-- The bytes of words.
unfoldable pub bytes_of : ByteOrder → List ℕ → List ℕ → List ℕ
bytes_of order [] rest = rest
bytes_of order (w ∷ ws) rest =
    order.byte0 w ∷ order.byte1 w ∷ order.byte2 w ∷ order.byte3 w ∷ bytes_of order ws rest

-- A valid memory whose code is not protected.
pub record IsOpen (m : Memory) : Type 0 where
  pub valid : IsValid m
  pub unprotected : m.code_readonly ≡ false

can_store-open : (m : Memory) (a : ℕ) → IsOpen m → a < 4096 → can_store m a ≡ true
unfolding is_protected
can_store-open m a o h = ground (arith, o.unprotected)

write_word-IsOpen :
    (m : Memory) (a v : ℕ) → IsOpen m → IsWord v → IsOpen (memory_write_word m a v).1
write_word-IsOpen m a v o w = record {
  valid = memory_write_word-IsValid m a v o.valid w;
  unprotected = ground (arith, memory_write_word_lem m a v, o.unprotected);
}

nth-behind : (w : ℕ) (ws : List ℕ) (i j : ℕ) → i < j → nth (w ∷ ws) (j - i) ≡ nth ws (j - (i + 1))
unfolding nth
nth-behind w ws i j h = let e : j - i ≡ suc (j - (i + 1)) = omega arith in rw e refl

nth-first : (w : ℕ) (ws : List ℕ) (i j : ℕ) → i ≡ j → nth (w ∷ ws) (j - i) ≡ w
unfolding nth
nth-first w ws i j h = let e : j - i ≡ 0 = omega arith in rw e refl

load_step :
    (order : ByteOrder) (w n i : ℕ) (words rest : List ℕ) (m : Memory)
    → IsWord w
    → (memory_write_word m i w).0 ≡ success
    → load_instructions order (suc n) i (bytes_of order (w ∷ words) rest) m
      ≡ load_instructions order n (i + 1) (bytes_of order words rest) (memory_write_word m i w).1
unfolding load_instructions bytes_of read_uint32
load_step order w n i words rest m h written = ground (arith, order.join-split w h)

-- Loading the bytes of words puts each word at its address.
pub load_instructions_lem :
    (order : ByteOrder) (words rest : List ℕ) (i : ℕ) (m : Memory)
    → IsOpen m
    → AllBelow 4294967296 words
    → i + length words ≤ 4096
    → (n : Memory) × (load_instructions order (length words) i (bytes_of order words rest) m
        ≡ loaded n rest)
      × ((j : ℕ)
          → n.memory j
            ≡ (if leb i j && ltb j (i + length words) then nth words (j - i) else m.memory j))
      × IsOpen n
unfolding load_instructions bytes_of length nth read_uint32
load_instructions_lem order [] rest i m o small fits = (m, refl, λ j. ground arith, o)
load_instructions_lem order (w ∷ words) rest i m o small fits =
    let next : Memory = (memory_write_word m i w).1 in
    let (n, e, spec, opened) =
      load_instructions_lem order words rest (i + 1) next (write_word-IsOpen m i w o small.0)
        small.1 (omega arith) in
    let written : (memory_write_word m i w).0 ≡ success =
      ground (arith, memory_write_word_lem m i w, can_store-open m i o (omega arith)) in
    (
      n,
      load_step order w (length words) i words rest m small.0 written ∙ e,
      λ j. ground (
        arith,
        spec j,
        memory_write_word_lem m i w,
        can_store-open m i o (omega arith),
        nth-behind w words i j,
        nth-first w words i j,
      ),
      opened,
    )

write_byte-IsOpen : (m : Memory) (a v : ℕ) → IsOpen m → v < 256 → IsOpen (memory_write_byte m a v).1
write_byte-IsOpen m a v o h = record {
  valid = memory_write_byte-IsValid m a v o.valid h;
  unprotected = ground (arith, memory_write_byte_lem m a v, o.unprotected);
}

-- Loading strings puts each byte at its address, up to byte address 0x200, and changes no word outside
-- the words of those bytes.
pub load_strings_lem :
    (bytes : List ℕ) (a : ℕ) (m : Memory)
    → IsOpen m
    → AllBelow 256 bytes
    → 0x100 ≤ a
    → let n = load_strings bytes a m in
      ((b : ℕ)
        → (memory_read_byte n b).0 ≡ (
            if leb a b && (ltb b (a + length bytes) && ltb b strings_end)
            then nth bytes (b - a)
            else (memory_read_byte m b).0))
      × ((j : ℕ) → (j < 0x40) ⊎ (0x80 ≤ j) → n.memory j ≡ m.memory j)
      × IsOpen n
unfolding load_strings length nth
load_strings_lem [] a m o small h = (λ b. ground arith, λ j out. refl, o)
load_strings_lem (c ∷ bytes) a m o small h = elim (Bool-cases (ltb a strings_end)) [
  | inr past ↦ (λ b. ground arith, λ j out. ground arith, ground (arith, o))
  | inl below ↦
      let next : Memory = (memory_write_byte m a c).1 in
      let (bytes_spec, words_spec, opened) =
        load_strings_lem bytes (a + 1) next (write_byte-IsOpen m a c o small.0) small.1
          (omega arith) in
      let there : can_store m (a / 4) ≡ true = can_store-open m (a / 4) o (ground arith) in
      (
        λ b. ground (
          arith,
          bytes_spec b,
          memory_read_byte-memory_write_byte m a b c o.valid small.0,
          there,
          nth-behind c bytes a b,
          nth-first c bytes a b,
        ),
        λ j out. ground (arith, words_spec j out, memory_write_byte_lem m a c o.valid small.0),
        ground (arith, opened),
      )
]
