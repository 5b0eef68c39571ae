-- ===== src/Memory/Access.antt =====
-- Word access: what a read returns, what a write changes, and what neither touches.
use dez.Base.{
  ℕ, ◌≡◌, refl, Bool, not, ◌&&◌, [], ◌∷◌, ltb, ◌==◌, if◌then◌else◌, AllWords, IsWord, update, arith,
}
use dez.Event.{read_out_of_bounds}
use dez.Memory.Defs.{
  Memory, success, failure, memory_size_words, memory_is_valid_address, memory_is_code_segment,
  count_usage, count_read, count_write, memory_read_word, memory_write_word,
}

-- All but the contents and the statistics: the segments, the protection and the build.
pub record SameLayout (m n : Memory) : Type 0 where
  pub code_start : n.code_start ≡ m.code_start
  pub code_end : n.code_end ≡ m.code_end
  pub data_start : n.data_start ≡ m.data_start
  pub data_end : n.data_end ≡ m.data_end
  pub stack_start : n.stack_start ≡ m.stack_start
  pub stack_end : n.stack_end ≡ m.stack_end
  pub code_readonly : n.code_readonly ≡ m.code_readonly
  pub data_writable : n.data_writable ≡ m.data_writable
  pub stack_writable : n.stack_writable ≡ m.stack_writable
  pub debug_memory_stats : n.debug_memory_stats ≡ m.debug_memory_stats

-- The contents too: the two differ at most in the statistics.
pub record SameStore (m n : Memory) : Type 0 where
  pub memory : n.memory ≡ m.memory
  pub layout : SameLayout m n

-- The segments that `memory_init` sets up, and words that fit `uint32_t`.
pub record IsValid (m : Memory) : Type 0 where
  pub words : AllWords m.memory
  pub code_start : m.code_start ≡ 0
  pub code_end : m.code_end ≡ 0x3FF

pub SameLayout-refl : (m : Memory) → SameLayout m m
SameLayout-refl m = record {
  code_start = refl;
  code_end = refl;
  data_start = refl;
  data_end = refl;
  stack_start = refl;
  stack_end = refl;
  code_readonly = refl;
  data_writable = refl;
  stack_writable = refl;
  debug_memory_stats = refl;
}

pub SameStore-refl : (m : Memory) → SameStore m m
SameStore-refl m = record { memory = refl; layout = SameLayout-refl m }

count_usage-SameStore : (m : Memory) (a : ℕ) → SameStore m (count_usage m a)
unfolding count_usage
count_usage-SameStore m a = ground arith

pub count_read-SameStore : (m : Memory) (a : ℕ) → SameStore m (count_read m a)
unfolding count_read
count_read-SameStore m a = ground arith

pub count_write-SameStore : (m : Memory) (a : ℕ) → SameStore m (count_write m a)
unfolding count_write
count_write-SameStore m a = ground arith

-- A read returns the word, or 0 out of bounds, where it prints an error.
pub memory_read_word_lem :
    (m : Memory) (a : ℕ)
    → let (v, n, log) = memory_read_word m a in
      (v ≡ (if ltb a memory_size_words then m.memory a else 0))
      × (log ≡ (if ltb a memory_size_words then [] else read_out_of_bounds a ∷ []))
      × SameStore m n
unfolding memory_read_word memory_is_valid_address
memory_read_word_lem m a = ground (arith, count_read-SameStore m a)

-- The words that a program must not write: those of the code segment while it is protected.
unfoldable pub is_protected : Memory → ℕ → Bool
is_protected m a = memory_is_code_segment m a && m.code_readonly

-- Where a write takes place.
abbrev pub can_store : Memory → ℕ → Bool
can_store m a = ltb a memory_size_words && not (is_protected m a)

-- A write in bounds, outside protected code, sets that word; any other fails and sets nothing.
pub memory_write_word_lem :
    (m : Memory) (a v : ℕ)
    → let (s, n, log) = memory_write_word m a v in
      (s ≡ (if can_store m a then success else failure))
      × (n.memory ≡ (if can_store m a then update m.memory a v else m.memory))
      × SameLayout m n
unfolding memory_write_word memory_is_valid_address is_protected
memory_write_word_lem m a v = ground (arith, count_write-SameStore m a)

-- What is read after a write: the value where it took place, and every other word as before.
pub memory_read_word-memory_write_word :
    (m : Memory) (a b v : ℕ)
    → (memory_read_word (memory_write_word m a v).1 b).0
      ≡ (if b == a && can_store m a then v else (memory_read_word m b).0)
memory_read_word-memory_write_word m a b v = ground (
  arith,
  memory_write_word_lem m a v,
  memory_read_word_lem m b,
  memory_read_word_lem (memory_write_word m a v).1 b,
)

pub SameStore-IsValid : {m n : Memory} → SameStore m n → IsValid m → IsValid n
SameStore-IsValid {m} {n} s v = record {
  words = λ i. ground (arith, v.words i);
  code_start = ground arith;
  code_end = ground arith;
}

pub memory_read_word-IsValid : (m : Memory) (a : ℕ) → IsValid m → IsValid (memory_read_word m a).1
memory_read_word-IsValid m a v = SameStore-IsValid (memory_read_word_lem m a).2 v

pub memory_read_word-IsWord : (m : Memory) (a : ℕ) → IsValid m → IsWord (memory_read_word m a).0
memory_read_word-IsWord m a v = ground (arith, memory_read_word_lem m a, v.words a)

pub memory_write_word-IsValid :
    (m : Memory) (a v : ℕ) → IsValid m → IsWord v → IsValid (memory_write_word m a v).1
memory_write_word-IsValid m a v valid w = record {
  words = λ i. ground (arith, memory_write_word_lem m a v, valid.words i);
  code_start = ground (arith, memory_write_word_lem m a v);
  code_end = ground (arith, memory_write_word_lem m a v);
}
