-- ===== src/Vm/Effects.antt =====
-- What the memory accesses of the instructions do to the words and to the protection.
use dez.Base.{ℕ, ◌≡◌, ◌==◌, ◌&&◌, if◌then◌else◌, arith}
use dez.Memory.Access.{can_store, memory_read_word_lem, memory_write_word_lem}
use dez.Vm.State.{Vm, read_word, write_word}

pub write_word-words :
    (a n : ℕ) (vm : Vm) (b : ℕ)
    → (write_word a n vm).memory.memory b
      ≡ (if b == a && can_store vm.memory a then n else vm.memory.memory b)
unfolding write_word
write_word-words a n vm b = ground (arith, memory_write_word_lem vm.memory a n)

pub write_word-readonly :
    (a n : ℕ) (vm : Vm) → (write_word a n vm).memory.code_readonly ≡ vm.memory.code_readonly
unfolding write_word
write_word-readonly a n vm = ground (arith, memory_write_word_lem vm.memory a n)

pub read_word-words : (a : ℕ) (vm : Vm) → (read_word a vm).1.memory.memory ≡ vm.memory.memory
unfolding read_word
read_word-words a vm = ground (arith, memory_read_word_lem vm.memory a)

pub read_word-readonly :
    (a : ℕ) (vm : Vm) → (read_word a vm).1.memory.code_readonly ≡ vm.memory.code_readonly
unfolding read_word
read_word-readonly a vm = ground (arith, memory_read_word_lem vm.memory a)
