-- ===== src/Vm/Valid.antt =====
-- The invariant of a machine: its registers and counters fit their C types, the stack pointer lies
-- in the stack segment or just below it, and the memory is valid.
use dez.Base.{ℕ, ◌≤◌, ◌≡◌, ◌⊎◌, AllWords, IsWord, List, update-AllWords, arith}
use dez.Memory.Access
use dez.Memory.Access.{memory_read_word-IsValid, memory_read_word-IsWord, memory_write_word-IsValid}
use dez.Event.{Event}
use dez.Vm.State.{
  Vm, VmState, print_all, set_state, set_reg, set_pc, set_sp, set_flags, read_word, write_word,
}
use dez.Vm.Transfer.{poke}

-- No comparison yet, or the outcome of the last one: equal (and zero), less, greater.
abbrev pub IsFlags : ℕ → Type 0
IsFlags f = (f ≡ 0) ⊎ ((f ≡ 9) ⊎ ((f ≡ 2) ⊎ (f ≡ 4)))

abbrev pub IsStackPointer : ℕ → Type 0
IsStackPointer sp = (0x7FF ≤ sp) × (sp ≤ 0xFFF)

pub record IsValid (vm : Vm) : Type 0 where
  pub regs : AllWords vm.cpu.regs
  pub pc : IsWord vm.cpu.pc
  pub sp : IsStackPointer vm.cpu.sp
  pub flags : IsFlags vm.cpu.flags
  pub memory : Access.IsValid vm.memory

pub print_all-IsValid : (log : List Event) {vm : Vm} → IsValid vm → IsValid (print_all log vm)
unfolding print_all
print_all-IsValid log v = ground arith

pub set_state-IsValid : (s : VmState) {vm : Vm} → IsValid vm → IsValid (set_state s vm)
unfolding set_state
set_state-IsValid s v = ground arith

pub set_reg-IsValid : (r n : ℕ) {vm : Vm} → IsWord n → IsValid vm → IsValid (set_reg r n vm)
unfolding set_reg
set_reg-IsValid r n w v = record {
  regs = update-AllWords r v.regs w;
  pc = v.pc;
  sp = v.sp;
  flags = v.flags;
  memory = v.memory;
}

pub set_pc-IsValid : (n : ℕ) {vm : Vm} → IsWord n → IsValid vm → IsValid (set_pc n vm)
unfolding set_pc
set_pc-IsValid n w v = ground arith

pub set_sp-IsValid : (n : ℕ) {vm : Vm} → IsStackPointer n → IsValid vm → IsValid (set_sp n vm)
unfolding set_sp
set_sp-IsValid n w v = ground arith

pub set_flags-IsValid : (n : ℕ) {vm : Vm} → IsFlags n → IsValid vm → IsValid (set_flags n vm)
unfolding set_flags
set_flags-IsValid n w v = ground arith

pub read_word-IsValid : (a : ℕ) (vm : Vm) → IsValid vm → IsValid (read_word a vm).1
unfolding read_word
read_word-IsValid a vm v = ground (arith, memory_read_word-IsValid vm.memory a)

pub read_word-IsWord : (a : ℕ) (vm : Vm) → IsValid vm → IsWord (read_word a vm).0
unfolding read_word
read_word-IsWord a vm v = memory_read_word-IsWord vm.memory a v.memory

pub write_word-IsValid : (a n : ℕ) (vm : Vm) → IsWord n → IsValid vm → IsValid (write_word a n vm)
unfolding write_word
write_word-IsValid a n vm w v = ground (arith, memory_write_word-IsValid vm.memory a n)

pub poke-IsValid : (a n : ℕ) (vm : Vm) → IsWord n → IsValid vm → IsValid (poke a n vm)
unfolding poke
poke-IsValid a n vm w v = record {
  regs = v.regs;
  pc = v.pc;
  sp = v.sp;
  flags = v.flags;
  memory = record {
    words = update-AllWords a v.memory.words w;
    code_start = v.memory.code_start;
    code_end = v.memory.code_end;
  };
}
