-- ===== src/Vm/Keeps/Primitive.antt =====
-- The interface between a property of machines and the instructions: what each primitive update of
-- the state must do for the property. Instructions call nothing else.
use dez.Base.{
  ℕ, ◌<◌, ◌≤◌, IsWord, List, [], ◌∷◌, ltb, leb, String, if_both, Bool-cases, inl, inr, arith,
}
use dez.Event.{Event}
use dez.Isa.Decode.{max_register_index}
use dez.Memory.{memory_size_words, stack_start, stack_end}
use dez.Vm.State.{
  Vm, VmState, error, print, print_all, set_state, fail, set_reg, set_pc, set_sp, set_flags,
  read_word, write_word, validate_register, validate_memory_address, validate_stack_overflow,
  validate_stack_underflow,
}
use dez.Vm.Valid.{IsValid, IsFlags, IsStackPointer}

pub record Keeps (P : Vm → Type 0) : Type 0 where
  pub valid : {vm : Vm} → P vm → IsValid vm
  pub by_print_all : (log : List Event) {vm : Vm} → P vm → P (print_all log vm)
  pub by_set_state : (s : VmState) {vm : Vm} → P vm → P (set_state s vm)
  pub by_set_reg : (r n : ℕ) {vm : Vm} → r < 16 → IsWord n → P vm → P (set_reg r n vm)
  pub by_set_pc : (n : ℕ) {vm : Vm} → IsWord n → P vm → P (set_pc n vm)
  pub by_set_sp : (n : ℕ) {vm : Vm} → IsStackPointer n → P vm → P (set_sp n vm)
  pub by_set_flags : (n : ℕ) {vm : Vm} → IsFlags n → P vm → P (set_flags n vm)
  pub by_read_word : (a : ℕ) (vm : Vm) → P vm → P (read_word a vm).1
  pub by_write_word : (a n : ℕ) (vm : Vm) → IsWord n → P vm → P (write_word a n vm)

module _ {P : Vm → Type 0} (keeps : Keeps P) where
  pub print-keeps : (e : Event) {vm : Vm} → P vm → P (print e vm)
  unfolding print
  print-keeps e p = keeps.by_print_all (e ∷ []) p

  pub fail-keeps : (e : Event) {vm : Vm} → P vm → P (fail e vm)
  unfolding fail
  fail-keeps e p = keeps.by_set_state error (keeps.by_print_all (e ∷ []) p)

  pub validate_register-keeps :
      (reg : ℕ) (name : String) (rest : Vm → Vm) (vm : Vm)
      → P vm
      → P (rest vm)
      → P (validate_register reg name rest vm)
  unfolding validate_register
  validate_register-keeps reg name rest vm p q =
      if_both P (ltb max_register_index reg) (fail-keeps _ p) q

  -- The rest runs only on an address in bounds.
  pub validate_memory_address-keeps :
      (addr : ℕ) (name : String) (rest : Vm → Vm) (vm : Vm)
      → P vm
      → (addr < memory_size_words → P (rest vm))
      → P (validate_memory_address addr name rest vm)
  unfolding validate_memory_address
  validate_memory_address-keeps addr name rest vm p q =
      elim (Bool-cases (leb memory_size_words addr)) [
        | inl out ↦ rw out (fail-keeps _ p)
        | inr within ↦ rw within (q (ground arith))
      ]

  pub validate_stack_overflow-keeps :
      (name : String) (rest : Vm → Vm) (vm : Vm)
      → P vm
      → (stack_start ≤ vm.cpu.sp → P (rest vm))
      → P (validate_stack_overflow name rest vm)
  unfolding validate_stack_overflow
  validate_stack_overflow-keeps name rest vm p q = elim (Bool-cases (ltb vm.cpu.sp stack_start)) [
    | inl out ↦ rw out (fail-keeps _ p)
    | inr within ↦ rw within (q (ground arith))
  ]

  pub validate_stack_underflow-keeps :
      (name : String) (rest : Vm → Vm) (vm : Vm)
      → P vm
      → (vm.cpu.sp < stack_end → P (rest vm))
      → P (validate_stack_underflow name rest vm)
  unfolding validate_stack_underflow
  validate_stack_underflow-keeps name rest vm p q = elim (Bool-cases (leb stack_end vm.cpu.sp)) [
    | inl out ↦ rw out (fail-keeps _ p)
    | inr within ↦ rw within (q (ground arith))
  ]
