-- ===== src/Vm/Keeps/Transfers.antt =====
-- The memory, stack, jump and system instructions keep what their primitive updates keep; STORE does
-- if writing a word in place, past the protection, does.
use dez.Base.{ℕ, ◌+◌, ◌<◌, ◌≤◌, IsWord, ◌==◌, String, if_both, arith, bit_and, u32, u32-IsWord}
use dez.Isa.Instruction.{sys_print, sys_print_str, sys_print_char, sys_exit}
use dez.Isa.Decode.{decode_immediate}
use dez.Isa.Fields.{decode_reg1-lt, decode_immediate-lt}
use dez.Memory.{memory_size_words, stack_start, stack_end}
use dez.Vm.State.{Vm, halted, set_pc, set_sp, write_word}
use dez.Vm.Valid.{read_word-IsWord}
use dez.Vm.Transfer.{
  load_word, execute_load, poke, execute_store, execute_load_indirect, execute_store_indirect,
  execute_load_indexed, execute_store_indexed,
}
use dez.Vm.Flow.{execute_jmp, execute_jz, execute_jnz, jump_on_flags, execute_halt, execute_unknown}
use dez.Vm.Stack.{push_word, pop_word, execute_push, execute_pop, execute_call, execute_ret}
use dez.Vm.Sys.{execute_sys}
use dez.Vm.Keeps.Primitive.{
  Keeps, print-keeps, fail-keeps, validate_register-keeps, validate_memory_address-keeps,
  validate_stack_overflow-keeps, validate_stack_underflow-keeps,
}

immediate-IsWord : (inst : ℕ) → IsWord (decode_immediate inst)
immediate-IsWord inst = omega (arith, decode_immediate-lt inst)

module _ {P : Vm → Type 0} (keeps : Keeps P) where
  open keeps use {
    valid, by_print_all, by_set_state, by_set_reg, by_set_pc, by_set_sp, by_read_word,
    by_write_word,
  }

  load_word-keeps : (r a : ℕ) (vm : Vm) → r < 16 → P vm → P (load_word r a vm)
  unfolding load_word
  load_word-keeps r a vm h p =
      by_set_reg _ _ h (read_word-IsWord a vm (valid p)) (by_read_word a vm p)

  pub execute_load-keeps : (inst : ℕ) (vm : Vm) → P vm → P (execute_load inst vm)
  unfolding execute_load
  execute_load-keeps inst vm p = validate_register-keeps keeps _ _ _ vm p (
      validate_memory_address-keeps keeps _ _ _ vm p
        (λ _. load_word-keeps _ _ vm (decode_reg1-lt inst) p))

  pub execute_store-keeps :
      (inst : ℕ) (vm : Vm)
      → ((a n : ℕ) → a < memory_size_words → IsWord n → P vm → P (poke a n vm))
      → P vm
      → P (execute_store inst vm)
  unfolding execute_store
  execute_store-keeps inst vm by_poke p = validate_register-keeps keeps _ _ _ vm p (
      validate_memory_address-keeps keeps _ _ _ vm p
        (λ within. by_poke _ _ within ((valid p).regs _) p))

  pub execute_load_indirect-keeps : (inst : ℕ) (vm : Vm) → P vm → P (execute_load_indirect inst vm)
  unfolding execute_load_indirect
  execute_load_indirect-keeps inst vm p = validate_register-keeps keeps _ _ _ vm p (
      validate_register-keeps keeps _ _ _ vm p (
        validate_memory_address-keeps keeps _ _ _ vm p
          (λ _. load_word-keeps _ _ vm (decode_reg1-lt inst) p)))

  pub execute_store_indirect-keeps :
      (inst : ℕ) (vm : Vm) → P vm → P (execute_store_indirect inst vm)
  unfolding execute_store_indirect
  execute_store_indirect-keeps inst vm p = validate_register-keeps keeps _ _ _ vm p (
      validate_register-keeps keeps _ _ _ vm p (
        validate_memory_address-keeps keeps _ _ _ vm p
          (λ _. by_write_word _ _ vm ((valid p).regs _) p)))

  pub execute_load_indexed-keeps : (inst : ℕ) (vm : Vm) → P vm → P (execute_load_indexed inst vm)
  unfolding execute_load_indexed
  execute_load_indexed-keeps inst vm p = validate_register-keeps keeps _ _ _ vm p (
      validate_register-keeps keeps _ _ _ vm p (
        validate_register-keeps keeps _ _ _ vm p (
          validate_memory_address-keeps keeps _ _ _ vm p
            (λ _. load_word-keeps _ _ vm (decode_reg1-lt inst) p))))

  pub execute_store_indexed-keeps : (inst : ℕ) (vm : Vm) → P vm → P (execute_store_indexed inst vm)
  unfolding execute_store_indexed
  execute_store_indexed-keeps inst vm p = validate_register-keeps keeps _ _ _ vm p (
      validate_register-keeps keeps _ _ _ vm p (
        validate_register-keeps keeps _ _ _ vm p (
          validate_memory_address-keeps keeps _ _ _ vm p
            (λ _. by_write_word _ _ vm ((valid p).regs _) p))))

  push_word-keeps :
      (n : ℕ) (vm : Vm) → stack_start ≤ vm.cpu.sp → IsWord n → P vm → P (push_word n vm)
  unfolding push_word write_word
  push_word-keeps n vm room w p =
      by_set_sp _ (omega (arith, (valid p).sp)) (by_write_word vm.cpu.sp n vm w p)

  set_sp-up : (vm : Vm) → vm.cpu.sp < stack_end → P vm → P (set_sp (u32 (vm.cpu.sp + 1)) vm)
  set_sp-up vm some_left p = by_set_sp _ (omega (arith, (valid p).sp)) p

  pop_word-keeps : (vm : Vm) → vm.cpu.sp < stack_end → P vm → P (pop_word vm).1
  unfolding pop_word
  pop_word-keeps vm some_left p = by_read_word _ _ (set_sp-up vm some_left p)

  pop_word-IsWord : (vm : Vm) → vm.cpu.sp < stack_end → P vm → IsWord (pop_word vm).0
  unfolding pop_word
  pop_word-IsWord vm some_left p = read_word-IsWord _ _ (valid (set_sp-up vm some_left p))

  pub execute_push-keeps : (inst : ℕ) (vm : Vm) → P vm → P (execute_push inst vm)
  unfolding execute_push
  execute_push-keeps inst vm p = validate_register-keeps keeps _ _ _ vm p (
      validate_stack_overflow-keeps keeps _ _ vm p
        (λ room. push_word-keeps _ vm room ((valid p).regs _) p))

  pub execute_pop-keeps : (inst : ℕ) (vm : Vm) → P vm → P (execute_pop inst vm)
  unfolding execute_pop
  execute_pop-keeps inst vm p = validate_register-keeps keeps _ _ _ vm p (
      validate_stack_underflow-keeps keeps _ _ vm p (λ h.
        by_set_reg _ _ (decode_reg1-lt inst) (pop_word-IsWord vm h p) (pop_word-keeps vm h p)))

  pub execute_call-keeps : (inst : ℕ) (vm : Vm) → P vm → P (execute_call inst vm)
  unfolding execute_call
  execute_call-keeps inst vm p = validate_memory_address-keeps keeps _ _ _ vm p (λ _.
      validate_stack_overflow-keeps keeps _ _ vm p
        (λ room. by_set_pc _ (immediate-IsWord inst) (push_word-keeps _ vm room (u32-IsWord _) p)))

  pub execute_ret-keeps : (inst : ℕ) (vm : Vm) → P vm → P (execute_ret inst vm)
  unfolding execute_ret
  execute_ret-keeps inst vm p =
      validate_stack_underflow-keeps keeps _ _ vm p
        (λ h. by_set_pc _ (pop_word-IsWord vm h p) (pop_word-keeps vm h p))

  jump-keeps : (inst : ℕ) (vm : Vm) → P vm → P (set_pc (decode_immediate inst) vm)
  jump-keeps inst vm p = by_set_pc _ (immediate-IsWord inst) p

  pub execute_jmp-keeps : (inst : ℕ) (vm : Vm) → P vm → P (execute_jmp inst vm)
  unfolding execute_jmp
  execute_jmp-keeps inst vm p =
      validate_memory_address-keeps keeps _ _ _ vm p (λ _. jump-keeps inst vm p)

  pub execute_jz-keeps : (inst : ℕ) (vm : Vm) → P vm → P (execute_jz inst vm)
  unfolding execute_jz
  execute_jz-keeps inst vm p = validate_register-keeps keeps _ _ _ vm p (
      validate_memory_address-keeps keeps _ _ _ vm p
        (λ _. if_both P (bit_and vm.cpu.flags _ == 0) p (jump-keeps inst vm p)))

  pub execute_jnz-keeps : (inst : ℕ) (vm : Vm) → P vm → P (execute_jnz inst vm)
  unfolding execute_jnz
  execute_jnz-keeps inst vm p = validate_register-keeps keeps _ _ _ vm p (
      validate_memory_address-keeps keeps _ _ _ vm p
        (λ _. if_both P (bit_and vm.cpu.flags _ == 0) (jump-keeps inst vm p) p))

  pub jump_on_flags-keeps :
      (name : String) (mask inst : ℕ) (vm : Vm) → P vm → P (jump_on_flags name mask inst vm)
  unfolding jump_on_flags
  jump_on_flags-keeps name mask inst vm p =
      validate_memory_address-keeps keeps _ _ _ vm p
        (λ _. if_both P (bit_and vm.cpu.flags mask == 0) p (jump-keeps inst vm p))

  pub execute_halt-keeps : (inst : ℕ) (vm : Vm) → P vm → P (execute_halt inst vm)
  unfolding execute_halt
  execute_halt-keeps inst vm p = print-keeps keeps _ (by_set_state halted p)

  pub execute_unknown-keeps : (inst : ℕ) (vm : Vm) → P vm → P (execute_unknown inst vm)
  unfolding execute_unknown
  execute_unknown-keeps inst vm p = fail-keeps keeps _ p

  pub execute_sys-keeps : (inst : ℕ) (vm : Vm) → P vm → P (execute_sys inst vm)
  unfolding execute_sys
  execute_sys-keeps inst vm p =
      let call : ℕ = decode_immediate inst in
      validate_register-keeps keeps _ _ _ vm p (
        if_both P (call == sys_print) (print-keeps keeps _ p) (
          if_both P (call == sys_print_char) (print-keeps keeps _ p) (
            if_both P (call == sys_print_str) (by_print_all _ p) (
              if_both P (call == sys_exit) (print-keeps keeps _ (by_set_state halted p))
                (print-keeps keeps _ p)))))
