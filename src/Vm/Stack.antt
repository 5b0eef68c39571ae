-- ===== src/Vm/Stack.antt =====
-- src/core/dez_instruction_table.c: PUSH, POP, CALL and RET.
use dez.Base.{ℕ, add32, sub32}
use dez.Isa.Decode.{decode_reg1, decode_immediate}
use dez.Vm.State.{
  Vm, set_reg, set_pc, set_sp, read_word, write_word, validate_register, validate_memory_address,
  validate_stack_overflow, validate_stack_underflow,
}

-- `memory_write_word(&vm->memory, vm->cpu.sp, value); vm->cpu.sp--;`
unfoldable pub push_word : ℕ → Vm → Vm
push_word value vm = let vm' : Vm = write_word vm.cpu.sp value vm in set_sp (sub32 vm'.cpu.sp 1) vm'

-- `vm->cpu.sp++; … = memory_read_word(&vm->memory, vm->cpu.sp);`
unfoldable pub pop_word : Vm → ℕ × Vm
pop_word vm = let vm' : Vm = set_sp (add32 vm.cpu.sp 1) vm in read_word vm'.cpu.sp vm'

unfoldable pub execute_push : ℕ → Vm → Vm
execute_push inst =
    let reg : ℕ = decode_reg1 inst in
    validate_register reg "PUSH"
      (validate_stack_overflow "PUSH" (λ vm. push_word (vm.cpu.regs reg) vm))

unfoldable pub execute_pop : ℕ → Vm → Vm
execute_pop inst =
    let reg : ℕ = decode_reg1 inst in
    validate_register reg "POP" (
      validate_stack_underflow "POP"
        (λ vm. let (value, vm') = pop_word vm in set_reg reg value vm'))

unfoldable pub execute_call : ℕ → Vm → Vm
execute_call inst =
    let target_address : ℕ = decode_immediate inst in
    validate_memory_address target_address "CALL" (
      validate_stack_overflow "CALL"
        (λ vm. set_pc target_address (push_word (add32 vm.cpu.pc 1) vm)))

unfoldable pub execute_ret : ℕ → Vm → Vm
execute_ret inst =
    validate_stack_underflow "RET"
      (λ vm. let (return_address, vm') = pop_word vm in set_pc return_address vm')
