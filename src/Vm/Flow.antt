-- ===== src/Vm/Flow.antt =====
-- src/core/dez_instruction_table.c: the jumps, HALT and NOP.
use dez.Base.{ℕ, ◌==◌, if◌then◌else◌, String, bit_and, bit_or, ◌>>◌}
use dez.Event.{program_halted, unknown_instruction}
use dez.Isa.Instruction.{flag_zero, flag_less, flag_greater, flag_equal}
use dez.Isa.Decode.{decode_reg1, decode_immediate}
use dez.Vm.State.{
  Vm, halted, print, set_state, set_pc, fail, validate_register, validate_memory_address,
}

unfoldable pub execute_jmp : ℕ → Vm → Vm
execute_jmp inst =
    let target_address : ℕ = decode_immediate inst in
    validate_memory_address target_address "JMP" (set_pc target_address)

unfoldable pub execute_jz : ℕ → Vm → Vm
execute_jz inst =
    let target_address : ℕ = decode_immediate inst in
    validate_register (decode_reg1 inst) "JZ" (
      validate_memory_address target_address "JZ"
        (λ vm. if bit_and vm.cpu.flags flag_zero == 0 then vm else set_pc target_address vm))

unfoldable pub execute_jnz : ℕ → Vm → Vm
execute_jnz inst =
    let target_address : ℕ = decode_immediate inst in
    validate_register (decode_reg1 inst) "JNZ" (
      validate_memory_address target_address "JNZ"
        (λ vm. if bit_and vm.cpu.flags flag_zero == 0 then set_pc target_address vm else vm))

-- The shape of `execute_jl`, `execute_jg`, `execute_jle` and `execute_jge`.
unfoldable pub jump_on_flags : String → ℕ → ℕ → Vm → Vm
jump_on_flags name mask inst =
    let target_address : ℕ = decode_immediate inst in
    validate_memory_address target_address name
      (λ vm. if bit_and vm.cpu.flags mask == 0 then vm else set_pc target_address vm)

unfoldable pub execute_jl : ℕ → Vm → Vm
execute_jl = jump_on_flags "JL" flag_less

unfoldable pub execute_jg : ℕ → Vm → Vm
execute_jg = jump_on_flags "JG" flag_greater

unfoldable pub execute_jle : ℕ → Vm → Vm
execute_jle = jump_on_flags "JLE" (bit_or flag_less flag_equal)

unfoldable pub execute_jge : ℕ → Vm → Vm
execute_jge = jump_on_flags "JGE" (bit_or flag_greater flag_equal)

unfoldable pub execute_halt : ℕ → Vm → Vm
execute_halt inst vm = print program_halted (set_state halted vm)

unfoldable pub execute_nop : ℕ → Vm → Vm
execute_nop inst vm = vm

unfoldable pub execute_unknown : ℕ → Vm → Vm
execute_unknown inst vm = fail (unknown_instruction (inst >> 24) vm.cpu.pc) vm
