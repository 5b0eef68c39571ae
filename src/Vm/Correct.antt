-- ===== src/Vm/Correct.antt =====
-- Executing an encoded statement does what the statement means.
mod Registers
mod Transfers
mod Families
use dez.Base.{
  ℕ, ◌+◌, ◌%◌, ◌^◌, ◌<◌, ◌≡◌, refl, ◌∙◌, ap, subst, Bool, true, ltb, leb, ◌==◌, if◌then◌else◌, u8,
  ◌>>◌, arith,
}
use dez.Isa.Instruction.{InstructionType, opcode, instruction_type}
use dez.Isa.Fields.{instruction_type-opcode}
use dez.Isa.Encode.{
  encode_jump, encode_mov, encode_load, encode_store, encode_sys, encode_load_indirect,
  encode_store_indirect, encode_arithmetic, encode_load_indexed, encode_store_indexed,
  encode_arithmetic_immediate,
}
use dez.Isa.RoundTrip.{
  fitting, Decodes, encode_arithmetic-Decodes, encode_arithmetic_immediate-Decodes,
  encode_jump-Decodes, encode_single_register-Decodes, encode_single-Decodes, two_registers-Decodes,
}
use dez.Isa.Statement.{
  Statement, ArithmeticOp, BitOp, Condition, arithmetic_type, bit_type, jump_type, encode,
  IsEncodable,
}
use dez.Memory.{memory_size_words}
use dez.Vm.State.{Vm, is_running, print, set_reg, set_pc}
use dez.Vm.Table.{InstructionInfo, instruction_table, or_unknown, get_instruction_info}
use dez.Vm.Alu.{
  execute_add, execute_sub, execute_mul, divide, execute_and, execute_or, execute_xor, execute_shl,
  execute_shr,
}
use dez.Vm.Flow.{execute_jl, execute_jg, execute_jle, execute_jge, execute_halt, execute_nop}
use dez.Vm.Keeps.Run.{entry}
use dez.Vm.Meaning.{arithmetic_meaning, bit_meaning, holds, meaning}
use Registers.{
  mov_lem, arithmetic_lem, arithmetic_value_lem, div_lem, div_value_lem, three_registers_lem,
  not_lem, inc_lem, dec_lem, cmp_lem, cmp_value_lem, jmp_lem, jz_lem, jnz_lem, jump_lem,
}
use Transfers.{
  load_lem, store_lem, load_indirect_lem, store_indirect_lem, load_indexed_lem, store_indexed_lem,
  push_lem, pop_lem, call_lem, ret_lem, sys_lem,
}
use Families.{via, arithmetic_correct, arithmetic_value_correct, bits_correct, jump_correct}

-- Executing the encoding of a statement does to the machine what the statement means, for every
-- statement whose operands fit their fields and that does not compare with register R0.
pub execute-encode :
    (s : Statement) (vm : Vm)
    → IsEncodable s
    → (get_instruction_info (u8 (encode s >> 24))).execute (encode s) vm ≡ meaning s vm
unfolding encode meaning encode_mov encode_load encode_store encode_sys encode_load_indirect
    encode_store_indirect encode_load_indexed encode_store_indexed instruction_table or_unknown
    encode_arithmetic encode_jump execute_nop execute_halt
execute-encode (Statement.move r n) vm h =
    let d : _ = fitting InstructionType.mov r n h.0 h.1 in
    via InstructionType.mov _ _ _ _ _ vm d (mov_lem _ _ _ _ _ _ d vm)
execute-encode (Statement.load_from r n) vm h =
    let d : _ = fitting InstructionType.load r n h.0 h.1 in
    via InstructionType.load _ _ _ _ _ vm d (load_lem _ _ _ _ _ _ d vm)
execute-encode (Statement.store_to r n) vm h =
    let d : _ = fitting InstructionType.store r n h.0 h.1 in
    via InstructionType.store _ _ _ _ _ vm d (store_lem _ _ _ _ _ _ d vm)
execute-encode (Statement.system r n) vm h =
    let d : _ = fitting InstructionType.sys r n h.0 h.1 in
    via InstructionType.sys _ _ _ _ _ vm d (sys_lem _ _ _ _ _ _ d vm)
execute-encode (Statement.arithmetic op r1 r2 r3) vm h =
    arithmetic_correct vm op r1 r2 r3 h.0 h.1 h.2
execute-encode (Statement.arithmetic_value op r1 r2 n) vm h =
    arithmetic_value_correct vm op r1 r2 n h.0 h.1 h.2
execute-encode (Statement.bits op r1 r2 r3) vm h = bits_correct vm op r1 r2 r3 h.0 h.1 h.2
execute-encode (Statement.complement r1 r2) vm h =
    let d : _ = encode_arithmetic-Decodes InstructionType.not r1 r2 0 h.0 h.1 (omega arith) in
    via InstructionType.not _ _ _ _ _ vm d (not_lem _ _ _ _ _ _ d vm)
execute-encode (Statement.compare r1 r2) vm h =
    let d : _ = encode_arithmetic-Decodes InstructionType.cmp r1 r2 0 h.0 h.1 (omega arith) in
    via InstructionType.cmp _ _ _ _ _ vm d (cmp_lem _ _ _ _ _ _ d vm h.2)
execute-encode (Statement.compare_value r n) vm h =
    let d : _ = fitting InstructionType.cmp r n h.0 h.1 in
    via InstructionType.cmp _ _ _ _ _ vm d (cmp_value_lem _ _ _ _ _ _ d vm refl)
execute-encode (Statement.jump c a) vm h = jump_correct vm c a h
execute-encode (Statement.push r) vm h =
    let d : _ = encode_single_register-Decodes InstructionType.push r h in
    via InstructionType.push _ _ _ _ _ vm d (push_lem _ _ _ _ _ _ d vm)
execute-encode (Statement.pop r) vm h =
    let d : _ = encode_single_register-Decodes InstructionType.pop r h in
    via InstructionType.pop _ _ _ _ _ vm d (pop_lem _ _ _ _ _ _ d vm)
execute-encode (Statement.increment r) vm h =
    let d : _ = encode_single_register-Decodes InstructionType.inc r h in
    via InstructionType.inc _ _ _ _ _ vm d (inc_lem _ _ _ _ _ _ d vm)
execute-encode (Statement.decrement r) vm h =
    let d : _ = encode_single_register-Decodes InstructionType.dec r h in
    via InstructionType.dec _ _ _ _ _ vm d (dec_lem _ _ _ _ _ _ d vm)
execute-encode (Statement.call_to a) vm h =
    let d : _ = fitting InstructionType.call 0 a (omega arith) h in
    via InstructionType.call _ _ _ _ _ vm d (call_lem _ _ _ _ _ _ d vm)
execute-encode (Statement.load_at r s) vm h =
    let d : _ = two_registers-Decodes InstructionType.load_indirect r s h.0 h.1 in
    via InstructionType.load_indirect _ _ _ _ _ vm d (load_indirect_lem _ _ _ _ _ _ d vm)
execute-encode (Statement.store_at r s) vm h =
    let d : _ = two_registers-Decodes InstructionType.store_indirect r s h.0 h.1 in
    via InstructionType.store_indirect _ _ _ _ _ vm d (store_indirect_lem _ _ _ _ _ _ d vm)
execute-encode (Statement.load_sum r s i) vm h =
    let d : _ = encode_arithmetic-Decodes InstructionType.load_indexed r s i h.0 h.1 h.2 in
    via InstructionType.load_indexed _ _ _ _ _ vm d (load_indexed_lem _ _ _ _ _ _ d vm)
execute-encode (Statement.store_sum r s i) vm h =
    let d : _ = encode_arithmetic-Decodes InstructionType.store_indexed r s i h.0 h.1 h.2 in
    via InstructionType.store_indexed _ _ _ _ _ vm d (store_indexed_lem _ _ _ _ _ _ d vm)
execute-encode Statement.return vm h =
    let d : _ = encode_single-Decodes InstructionType.ret in
    via InstructionType.ret _ _ _ _ _ vm d (ret_lem _ _ _ _ _ _ d vm)
execute-encode Statement.stop vm h =
    let d : _ = encode_single-Decodes InstructionType.halt in
    via InstructionType.halt _ _ _ _ _ vm d (refl)
execute-encode Statement.nothing vm h =
    let d : _ = encode_single-Decodes InstructionType.nop in
    via InstructionType.nop _ _ _ _ _ vm d (refl)
