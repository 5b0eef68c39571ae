-- ===== src/Disasm/Listing.antt =====
-- The text of an encoded statement, and the mnemonics against the dispatch table.
use dez.Base.{ℕ, ◌≡◌, refl, ◌<◌, Bool, true, false, if◌then◌else◌, u8, arith}
use dez.Isa.Instruction.{InstructionType, instruction_type, opcode}
use dez.Isa.Encode.{
  encode_jump, encode_mov, encode_load, encode_store, encode_sys, encode_load_indirect,
  encode_store_indirect, encode_arithmetic, encode_load_indexed, encode_store_indexed,
}
use dez.Isa.RoundTrip.{
  Decodes, fitting, encode_arithmetic-Decodes, encode_arithmetic_immediate-Decodes,
  encode_single_register-Decodes, encode_single-Decodes, two_registers-Decodes,
}
use dez.Isa.Statement.{
  Statement, ArithmeticOp, BitOp, Condition, bit_type, arithmetic_type, jump_type, encode, Fits,
}
use dez.Vm.Table.{get_instruction_info, instruction_table, or_unknown}
use dez.Disasm.Defs.{
  mnemonic_of, dez_get_instruction_mnemonic, disasm_fields, dez_disasm_instruction,
}
use dez.Disasm.Names.{register_name_lem, system_name_lem}
use dez.Disasm.Text.{arithmetic_name, listing, is_immediate}

-- The instructions whose mnemonic the disassembler knows.
unfoldable pub is_named : InstructionType → Bool
is_named InstructionType.jl = false
is_named InstructionType.jg = false
is_named InstructionType.jle = false
is_named InstructionType.jge = false
is_named InstructionType.push = false
is_named InstructionType.pop = false
is_named InstructionType.call = false
is_named InstructionType.ret = false
is_named InstructionType.and = false
is_named InstructionType.or = false
is_named InstructionType.xor = false
is_named InstructionType.not = false
is_named InstructionType.shl = false
is_named InstructionType.shr = false
is_named _ = true

mnemonic_of-entry :
    (t : InstructionType)
    → mnemonic_of t
      ≡ (if is_named t then (or_unknown (instruction_table t)).mnemonic else "UNKNOWN")
unfolding mnemonic_of is_named instruction_table or_unknown
mnemonic_of-entry InstructionType.mov = refl
mnemonic_of-entry _ = refl

-- For every opcode the disassembler's mnemonic is that of the dispatch table, except for JL, JG, JLE,
-- JGE, PUSH, POP, CALL, RET and the bit operations, which it calls UNKNOWN.
pub mnemonic_lem :
    (n : ℕ)
    → dez_get_instruction_mnemonic n
      ≡ (if is_named (instruction_type n) then (get_instruction_info n).mnemonic else "UNKNOWN")
unfolding get_instruction_info dez_get_instruction_mnemonic mnemonic_of
mnemonic_lem n = mnemonic_of-entry (instruction_type n)

disasm_word :
    (op r1 r2 r3 low inst : ℕ)
    → Decodes op r1 r2 r3 low inst
    → dez_disasm_instruction inst ≡ disasm_fields (u8 op) r1 r2 r3 low inst
unfolding dez_disasm_instruction
disasm_word op r1 r2 r3 low inst d = rw (d.opcode, d.reg1, d.reg2, d.reg3, d.immediate) refl

-- The text of the word of a statement is its mnemonic with the names of its registers, its numbers
-- and the name of its system call, with R0 before the address of JZ and JNZ. For the bit
-- operations, JL, JG, JLE, JGE, PUSH, POP, CALL and RET it is UNKNOWN with the opcode and the word.
-- The operands fit their fields, and the statement is no immediate form of CMP or of an arithmetic
-- operation.
pub disasm-encode :
    (s : Statement)
    → is_immediate s ≡ false
    → Fits s
    → dez_disasm_instruction (encode s) ≡ listing s
unfolding encode listing is_immediate disasm_fields instruction_type opcode
    dez_get_instruction_mnemonic mnemonic_of arithmetic_name arithmetic_type jump_type bit_type
    encode_mov encode_load encode_store encode_sys encode_load_indirect encode_store_indirect
    encode_load_indexed encode_store_indexed encode_arithmetic encode_jump
disasm-encode (Statement.move r n) plain h =
    rw (register_name_lem r h.0) (disasm_word _ _ _ _ _ _ (fitting InstructionType.mov r n h.0 h.1))
disasm-encode (Statement.load_from r n) plain h =
    rw (register_name_lem r h.0)
      (disasm_word _ _ _ _ _ _ (fitting InstructionType.load r n h.0 h.1))
disasm-encode (Statement.store_to r n) plain h =
    rw (register_name_lem r h.0)
      (disasm_word _ _ _ _ _ _ (fitting InstructionType.store r n h.0 h.1))
disasm-encode (Statement.system r n) plain h =
    rw (register_name_lem r h.0, system_name_lem n)
      (disasm_word _ _ _ _ _ _ (fitting InstructionType.sys r n h.0 h.1))
disasm-encode (Statement.arithmetic ArithmeticOp.plus r1 r2 r3) plain h =
    rw (register_name_lem r1 h.0, register_name_lem r2 h.1, register_name_lem r3 h.2)
      (disasm_word _ _ _ _ _ _ (encode_arithmetic-Decodes InstructionType.add r1 r2 r3 h.0 h.1 h.2))
disasm-encode (Statement.arithmetic ArithmeticOp.minus r1 r2 r3) plain h =
    rw (register_name_lem r1 h.0, register_name_lem r2 h.1, register_name_lem r3 h.2)
      (disasm_word _ _ _ _ _ _ (encode_arithmetic-Decodes InstructionType.sub r1 r2 r3 h.0 h.1 h.2))
disasm-encode (Statement.arithmetic ArithmeticOp.times r1 r2 r3) plain h =
    rw (register_name_lem r1 h.0, register_name_lem r2 h.1, register_name_lem r3 h.2)
      (disasm_word _ _ _ _ _ _ (encode_arithmetic-Decodes InstructionType.mul r1 r2 r3 h.0 h.1 h.2))
disasm-encode (Statement.arithmetic ArithmeticOp.over r1 r2 r3) plain h =
    rw (register_name_lem r1 h.0, register_name_lem r2 h.1, register_name_lem r3 h.2)
      (disasm_word _ _ _ _ _ _ (encode_arithmetic-Decodes InstructionType.div r1 r2 r3 h.0 h.1 h.2))
disasm-encode (Statement.compare r1 r2) plain h =
    rw (register_name_lem r1 h.0, register_name_lem r2 h.1)
      (disasm_word _ _ _ _ _ _
        (encode_arithmetic-Decodes InstructionType.cmp r1 r2 0 h.0 h.1 (omega arith)))
disasm-encode (Statement.jump Condition.always a) plain h =
    disasm_word _ _ _ _ _ _ (fitting InstructionType.jmp 0 a (omega arith) h)
disasm-encode (Statement.jump Condition.if_zero a) plain h =
    rw (register_name_lem 0 (omega arith))
      (disasm_word _ _ _ _ _ _ (fitting InstructionType.jz 0 a (omega arith) h))
disasm-encode (Statement.jump Condition.if_not_zero a) plain h =
    rw (register_name_lem 0 (omega arith))
      (disasm_word _ _ _ _ _ _ (fitting InstructionType.jnz 0 a (omega arith) h))
disasm-encode (Statement.increment r) plain h =
    rw (register_name_lem r h)
      (disasm_word _ _ _ _ _ _ (encode_single_register-Decodes InstructionType.inc r h))
disasm-encode (Statement.decrement r) plain h =
    rw (register_name_lem r h)
      (disasm_word _ _ _ _ _ _ (encode_single_register-Decodes InstructionType.dec r h))
disasm-encode (Statement.load_at r s) plain h =
    rw (register_name_lem r h.0, register_name_lem s h.1)
      (disasm_word _ _ _ _ _ _ (two_registers-Decodes InstructionType.load_indirect r s h.0 h.1))
disasm-encode (Statement.store_at r s) plain h =
    rw (register_name_lem r h.0, register_name_lem s h.1)
      (disasm_word _ _ _ _ _ _ (two_registers-Decodes InstructionType.store_indirect r s h.0 h.1))
disasm-encode (Statement.load_sum r s i) plain h =
    rw (register_name_lem r h.0, register_name_lem s h.1, register_name_lem i h.2)
      (disasm_word _ _ _ _ _ _
        (encode_arithmetic-Decodes InstructionType.load_indexed r s i h.0 h.1 h.2))
disasm-encode (Statement.store_sum r s i) plain h =
    rw (register_name_lem r h.0, register_name_lem s h.1, register_name_lem i h.2)
      (disasm_word _ _ _ _ _ _
        (encode_arithmetic-Decodes InstructionType.store_indexed r s i h.0 h.1 h.2))
disasm-encode Statement.stop plain h =
    disasm_word _ _ _ _ _ _ (encode_single-Decodes InstructionType.halt)
disasm-encode Statement.nothing plain h =
    disasm_word _ _ _ _ _ _ (encode_single-Decodes InstructionType.nop)
disasm-encode (Statement.jump Condition.if_less a) plain h =
    disasm_word _ _ _ _ _ _ (fitting InstructionType.jl 0 a (omega arith) h)
disasm-encode (Statement.jump Condition.if_greater a) plain h =
    disasm_word _ _ _ _ _ _ (fitting InstructionType.jg 0 a (omega arith) h)
disasm-encode (Statement.jump Condition.if_less_equal a) plain h =
    disasm_word _ _ _ _ _ _ (fitting InstructionType.jle 0 a (omega arith) h)
disasm-encode (Statement.jump Condition.if_greater_equal a) plain h =
    disasm_word _ _ _ _ _ _ (fitting InstructionType.jge 0 a (omega arith) h)
disasm-encode (Statement.bits BitOp.both r1 r2 r3) plain h =
    disasm_word _ _ _ _ _ _ (encode_arithmetic-Decodes InstructionType.and r1 r2 r3 h.0 h.1 h.2)
disasm-encode (Statement.bits BitOp.either r1 r2 r3) plain h =
    disasm_word _ _ _ _ _ _ (encode_arithmetic-Decodes InstructionType.or r1 r2 r3 h.0 h.1 h.2)
disasm-encode (Statement.bits BitOp.differ r1 r2 r3) plain h =
    disasm_word _ _ _ _ _ _ (encode_arithmetic-Decodes InstructionType.xor r1 r2 r3 h.0 h.1 h.2)
disasm-encode (Statement.bits BitOp.left r1 r2 r3) plain h =
    disasm_word _ _ _ _ _ _ (encode_arithmetic-Decodes InstructionType.shl r1 r2 r3 h.0 h.1 h.2)
disasm-encode (Statement.bits BitOp.right r1 r2 r3) plain h =
    disasm_word _ _ _ _ _ _ (encode_arithmetic-Decodes InstructionType.shr r1 r2 r3 h.0 h.1 h.2)
disasm-encode (Statement.complement r1 r2) plain h =
    disasm_word _ _ _ _ _ _
      (encode_arithmetic-Decodes InstructionType.not r1 r2 0 h.0 h.1 (omega arith))
disasm-encode (Statement.push r) plain h =
    disasm_word _ _ _ _ _ _ (encode_single_register-Decodes InstructionType.push r h)
disasm-encode (Statement.pop r) plain h =
    disasm_word _ _ _ _ _ _ (encode_single_register-Decodes InstructionType.pop r h)
disasm-encode (Statement.call_to a) plain h =
    disasm_word _ _ _ _ _ _ (fitting InstructionType.call 0 a (omega arith) h)
disasm-encode Statement.return plain h =
    disasm_word _ _ _ _ _ _ (encode_single-Decodes InstructionType.ret)
disasm-encode (Statement.arithmetic_value o r1 r2 n) plain h = absurd (ground arith)
disasm-encode (Statement.compare_value r n) plain h = absurd (ground arith)

-- The text of the immediate form of an arithmetic statement is that of its register form with R0: the
-- immediate number is not shown.
pub disasm-immediate :
    (op : ArithmeticOp) (r1 r2 n : ℕ)
    → r1 < 16
    → r2 < 16
    → dez_disasm_instruction (encode (Statement.arithmetic_value op r1 r2 n))
      ≡ listing (Statement.arithmetic op r1 r2 0)
unfolding encode listing disasm_fields instruction_type opcode dez_get_instruction_mnemonic
    mnemonic_of arithmetic_name arithmetic_type
disasm-immediate ArithmeticOp.plus r1 r2 n h1 h2 =
    rw (register_name_lem r1 h1, register_name_lem r2 h2, register_name_lem 0 (omega arith))
      (disasm_word _ _ _ _ _ _
        (encode_arithmetic_immediate-Decodes InstructionType.add r1 r2 n h1 h2))
disasm-immediate ArithmeticOp.minus r1 r2 n h1 h2 =
    rw (register_name_lem r1 h1, register_name_lem r2 h2, register_name_lem 0 (omega arith))
      (disasm_word _ _ _ _ _ _
        (encode_arithmetic_immediate-Decodes InstructionType.sub r1 r2 n h1 h2))
disasm-immediate ArithmeticOp.times r1 r2 n h1 h2 =
    rw (register_name_lem r1 h1, register_name_lem r2 h2, register_name_lem 0 (omega arith))
      (disasm_word _ _ _ _ _ _
        (encode_arithmetic_immediate-Decodes InstructionType.mul r1 r2 n h1 h2))
disasm-immediate ArithmeticOp.over r1 r2 n h1 h2 =
    rw (register_name_lem r1 h1, register_name_lem r2 h2, register_name_lem 0 (omega arith))
      (disasm_word _ _ _ _ _ _
        (encode_arithmetic_immediate-Decodes InstructionType.div r1 r2 n h1 h2))
