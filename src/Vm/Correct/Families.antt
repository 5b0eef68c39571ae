-- ===== src/Vm/Correct/Families.antt =====
-- Dispatch of an encoded word, and the families of instructions that one encoder serves.
use dez.Base.{ℕ, ◌<◌, ◌≡◌, refl, ◌∙◌, ap, if◌then◌else◌, u8, ◌>>◌, arith}
use dez.Isa.Instruction.{InstructionType, opcode}
use dez.Isa.Fields.{instruction_type-opcode}
use dez.Isa.Encode.{encode_jump, encode_arithmetic, encode_arithmetic_immediate}
use dez.Isa.RoundTrip.{
  fitting, Decodes, encode_arithmetic-Decodes, encode_arithmetic_immediate-Decodes,
}
use dez.Isa.Statement.{ArithmeticOp, BitOp, Condition, arithmetic_type, bit_type, jump_type}
use dez.Vm.State.{Vm, set_reg, set_pc}
use dez.Vm.Table.{InstructionInfo, instruction_table, or_unknown, get_instruction_info}
use dez.Vm.Alu.{
  execute_add, execute_sub, execute_mul, divide, execute_and, execute_or, execute_xor, execute_shl,
  execute_shr,
}
use dez.Vm.Flow.{execute_jl, execute_jg, execute_jle, execute_jge}
use dez.Vm.Keeps.Run.{entry}
use dez.Vm.Meaning.{arithmetic_meaning, bit_meaning, holds}
use dez.Vm.Correct.Registers.{
  arithmetic_lem, arithmetic_value_lem, div_lem, div_value_lem, three_registers_lem, jmp_lem,
  jz_lem, jnz_lem, jump_lem,
}

-- A word with the opcode of `t` dispatches to the entry of `t`.
pub dispatches :
    (t : InstructionType) (r1 r2 r3 low inst : ℕ)
    → Decodes (opcode t) r1 r2 r3 low inst
    → get_instruction_info (u8 (inst >> 24)) ≡ entry t
unfolding get_instruction_info
dispatches t r1 r2 r3 low inst d = rw (d.dispatched, instruction_type-opcode t)

-- Execution of `inst` by the table, for a word with the opcode of `t`.
abbrev pub run_word : ℕ → Vm → Vm
run_word inst vm = (get_instruction_info (u8 (inst >> 24))).execute inst vm

pub via :
    (t : InstructionType) (r1 r2 r3 low inst : ℕ) (vm : Vm) {end : Vm}
    → Decodes (opcode t) r1 r2 r3 low inst
    → (entry t).execute inst vm ≡ end
    → run_word inst vm ≡ end
via t r1 r2 r3 low inst vm d e =
    ap (λ (found : InstructionInfo). found.execute inst vm) (dispatches t r1 r2 r3 low inst d) ∙ e

module _ (vm : Vm) where
  -- The register form of ADD, SUB, MUL and DIV.
  pub arithmetic_correct :
      (op : ArithmeticOp) (r1 r2 r3 : ℕ)
      → r1 < 16
      → r2 < 16
      → r3 < 16
      → run_word (encode_arithmetic (arithmetic_type op) r1 r2 r3) vm
        ≡ arithmetic_meaning op r1 (vm.cpu.regs r2) (vm.cpu.regs r3) vm
  unfolding arithmetic_type arithmetic_meaning or_unknown instruction_table execute_add execute_sub
      execute_mul divide
  arithmetic_correct ArithmeticOp.plus r1 r2 r3 h1 h2 h3 =
      let d : _ = encode_arithmetic-Decodes InstructionType.add r1 r2 r3 h1 h2 h3 in
      via InstructionType.add _ _ _ _ _ vm d (arithmetic_lem _ _ _ _ _ _ d vm _ _ refl)
  arithmetic_correct ArithmeticOp.minus r1 r2 r3 h1 h2 h3 =
      let d : _ = encode_arithmetic-Decodes InstructionType.sub r1 r2 r3 h1 h2 h3 in
      via InstructionType.sub _ _ _ _ _ vm d (arithmetic_lem _ _ _ _ _ _ d vm _ _ refl)
  arithmetic_correct ArithmeticOp.times r1 r2 r3 h1 h2 h3 =
      let d : _ = encode_arithmetic-Decodes InstructionType.mul r1 r2 r3 h1 h2 h3 in
      via InstructionType.mul _ _ _ _ _ vm d (arithmetic_lem _ _ _ _ _ _ d vm _ _ refl)
  arithmetic_correct ArithmeticOp.over r1 r2 r3 h1 h2 h3 =
      let d : _ = encode_arithmetic-Decodes InstructionType.div r1 r2 r3 h1 h2 h3 in
      via InstructionType.div _ _ _ _ _ vm d (div_lem _ _ _ _ _ _ d vm refl)

  -- Their immediate form.
  pub arithmetic_value_correct :
      (op : ArithmeticOp) (r1 r2 n : ℕ)
      → r1 < 16
      → r2 < 16
      → n < 2048
      → run_word (encode_arithmetic_immediate (arithmetic_type op) r1 r2 n) vm
        ≡ arithmetic_meaning op r1 (vm.cpu.regs r2) n vm
  unfolding arithmetic_type arithmetic_meaning or_unknown instruction_table execute_add execute_sub
      execute_mul divide
  arithmetic_value_correct ArithmeticOp.plus r1 r2 n h1 h2 hn =
      let d : _ = encode_arithmetic_immediate-Decodes InstructionType.add r1 r2 n h1 h2 in
      via InstructionType.add _ _ _ _ _ vm d
        (arithmetic_value_lem _ _ _ _ _ _ d vm _ _ n hn (omega arith))
  arithmetic_value_correct ArithmeticOp.minus r1 r2 n h1 h2 hn =
      let d : _ = encode_arithmetic_immediate-Decodes InstructionType.sub r1 r2 n h1 h2 in
      via InstructionType.sub _ _ _ _ _ vm d
        (arithmetic_value_lem _ _ _ _ _ _ d vm _ _ n hn (omega arith))
  arithmetic_value_correct ArithmeticOp.times r1 r2 n h1 h2 hn =
      let d : _ = encode_arithmetic_immediate-Decodes InstructionType.mul r1 r2 n h1 h2 in
      via InstructionType.mul _ _ _ _ _ vm d
        (arithmetic_value_lem _ _ _ _ _ _ d vm _ _ n hn (omega arith))
  arithmetic_value_correct ArithmeticOp.over r1 r2 n h1 h2 hn =
      let d : _ = encode_arithmetic_immediate-Decodes InstructionType.div r1 r2 n h1 h2 in
      via InstructionType.div _ _ _ _ _ vm d (div_value_lem _ _ _ _ _ _ d vm n hn (omega arith))

  -- AND, OR, XOR, SHL and SHR.
  pub bits_correct :
      (op : BitOp) (r1 r2 r3 : ℕ)
      → r1 < 16
      → r2 < 16
      → r3 < 16
      → run_word (encode_arithmetic (bit_type op) r1 r2 r3) vm
        ≡ set_reg r1 (bit_meaning op vm (vm.cpu.regs r2) (vm.cpu.regs r3)) vm
  unfolding bit_type bit_meaning or_unknown instruction_table execute_and execute_or execute_xor
      execute_shl execute_shr
  bits_correct BitOp.both r1 r2 r3 h1 h2 h3 =
      let d : _ = encode_arithmetic-Decodes InstructionType.and r1 r2 r3 h1 h2 h3 in
      via InstructionType.and _ _ _ _ _ vm d (three_registers_lem _ _ _ _ _ _ d vm _ _)
  bits_correct BitOp.either r1 r2 r3 h1 h2 h3 =
      let d : _ = encode_arithmetic-Decodes InstructionType.or r1 r2 r3 h1 h2 h3 in
      via InstructionType.or _ _ _ _ _ vm d (three_registers_lem _ _ _ _ _ _ d vm _ _)
  bits_correct BitOp.differ r1 r2 r3 h1 h2 h3 =
      let d : _ = encode_arithmetic-Decodes InstructionType.xor r1 r2 r3 h1 h2 h3 in
      via InstructionType.xor _ _ _ _ _ vm d (three_registers_lem _ _ _ _ _ _ d vm _ _)
  bits_correct BitOp.left r1 r2 r3 h1 h2 h3 =
      let d : _ = encode_arithmetic-Decodes InstructionType.shl r1 r2 r3 h1 h2 h3 in
      via InstructionType.shl _ _ _ _ _ vm d (three_registers_lem _ _ _ _ _ _ d vm _ _)
  bits_correct BitOp.right r1 r2 r3 h1 h2 h3 =
      let d : _ = encode_arithmetic-Decodes InstructionType.shr r1 r2 r3 h1 h2 h3 in
      via InstructionType.shr _ _ _ _ _ vm d (three_registers_lem _ _ _ _ _ _ d vm _ _)

  -- The jumps.
  pub jump_correct :
      (c : Condition) (a : ℕ)
      → a < 4096
      → run_word (encode_jump (jump_type c) 0 a) vm
        ≡ (if holds c vm.cpu.flags then set_pc a vm else vm)
  unfolding jump_type or_unknown instruction_table execute_jl execute_jg execute_jle execute_jge
      holds
  jump_correct Condition.always a ha =
      let d : _ = fitting InstructionType.jmp 0 a (omega arith) ha in
      via InstructionType.jmp _ _ _ _ _ vm d (jmp_lem _ _ _ _ _ _ d vm)
  jump_correct Condition.if_zero a ha =
      let d : _ = fitting InstructionType.jz 0 a (omega arith) ha in
      via InstructionType.jz _ _ _ _ _ vm d (jz_lem _ _ _ _ _ _ d vm)
  jump_correct Condition.if_not_zero a ha =
      let d : _ = fitting InstructionType.jnz 0 a (omega arith) ha in
      via InstructionType.jnz _ _ _ _ _ vm d (jnz_lem _ _ _ _ _ _ d vm)
  jump_correct Condition.if_less a ha =
      let d : _ = fitting InstructionType.jl 0 a (omega arith) ha in
      via InstructionType.jl _ _ _ _ _ vm d (jump_lem _ _ _ _ _ _ d vm _ _)
  jump_correct Condition.if_greater a ha =
      let d : _ = fitting InstructionType.jg 0 a (omega arith) ha in
      via InstructionType.jg _ _ _ _ _ vm d (jump_lem _ _ _ _ _ _ d vm _ _)
  jump_correct Condition.if_less_equal a ha =
      let d : _ = fitting InstructionType.jle 0 a (omega arith) ha in
      via InstructionType.jle _ _ _ _ _ vm d (jump_lem _ _ _ _ _ _ d vm _ _)
  jump_correct Condition.if_greater_equal a ha =
      let d : _ = fitting InstructionType.jge 0 a (omega arith) ha in
      via InstructionType.jge _ _ _ _ _ vm d (jump_lem _ _ _ _ _ _ d vm _ _)
