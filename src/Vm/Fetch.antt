-- ===== src/Vm/Fetch.antt =====
-- One step on an encoded statement: its meaning, then the program counter.
use dez.Base.{ℕ, ◌<◌, ◌≡◌, refl, true, false, u8, ◌>>◌, lt→leb, arith}
use dez.Isa.Instruction.{InstructionType, opcode}
use dez.Isa.Fields.{instruction_type-opcode}
use dez.Isa.Encode.{
  encode_jump, encode_mov, encode_load, encode_store, encode_sys, encode_load_indirect,
  encode_store_indirect, encode_arithmetic, encode_load_indexed, encode_store_indexed,
}
use dez.Isa.RoundTrip.{
  encode_arithmetic-Decodes, encode_arithmetic_immediate-Decodes, encode_jump-Decodes,
  encode_single_register-Decodes, encode_single-Decodes, two_registers-Decodes,
}
use dez.Isa.Statement.{Statement, arithmetic_type, bit_type, jump_type, encode, IsEncodable}
use dez.Vm.State.{Vm, is_running}
use dez.Vm.Table.{instruction_table, or_unknown, get_instruction_info}
use dez.Vm.Step.{advance, dispatch, dez_vm_step}
use dez.Vm.Keeps.Run.{entry}
use dez.Vm.Meaning.{meaning}
use dez.Vm.Correct.{execute-encode}

-- The instruction that a statement is encoded with.
unfoldable pub type_of : Statement → InstructionType
unfolding arithmetic_type bit_type jump_type
type_of (Statement.move r n) = InstructionType.mov
type_of (Statement.load_from r n) = InstructionType.load
type_of (Statement.store_to r n) = InstructionType.store
type_of (Statement.system r n) = InstructionType.sys
type_of (Statement.arithmetic op r1 r2 r3) = arithmetic_type op
type_of (Statement.arithmetic_value op r1 r2 n) = arithmetic_type op
type_of (Statement.bits op r1 r2 r3) = bit_type op
type_of (Statement.complement r1 r2) = InstructionType.not
type_of (Statement.compare r1 r2) = InstructionType.cmp
type_of (Statement.compare_value r n) = InstructionType.cmp
type_of (Statement.jump c n) = jump_type c
type_of (Statement.push r) = InstructionType.push
type_of (Statement.pop r) = InstructionType.pop
type_of (Statement.increment r) = InstructionType.inc
type_of (Statement.decrement r) = InstructionType.dec
type_of (Statement.call_to n) = InstructionType.call
type_of (Statement.load_at r1 r2) = InstructionType.load_indirect
type_of (Statement.store_at r1 r2) = InstructionType.store_indirect
type_of (Statement.load_sum r1 r2 r3) = InstructionType.load_indexed
type_of (Statement.store_sum r1 r2 r3) = InstructionType.store_indexed
type_of Statement.return = InstructionType.ret
type_of Statement.stop = InstructionType.halt
type_of Statement.nothing = InstructionType.nop

opcode-encode : (s : Statement) → IsEncodable s → u8 (encode s >> 24) ≡ opcode (type_of s)
unfolding encode type_of encode_mov encode_load encode_store encode_sys encode_load_indirect
    encode_store_indirect encode_load_indexed encode_store_indexed encode_arithmetic encode_jump
opcode-encode (Statement.move r n) h = (encode_jump-Decodes InstructionType.mov r n h.0).dispatched
opcode-encode (Statement.load_from r n) h =
    (encode_jump-Decodes InstructionType.load r n h.0).dispatched
opcode-encode (Statement.store_to r n) h =
    (encode_jump-Decodes InstructionType.store r n h.0).dispatched
opcode-encode (Statement.system r n) h =
    (encode_jump-Decodes InstructionType.sys r n h.0).dispatched
opcode-encode (Statement.arithmetic op r1 r2 r3) h =
    (encode_arithmetic-Decodes (arithmetic_type op) r1 r2 r3 h.0 h.1 h.2).dispatched
opcode-encode (Statement.arithmetic_value op r1 r2 n) h =
    (encode_arithmetic_immediate-Decodes (arithmetic_type op) r1 r2 n h.0 h.1).dispatched
opcode-encode (Statement.bits op r1 r2 r3) h =
    (encode_arithmetic-Decodes (bit_type op) r1 r2 r3 h.0 h.1 h.2).dispatched
opcode-encode (Statement.complement r1 r2) h =
    (encode_arithmetic-Decodes InstructionType.not r1 r2 0 h.0 h.1 (omega arith)).dispatched
opcode-encode (Statement.compare r1 r2) h =
    (encode_arithmetic-Decodes InstructionType.cmp r1 r2 0 h.0 h.1 (omega arith)).dispatched
opcode-encode (Statement.compare_value r n) h =
    (encode_jump-Decodes InstructionType.cmp r n h.0).dispatched
opcode-encode (Statement.jump c n) h =
    (encode_jump-Decodes (jump_type c) 0 n (omega arith)).dispatched
opcode-encode (Statement.push r) h =
    (encode_single_register-Decodes InstructionType.push r h).dispatched
opcode-encode (Statement.pop r) h =
    (encode_single_register-Decodes InstructionType.pop r h).dispatched
opcode-encode (Statement.increment r) h =
    (encode_single_register-Decodes InstructionType.inc r h).dispatched
opcode-encode (Statement.decrement r) h =
    (encode_single_register-Decodes InstructionType.dec r h).dispatched
opcode-encode (Statement.call_to n) h =
    (encode_jump-Decodes InstructionType.call 0 n (omega arith)).dispatched
opcode-encode (Statement.load_at r1 r2) h =
    (two_registers-Decodes InstructionType.load_indirect r1 r2 h.0 h.1).dispatched
opcode-encode (Statement.store_at r1 r2) h =
    (two_registers-Decodes InstructionType.store_indirect r1 r2 h.0 h.1).dispatched
opcode-encode (Statement.load_sum r1 r2 r3) h =
    (encode_arithmetic-Decodes InstructionType.load_indexed r1 r2 r3 h.0 h.1 h.2).dispatched
opcode-encode (Statement.store_sum r1 r2 r3) h =
    (encode_arithmetic-Decodes InstructionType.store_indexed r1 r2 r3 h.0 h.1 h.2).dispatched
opcode-encode Statement.return h = (encode_single-Decodes InstructionType.ret).dispatched
opcode-encode Statement.stop h = (encode_single-Decodes InstructionType.halt).dispatched
opcode-encode Statement.nothing h = (encode_single-Decodes InstructionType.nop).dispatched

-- How far the program counter moves behind an instruction that leaves it alone.
unfoldable pub increment : InstructionType → ℕ
increment InstructionType.jmp = 0
increment InstructionType.call = 0
increment InstructionType.ret = 0
increment InstructionType.halt = 0
increment InstructionType.unknown = 0
increment _ = 1

entry-increment : (t : InstructionType) → (entry t).pc_increment ≡ increment t
unfolding increment instruction_table or_unknown
entry-increment InstructionType.jmp = refl
entry-increment _ = refl

increment-encode :
    (s : Statement)
    → IsEncodable s
    → (get_instruction_info (u8 (encode s >> 24))).pc_increment ≡ increment (type_of s)
unfolding get_instruction_info
increment-encode s h =
    rw (opcode-encode s h, instruction_type-opcode (type_of s)) (entry-increment (type_of s))

-- A running machine, not in debug mode, whose program counter points at the encoding of a statement.
pub record At (s : Statement) (vm : Vm) : Type 0 where
  pub encodable : IsEncodable s
  pub runs : is_running vm.cpu.state ≡ true
  pub within : vm.cpu.pc < 4096
  pub word : vm.memory.memory vm.cpu.pc ≡ encode s
  pub quiet : vm.debug_mode ≡ false

-- A step on the encoding of a statement does what the statement means; then, if the program counter
-- is still where it was, it moves on by one, by none for JMP, CALL, RET and HALT.
pub step-advance :
    (s : Statement) (vm : Vm)
    → At s vm
    → dez_vm_step vm ≡ advance vm.cpu.pc (increment (type_of s)) (meaning s vm)
unfolding dez_vm_step dispatch
step-advance s vm at = simp (
  at.runs,
  lt→leb 4096 vm.cpu.pc at.within,
  at.quiet,
  at.word,
  execute-encode s vm at.encodable,
  increment-encode s at.encodable,
)
