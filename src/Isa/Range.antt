-- ===== src/Isa/Range.antt =====
-- Encoded statements are 32-bit words.
use dez.Base.{ℕ, ◌<◌, bit_or, ◌<<◌, IsWord, arith}
use dez.Base.Bits.{bit_or-bound, bit_and-mask}
use dez.Isa.Instruction.{InstructionType}
use dez.Isa.Fields.{opcode-lt}
use dez.Isa.Encode.{
  encode_jump, encode_mov, encode_load, encode_store, encode_sys, encode_load_indirect,
  encode_store_indirect, encode_arithmetic, encode_load_indexed, encode_store_indexed,
  encode_single, encode_single_register, encode_arithmetic_immediate,
}
use dez.Isa.Statement.{Statement, arithmetic_type, bit_type, jump_type, encode, IsEncodable}

or : {a b : ℕ} → IsWord a → IsWord b → IsWord (bit_or a b)
or {a} {b} ha hb = bit_or-bound 32 a b ha hb

-- The opcode, and the opcode with a register.
encode_single-IsWord : (type : InstructionType) → IsWord (encode_single type)
unfolding encode_single
encode_single-IsWord type = omega (arith, opcode-lt type)

encode_single_register-IsWord :
    (type : InstructionType) (r : ℕ) → r < 16 → IsWord (encode_single_register type r)
unfolding encode_single_register encode_single
encode_single_register-IsWord type r h = or (omega (arith, opcode-lt type)) (omega arith)

encode_jump-IsWord : (type : InstructionType) (r a : ℕ) → r < 16 → IsWord (encode_jump type r a)
unfolding encode_jump encode_single_register
encode_jump-IsWord type r a h =
    or (encode_single_register-IsWord type r h) (omega (arith, bit_and-mask 12 a))

two_registers-IsWord :
    (type : InstructionType) (r s : ℕ)
    → r < 16
    → s < 16
    → IsWord (bit_or (encode_single_register type r) (s << 16))
two_registers-IsWord type r s hr hs = or (encode_single_register-IsWord type r hr) (omega arith)

encode_arithmetic-IsWord :
    (type : InstructionType) (r s t : ℕ)
    → r < 16
    → s < 16
    → t < 16
    → IsWord (encode_arithmetic type r s t)
unfolding encode_arithmetic encode_single_register
encode_arithmetic-IsWord type r s t hr hs ht =
    or (two_registers-IsWord type r s hr hs) (omega arith)

encode_arithmetic_immediate-IsWord :
    (type : InstructionType) (r s n : ℕ)
    → r < 16
    → s < 16
    → IsWord (encode_arithmetic_immediate type r s n)
unfolding encode_arithmetic_immediate encode_single_register
encode_arithmetic_immediate-IsWord type r s n hr hs =
    or (or (two_registers-IsWord type r s hr hs) (omega arith)) (omega (arith, bit_and-mask 11 n))

-- The word of a statement that can be encoded.
pub encode-IsWord : (s : Statement) → IsEncodable s → IsWord (encode s)
unfolding encode encode_mov encode_load encode_store encode_sys encode_load_indirect
    encode_store_indirect encode_load_indexed encode_store_indexed encode_jump encode_arithmetic
    encode_single_register
encode-IsWord (Statement.move r n) h = encode_jump-IsWord InstructionType.mov r n h.0
encode-IsWord (Statement.load_from r a) h = encode_jump-IsWord InstructionType.load r a h.0
encode-IsWord (Statement.store_to r a) h = encode_jump-IsWord InstructionType.store r a h.0
encode-IsWord (Statement.system r n) h = encode_jump-IsWord InstructionType.sys r n h.0
encode-IsWord (Statement.arithmetic o r s t) (hr, hs, ht) =
    encode_arithmetic-IsWord (arithmetic_type o) r s t hr hs ht
encode-IsWord (Statement.arithmetic_value o r s n) (hr, hs, hn) =
    encode_arithmetic_immediate-IsWord (arithmetic_type o) r s n hr hs
encode-IsWord (Statement.bits o r s t) (hr, hs, ht) =
    encode_arithmetic-IsWord (bit_type o) r s t hr hs ht
encode-IsWord (Statement.complement r s) (hr, hs) =
    encode_arithmetic-IsWord InstructionType.not r s 0 hr hs (omega arith)
encode-IsWord (Statement.compare r s) (hr, hs, _) =
    encode_arithmetic-IsWord InstructionType.cmp r s 0 hr hs (omega arith)
encode-IsWord (Statement.compare_value r n) h = encode_jump-IsWord InstructionType.cmp r n h.0
encode-IsWord (Statement.jump c a) h = encode_jump-IsWord (jump_type c) 0 a (omega arith)
encode-IsWord (Statement.push r) h = encode_single_register-IsWord InstructionType.push r h
encode-IsWord (Statement.pop r) h = encode_single_register-IsWord InstructionType.pop r h
encode-IsWord (Statement.increment r) h = encode_single_register-IsWord InstructionType.inc r h
encode-IsWord (Statement.decrement r) h = encode_single_register-IsWord InstructionType.dec r h
encode-IsWord (Statement.call_to a) h = encode_jump-IsWord InstructionType.call 0 a (omega arith)
encode-IsWord (Statement.load_at r s) h =
    two_registers-IsWord InstructionType.load_indirect r s h.0 h.1
encode-IsWord (Statement.store_at r s) h =
    two_registers-IsWord InstructionType.store_indirect r s h.0 h.1
encode-IsWord (Statement.load_sum r s i) (hr, hs, hi) =
    encode_arithmetic-IsWord InstructionType.load_indexed r s i hr hs hi
encode-IsWord (Statement.store_sum r s i) (hr, hs, hi) =
    encode_arithmetic-IsWord InstructionType.store_indexed r s i hr hs hi
encode-IsWord Statement.return h = encode_single-IsWord InstructionType.ret
encode-IsWord Statement.stop h = encode_single-IsWord InstructionType.halt
encode-IsWord Statement.nothing h = encode_single-IsWord InstructionType.nop
