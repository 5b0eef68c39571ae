-- ===== src/Isa/Statement.antt =====
-- An assembly statement with its operands resolved, and the word that the assembler encodes it as.
use dez.Base.{ℕ, ◌<◌, ◌≢◌}
use dez.Isa.Instruction.{InstructionType}
use dez.Isa.Encode.{
  encode_jump, encode_mov, encode_load, encode_store, encode_sys, encode_load_indirect,
  encode_store_indirect, encode_arithmetic, encode_load_indexed, encode_store_indexed,
  encode_single, encode_single_register, encode_arithmetic_immediate,
}

pub data ArithmeticOp : Type 0 where
  plus minus times over : ArithmeticOp

pub data BitOp : Type 0 where
  both either differ left right : BitOp

pub data Condition : Type 0 where
  always if_zero if_not_zero if_less if_greater if_less_equal if_greater_equal : Condition

pub data Statement : Type 0 where
  move load_from store_to system : ℕ → ℕ → Statement
  arithmetic arithmetic_value : ArithmeticOp → ℕ → ℕ → ℕ → Statement
  bits : BitOp → ℕ → ℕ → ℕ → Statement
  complement compare compare_value : ℕ → ℕ → Statement
  jump : Condition → ℕ → Statement
  push pop increment decrement : ℕ → Statement
  call_to : ℕ → Statement
  load_at store_at : ℕ → ℕ → Statement
  load_sum store_sum : ℕ → ℕ → ℕ → Statement
  return stop nothing : Statement

unfoldable pub arithmetic_type : ArithmeticOp → InstructionType
arithmetic_type plus = InstructionType.add
arithmetic_type minus = InstructionType.sub
arithmetic_type times = InstructionType.mul
arithmetic_type over = InstructionType.div

unfoldable pub bit_type : BitOp → InstructionType
bit_type both = InstructionType.and
bit_type either = InstructionType.or
bit_type differ = InstructionType.xor
bit_type left = InstructionType.shl
bit_type right = InstructionType.shr

unfoldable pub jump_type : Condition → InstructionType
jump_type always = InstructionType.jmp
jump_type if_zero = InstructionType.jz
jump_type if_not_zero = InstructionType.jnz
jump_type if_less = InstructionType.jl
jump_type if_greater = InstructionType.jg
jump_type if_less_equal = InstructionType.jle
jump_type if_greater_equal = InstructionType.jge

-- The word of a statement, as the cases of `parser_encode_instruction` choose the encoder.
unfoldable pub encode : Statement → ℕ
encode (move r n) = encode_mov r n
encode (load_from r a) = encode_load r a
encode (store_to r a) = encode_store r a
encode (system r n) = encode_sys r n
encode (arithmetic op r1 r2 r3) = encode_arithmetic (arithmetic_type op) r1 r2 r3
encode (arithmetic_value op r1 r2 n) = encode_arithmetic_immediate (arithmetic_type op) r1 r2 n
encode (bits op r1 r2 r3) = encode_arithmetic (bit_type op) r1 r2 r3
encode (complement r1 r2) = encode_arithmetic InstructionType.not r1 r2 0
encode (compare r1 r2) = encode_arithmetic InstructionType.cmp r1 r2 0
encode (compare_value r n) = encode_jump InstructionType.cmp r n
encode (jump c a) = encode_jump (jump_type c) 0 a
encode (push r) = encode_single_register InstructionType.push r
encode (pop r) = encode_single_register InstructionType.pop r
encode (increment r) = encode_single_register InstructionType.inc r
encode (decrement r) = encode_single_register InstructionType.dec r
encode (call_to a) = encode_jump InstructionType.call 0 a
encode (load_at r s) = encode_load_indirect r s
encode (store_at r s) = encode_store_indirect r s
encode (load_sum r s i) = encode_load_indexed r s i
encode (store_sum r s i) = encode_store_indexed r s i
encode return = encode_single InstructionType.ret
encode stop = encode_single InstructionType.halt
encode nothing = encode_single InstructionType.nop

-- Register numbers below 16, values that fit their field, and no register comparison with R0, which
-- the word cannot express.
abbrev pub IsEncodable : Statement → Type 0
IsEncodable (move r n) = (r < 16) × (n < 4096)
IsEncodable (load_from r a) = (r < 16) × (a < 4096)
IsEncodable (store_to r a) = (r < 16) × (a < 4096)
IsEncodable (system r n) = (r < 16) × (n < 4096)
IsEncodable (arithmetic op r1 r2 r3) = (r1 < 16) × (r2 < 16) × (r3 < 16)
IsEncodable (arithmetic_value op r1 r2 n) = (r1 < 16) × (r2 < 16) × (n < 2048)
IsEncodable (bits op r1 r2 r3) = (r1 < 16) × (r2 < 16) × (r3 < 16)
IsEncodable (complement r1 r2) = (r1 < 16) × (r2 < 16)
IsEncodable (compare r1 r2) = (r1 < 16) × (r2 < 16) × (r2 ≢ 0)
IsEncodable (compare_value r n) = (r < 16) × (n < 4096)
IsEncodable (jump c a) = a < 4096
IsEncodable (push r) = r < 16
IsEncodable (pop r) = r < 16
IsEncodable (increment r) = r < 16
IsEncodable (decrement r) = r < 16
IsEncodable (call_to a) = a < 4096
IsEncodable (load_at r s) = (r < 16) × (s < 16)
IsEncodable (store_at r s) = (r < 16) × (s < 16)
IsEncodable (load_sum r s i) = (r < 16) × (s < 16) × (i < 16)
IsEncodable (store_sum r s i) = (r < 16) × (s < 16) × (i < 16)
IsEncodable return = Unit
IsEncodable stop = Unit
IsEncodable nothing = Unit

-- The operands fit their fields; the registers of CMP are any.
abbrev pub Fits : Statement → Type 0
Fits (compare r1 r2) = (r1 < 16) × (r2 < 16)
Fits s = IsEncodable s
