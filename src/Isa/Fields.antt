-- ===== src/Isa/Fields.antt =====
-- Decoding as arithmetic, and decoding what an encoder has packed.
use dez.Base.{ℕ, ◌*◌, ◌/◌, ◌%◌, ◌^◌, ◌<◌, ◌≡◌, refl, ◌==◌, bit_and, arith}
use dez.Base.Bits.{bit_and-mask, bit_and-fields, bit_and-le}
use dez.Isa.Instruction.{InstructionType, opcode, instruction_type}
use dez.Isa.Decode.{
  decode_opcode, decode_reg1, decode_reg2, decode_reg3, decode_immediate, decode_ext_immediate,
  is_immediate_mode,
}

pub decode_reg1_lem : (inst : ℕ) → decode_reg1 inst ≡ inst / 2 ^ 20 % 16
unfolding decode_reg1
decode_reg1_lem inst = bit_and-mask 4 (inst / 2 ^ 20)

pub decode_reg2_lem : (inst : ℕ) → decode_reg2 inst ≡ inst / 2 ^ 16 % 16
unfolding decode_reg2
decode_reg2_lem inst = bit_and-mask 4 (inst / 2 ^ 16)

pub decode_reg3_lem : (inst : ℕ) → decode_reg3 inst ≡ inst / 2 ^ 12 % 16
unfolding decode_reg3
decode_reg3_lem inst = bit_and-mask 4 (inst / 2 ^ 12)

pub decode_opcode_lem : (inst : ℕ) → decode_opcode inst ≡ inst / 2 ^ 24 % 256
unfolding decode_opcode
decode_opcode_lem inst = bit_and-mask 8 (inst / 2 ^ 24)

pub decode_immediate_lem : (inst : ℕ) → decode_immediate inst ≡ inst % 2 ^ 12
unfolding decode_immediate
decode_immediate_lem inst = bit_and-mask 12 inst

pub decode_ext_immediate_lem : (inst : ℕ) → decode_ext_immediate inst ≡ inst % 2 ^ 11
unfolding decode_ext_immediate
decode_ext_immediate_lem inst = bit_and-mask 11 inst

mode_bit : (inst : ℕ) → bit_and inst 2048 ≡ inst / 2 ^ 11 % 2 * 2048
mode_bit inst = ground (
  arith,
  bit_and-fields 11 (inst / 2 ^ 11) 1 (inst % 2 ^ 11) 0,
  bit_and-mask 1 (inst / 2 ^ 11),
  bit_and-le (inst % 2 ^ 11) 0,
)

pub is_immediate_mode_lem : (inst : ℕ) → is_immediate_mode inst ≡ (inst / 2 ^ 11 % 2 == 1)
unfolding is_immediate_mode
is_immediate_mode_lem inst = ground (arith, mode_bit inst)

-- Every register field is a register number.
pub decode_reg1-lt : (inst : ℕ) → decode_reg1 inst < 16
decode_reg1-lt inst = omega (arith, decode_reg1_lem inst)

pub decode_reg2-lt : (inst : ℕ) → decode_reg2 inst < 16
decode_reg2-lt inst = omega (arith, decode_reg2_lem inst)

pub decode_reg3-lt : (inst : ℕ) → decode_reg3 inst < 16
decode_reg3-lt inst = omega (arith, decode_reg3_lem inst)

pub decode_immediate-lt : (inst : ℕ) → decode_immediate inst < 4096
decode_immediate-lt inst = omega (arith, decode_immediate_lem inst)

pub opcode-lt : (t : InstructionType) → opcode t < 256
unfolding opcode
opcode-lt InstructionType.mov = omega arith
opcode-lt _ = omega arith

-- The opcode byte of each type leads back to it.
pub instruction_type-opcode : (t : InstructionType) → instruction_type (opcode t) ≡ t
unfolding opcode instruction_type
instruction_type-opcode InstructionType.mov = refl
instruction_type-opcode _ = refl
