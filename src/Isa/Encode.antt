-- ===== src/Isa/Encode.antt =====
-- The encoders of src/assembler/dez_parser.c, `parser_encode_mov` to
-- `parser_encode_single_register`.
use dez.Base.{ℕ, bit_and, bit_or, ◌<<◌}
use dez.Isa.Instruction.{InstructionType, opcode}

unfoldable pub encode_jump : InstructionType → ℕ → ℕ → ℕ
encode_jump type reg address =
    bit_or (bit_or (opcode type << 24) (reg << 20)) (bit_and address 0x0FFF)

unfoldable pub encode_mov : ℕ → ℕ → ℕ
encode_mov reg immediate =
    bit_or (bit_or (opcode InstructionType.mov << 24) (reg << 20)) (bit_and immediate 0x0FFF)

unfoldable pub encode_load : ℕ → ℕ → ℕ
encode_load reg address =
    bit_or (bit_or (opcode InstructionType.load << 24) (reg << 20)) (bit_and address 0x0FFF)

unfoldable pub encode_store : ℕ → ℕ → ℕ
encode_store reg address =
    bit_or (bit_or (opcode InstructionType.store << 24) (reg << 20)) (bit_and address 0x0FFF)

unfoldable pub encode_sys : ℕ → ℕ → ℕ
encode_sys reg syscall =
    bit_or (bit_or (opcode InstructionType.sys << 24) (reg << 20)) (bit_and syscall 0x0FFF)

unfoldable pub encode_load_indirect : ℕ → ℕ → ℕ
encode_load_indirect dest_reg addr_reg =
    bit_or (bit_or (opcode InstructionType.load_indirect << 24) (dest_reg << 20)) (addr_reg << 16)

unfoldable pub encode_store_indirect : ℕ → ℕ → ℕ
encode_store_indirect src_reg addr_reg =
    bit_or (bit_or (opcode InstructionType.store_indirect << 24) (src_reg << 20)) (addr_reg << 16)

unfoldable pub encode_arithmetic : InstructionType → ℕ → ℕ → ℕ → ℕ
encode_arithmetic type reg1 reg2 reg3 =
    bit_or (bit_or (bit_or (opcode type << 24) (reg1 << 20)) (reg2 << 16)) (reg3 << 12)

unfoldable pub encode_load_indexed : ℕ → ℕ → ℕ → ℕ
encode_load_indexed dest_reg base_reg index_reg =
    bit_or
      (bit_or (bit_or (opcode InstructionType.load_indexed << 24) (dest_reg << 20))
        (base_reg << 16))
      (index_reg << 12)

unfoldable pub encode_store_indexed : ℕ → ℕ → ℕ → ℕ
encode_store_indexed src_reg base_reg index_reg =
    bit_or
      (bit_or (bit_or (opcode InstructionType.store_indexed << 24) (src_reg << 20))
        (base_reg << 16))
      (index_reg << 12)

unfoldable pub encode_single : InstructionType → ℕ
encode_single type = opcode type << 24

unfoldable pub encode_single_register : InstructionType → ℕ → ℕ
encode_single_register type reg = bit_or (opcode type << 24) (reg << 20)

-- The immediate form of ADD, SUB, MUL and DIV, written out in `parser_encode_instruction`.
unfoldable pub encode_arithmetic_immediate : InstructionType → ℕ → ℕ → ℕ → ℕ
encode_arithmetic_immediate type reg1 reg2 value =
    bit_or (bit_or (bit_or (bit_or (opcode type << 24) (reg1 << 20)) (reg2 << 16)) 2048)
      (bit_and value 0x07FF)
