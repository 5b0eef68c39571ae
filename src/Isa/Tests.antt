-- ===== src/Isa/Tests.antt =====
-- Encodings from the comments of the source.
use dez.Base.{◌≡◌, refl}
use dez.Isa.Instruction.{InstructionType, opcode}
use dez.Isa.Encode.{encode_arithmetic, encode_arithmetic_immediate, encode_mov}

-- ADD R1, R2, R3; ADD R1, R2, 5; MOV R0, 42
documented_words :
    (encode_arithmetic InstructionType.add 1 2 3 ≡ 0x04123000)
    × (encode_arithmetic_immediate InstructionType.add 1 2 5 ≡ 0x04120805)
    × (encode_mov 0 42 ≡ 0x1000002A)
unfolding encode_arithmetic encode_arithmetic_immediate encode_mov opcode
documented_words = (refl, refl, refl)
