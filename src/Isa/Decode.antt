-- ===== src/Isa/Decode.antt =====
-- The decoding macros of include/dez_vm_types.h. A word is opcode (8 bits), three register fields
-- (4 bits each) and an immediate (12 bits, or a mode bit and 11 bits).
use dez.Base.{ℕ, Bool, bit_and, ◌>>◌, ◌==◌, not}

abbrev pub max_register_index : ℕ
max_register_index = 15

abbrev pub immediate_mask : ℕ
immediate_mask = 0x0FFF

abbrev pub ext_immediate_mask : ℕ
ext_immediate_mask = 0x07FF

-- `1 << 11`
abbrev pub immediate_mode_flag : ℕ
immediate_mode_flag = 2048

unfoldable pub decode_opcode : ℕ → ℕ
decode_opcode inst = bit_and (inst >> 24) 0xFF

unfoldable pub decode_reg1 : ℕ → ℕ
decode_reg1 inst = bit_and (inst >> 20) 0xF

unfoldable pub decode_reg2 : ℕ → ℕ
decode_reg2 inst = bit_and (inst >> 16) 0xF

unfoldable pub decode_reg3 : ℕ → ℕ
decode_reg3 inst = bit_and (inst >> 12) 0xF

unfoldable pub decode_immediate : ℕ → ℕ
decode_immediate inst = bit_and inst immediate_mask

unfoldable pub decode_ext_immediate : ℕ → ℕ
decode_ext_immediate inst = bit_and inst ext_immediate_mask

unfoldable pub is_immediate_mode : ℕ → Bool
is_immediate_mode inst = not (bit_and inst immediate_mode_flag == 0)
