-- ===== src/Disasm/Defs.antt =====
-- src/core/dez_disasm.c: one instruction as text. A call of `safe_snprintf` is the list of what its
-- format prints, in order; how C prints a number, and the cut at the size of the buffer, are not
-- modelled.
use dez.Base.{ℕ, zero, suc, List, [], ◌∷◌, ltb, ◌==◌, if◌then◌else◌, String, u8}
use dez.Isa.Instruction.{InstructionType, instruction_type}
use dez.Isa.Decode.{decode_opcode, decode_reg1, decode_reg2, decode_reg3, decode_immediate}

-- `%s` and the text of the format; `%d`; `0x%02X` and `0x%08X` by their widths.
pub data Piece : Type 0 where
  text : String → Piece
  decimal : ℕ → Piece
  hex : ℕ → ℕ → Piece

-- The `switch` of `dez_get_instruction_mnemonic`.
unfoldable pub mnemonic_of : InstructionType → String
mnemonic_of InstructionType.mov = "MOV"
mnemonic_of InstructionType.load = "LOAD"
mnemonic_of InstructionType.store = "STORE"
mnemonic_of InstructionType.add = "ADD"
mnemonic_of InstructionType.sub = "SUB"
mnemonic_of InstructionType.mul = "MUL"
mnemonic_of InstructionType.div = "DIV"
mnemonic_of InstructionType.jmp = "JMP"
mnemonic_of InstructionType.jz = "JZ"
mnemonic_of InstructionType.jnz = "JNZ"
mnemonic_of InstructionType.cmp = "CMP"
mnemonic_of InstructionType.sys = "SYS"
mnemonic_of InstructionType.inc = "INC"
mnemonic_of InstructionType.dec = "DEC"
mnemonic_of InstructionType.load_indirect = "LOAD_INDIRECT"
mnemonic_of InstructionType.store_indirect = "STORE_INDIRECT"
mnemonic_of InstructionType.load_indexed = "LOAD_INDEXED"
mnemonic_of InstructionType.store_indexed = "STORE_INDEXED"
mnemonic_of InstructionType.halt = "HALT"
mnemonic_of InstructionType.nop = "NOP"
mnemonic_of _ = "UNKNOWN"

unfoldable pub dez_get_instruction_mnemonic : ℕ → String
unfolding mnemonic_of
dez_get_instruction_mnemonic opcode = mnemonic_of (instruction_type opcode)

-- `reg_names`
abbrev pub reg_names : List String
reg_names =
    "R0" ∷ "R1" ∷ "R2" ∷ "R3" ∷ "R4" ∷ "R5" ∷ "R6" ∷ "R7" ∷ "R8" ∷ "R9" ∷ "R10" ∷ "R11" ∷ "R12"
    ∷ "R13" ∷ "R14" ∷ "R15" ∷ []

-- `names[n]`; the text for an index out of range is never asked for.
unfoldable pub name_at : List String → ℕ → String
name_at [] n = "R?"
name_at (name ∷ names) zero = name
name_at (name ∷ names) (suc n) = name_at names n

unfoldable pub dez_get_register_name : ℕ → String
dez_get_register_name reg = if ltb reg 16 then name_at reg_names reg else "R?"

unfoldable pub dez_get_syscall_name : ℕ → String
dez_get_syscall_name syscall =
    if syscall == 1
    then "PRINT"
    else if syscall == 2
    then "PRINT_STR"
    else if syscall == 3
    then "PRINT_CHAR"
    else if syscall == 4
    then "READ"
    else if syscall == 5
    then "READ_STR"
    else if syscall == 6
    then "EXIT"
    else if syscall == 7
    then "DEBUG"
    else "UNKNOWN_SYS"

-- `dez_disasm_instruction` behind the decoding of the word.
unfoldable pub disasm_fields : ℕ → ℕ → ℕ → ℕ → ℕ → ℕ → List Piece
disasm_fields opcode r1 r2 r3 immediate instruction =
    let reg1 : Piece = text (dez_get_register_name r1) in
    let reg2 : Piece = text (dez_get_register_name r2) in
    let reg3 : Piece = text (dez_get_register_name r3) in
    let mnemonic : Piece = text (dez_get_instruction_mnemonic opcode) in
    let number : List Piece = mnemonic ∷ text " " ∷ reg1 ∷ text ", #" ∷ decimal immediate ∷ [] in
    let three : List Piece =
      mnemonic ∷ text " " ∷ reg1 ∷ text ", " ∷ reg2 ∷ text ", " ∷ reg3 ∷ [] in
    let one : List Piece = mnemonic ∷ text " " ∷ reg1 ∷ [] in
    let indirect : List Piece = mnemonic ∷ text " " ∷ reg1 ∷ text ", [" ∷ reg2 ∷ text "]" ∷ [] in
    let indexed : List Piece =
      mnemonic ∷ text " " ∷ reg1 ∷ text ", [" ∷ reg2 ∷ text " + " ∷ reg3 ∷ text "]" ∷ [] in
    elim (instruction_type opcode) [
      | InstructionType.mov ↦ number
      | InstructionType.load ↦ number
      | InstructionType.store ↦
          mnemonic ∷ text " " ∷ reg1 ∷ text ", [" ∷ decimal immediate ∷ text "]" ∷ []
      | InstructionType.add ↦ three
      | InstructionType.sub ↦ three
      | InstructionType.mul ↦ three
      | InstructionType.div ↦ three
      | InstructionType.jmp ↦ mnemonic ∷ text " #" ∷ decimal immediate ∷ []
      | InstructionType.jz ↦ number
      | InstructionType.jnz ↦ number
      | InstructionType.cmp ↦ mnemonic ∷ text " " ∷ reg1 ∷ text ", " ∷ reg2 ∷ []
      | InstructionType.sys ↦
          mnemonic ∷ text " " ∷ reg1 ∷ text ", " ∷ text (dez_get_syscall_name immediate) ∷ []
      | InstructionType.halt ↦ mnemonic ∷ []
      | InstructionType.inc ↦ one
      | InstructionType.dec ↦ one
      | InstructionType.load_indirect ↦ indirect
      | InstructionType.store_indirect ↦ indirect
      | InstructionType.load_indexed ↦ indexed
      | InstructionType.store_indexed ↦ indexed
      | InstructionType.nop ↦ mnemonic ∷ []
      | _ ↦ mnemonic ∷ text " " ∷ hex 2 opcode ∷ text " (" ∷ hex 8 instruction ∷ text ")" ∷ []
    ]

unfoldable pub dez_disasm_instruction : ℕ → List Piece
dez_disasm_instruction instruction =
    disasm_fields (u8 (decode_opcode instruction)) (decode_reg1 instruction)
      (decode_reg2 instruction) (decode_reg3 instruction) (decode_immediate instruction) instruction
