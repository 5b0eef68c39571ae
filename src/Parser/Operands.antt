-- ===== src/Parser/Operands.antt =====
-- include/dez_vm_types.h and src/assembler/dez_parser.h: operands and parsed instructions; and
-- src/assembler/dez_parser.c: `parser_encode_instruction`, with the symbol table that it looks labels
-- up in and adds string literals to.
use dez.Base.{ℕ, none, some, List, [], ◌∷◌, ◌++◌, u8, Chars, take}
use dez.Isa.Instruction.{InstructionType}
use dez.Isa.Encode.{
  encode_jump, encode_mov, encode_load, encode_store, encode_sys, encode_load_indirect,
  encode_store_indirect, encode_arithmetic, encode_load_indexed, encode_store_indexed,
  encode_single, encode_single_register, encode_arithmetic_immediate,
}
use dez.Symbols.{SymbolTable, Message, symbol_table_find, symbol_table_define_string}

-- `dez_operand_t`, the tag with its member of the union; `memory_label` is the tag of a memory operand
-- with the member of a label.
pub data Operand : Type 0 where
  register immediate memory : ℕ → Operand
  memory_label label string : Chars → Operand

-- `.value` or `.address`, which are the same word of the union. `union` says what that word holds
-- when the operand has another tag.
unfoldable pub value_of : (Operand → ℕ) → Operand → ℕ
value_of union (immediate n) = n
value_of union (memory n) = n
value_of union op = union op

-- `.reg`
unfoldable pub reg_of : (Operand → ℕ) → Operand → ℕ
reg_of union (register r) = r
reg_of union op = u8 (union op)

-- `parsed_instruction_t`, less the symbol table, which is passed along.
pub record ParsedInstruction : Type 0 where
  pub type : InstructionType
  pub operands : ℕ → Operand

-- `symbol_t *sym = symbol_table_find(…); … = sym ? sym->address : 0;`
unfoldable pub address_of : SymbolTable → Chars → ℕ × SymbolTable
address_of table name =
    let (found, table') = symbol_table_find table name in
    (elim found [ some i ↦ (table'.symbols i).address | none ↦ 0 ], table')

-- A label is looked up; for any other tag the word of the union is taken.
unfoldable pub target_of : (Operand → ℕ) → SymbolTable → Operand → ℕ × SymbolTable
target_of union table (label name) = address_of table name
target_of union table op = (value_of union op, table)

-- `"__str_"`
abbrev pub string_prefix : Chars
string_prefix = 95 ∷ 95 ∷ 115 ∷ 116 ∷ 114 ∷ 95 ∷ []

-- The name of the symbol of a string literal, in a buffer of 64 bytes.
unfoldable pub string_name : Chars → Chars
string_name s = take 63 (string_prefix ++ s)

-- The second operand of MOV.
unfoldable pub source_of : (Operand → ℕ) → SymbolTable → Operand → ℕ × SymbolTable × List Message
source_of union table (string s) =
    let (added, table', log) = symbol_table_define_string table (string_name s) s 0 in
    let (address, table'') = address_of table' (string_name s) in (address, table'', log)
source_of union table op = let (value, table') = target_of union table op in (value, table', [])

-- ADD, SUB, MUL and DIV, by the tag of the third operand.
unfoldable pub arithmetic_word : (Operand → ℕ) → InstructionType → ℕ → ℕ → Operand → ℕ
arithmetic_word union type reg1 reg2 (immediate n) = encode_arithmetic_immediate type reg1 reg2 n
arithmetic_word union type reg1 reg2 op = encode_arithmetic type reg1 reg2 (reg_of union op)

-- CMP, by the tag of the second operand.
unfoldable pub compare_word : (Operand → ℕ) → ℕ → Operand → ℕ
compare_word union reg (immediate n) = encode_jump InstructionType.cmp reg n
compare_word union reg op = encode_arithmetic InstructionType.cmp reg (reg_of union op) 0

-- The jumps and CALL.
unfoldable pub jump_word :
    (Operand → ℕ) → SymbolTable → InstructionType → Operand → ℕ × SymbolTable × List Message
jump_word union table type op =
    let (address, table') = target_of union table op in (encode_jump type 0 address, table', [])

unfoldable pub parser_encode_instruction :
    (Operand → ℕ) → SymbolTable → ParsedInstruction → ℕ × SymbolTable × List Message
parser_encode_instruction union table inst =
    let op0 : Operand = inst.operands 0 in
    let op1 : Operand = inst.operands 1 in
    let op2 : Operand = inst.operands 2 in
    let reg0 : ℕ = reg_of union op0 in
    let reg1 : ℕ = reg_of union op1 in
    let reg2 : ℕ = reg_of union op2 in
    let arithmetic : ℕ × SymbolTable × List Message =
      (arithmetic_word union inst.type reg0 reg1 op2, table, []) in
    let registers : ℕ × SymbolTable × List Message =
      (encode_arithmetic inst.type reg0 reg1 reg2, table, []) in
    let jump : ℕ × SymbolTable × List Message = jump_word union table inst.type op0 in
    let one_register : ℕ × SymbolTable × List Message =
      (encode_single_register inst.type reg0, table, []) in
    let single : ℕ × SymbolTable × List Message = (encode_single inst.type, table, []) in
    elim inst.type [
      | InstructionType.mov ↦
          let (source, table', log) = source_of union table op1 in
          (encode_mov reg0 source, table', log)
      | InstructionType.load ↦
          let (address, table') = target_of union table op1 in
          (encode_load reg0 address, table', [])
      | InstructionType.store ↦ (encode_store reg0 (value_of union op1), table, [])
      | InstructionType.load_indirect ↦ (encode_load_indirect reg0 reg1, table, [])
      | InstructionType.store_indirect ↦ (encode_store_indirect reg0 reg1, table, [])
      | InstructionType.load_indexed ↦ (encode_load_indexed reg0 reg1 reg2, table, [])
      | InstructionType.store_indexed ↦ (encode_store_indexed reg0 reg1 reg2, table, [])
      | InstructionType.add ↦ arithmetic
      | InstructionType.sub ↦ arithmetic
      | InstructionType.mul ↦ arithmetic
      | InstructionType.div ↦ arithmetic
      | InstructionType.jmp ↦ jump
      | InstructionType.jz ↦ jump
      | InstructionType.jnz ↦ jump
      | InstructionType.jl ↦ jump
      | InstructionType.jg ↦ jump
      | InstructionType.jle ↦ jump
      | InstructionType.jge ↦ jump
      | InstructionType.cmp ↦ (compare_word union reg0 op1, table, [])
      | InstructionType.sys ↦ (encode_sys reg0 (value_of union op1), table, [])
      | InstructionType.push ↦ one_register
      | InstructionType.pop ↦ one_register
      | InstructionType.and ↦ registers
      | InstructionType.or ↦ registers
      | InstructionType.xor ↦ registers
      | InstructionType.shl ↦ registers
      | InstructionType.shr ↦ registers
      | InstructionType.not ↦ (encode_arithmetic inst.type reg0 reg1 0, table, [])
      | InstructionType.call ↦ jump
      | InstructionType.inc ↦ one_register
      | InstructionType.dec ↦ one_register
      | InstructionType.ret ↦ single
      | InstructionType.halt ↦ single
      | InstructionType.nop ↦ single
      | _ ↦ (0, table, [])
    ]
