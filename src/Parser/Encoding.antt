-- ===== src/Parser/Encoding.antt =====
-- The word of a parsed instruction is the word of the statement that it spells.
use dez.Base.{ℕ, ◌≡◌, refl, ap, Option, none, some, [], Chars, inl, inr, arith}
use dez.Isa.Instruction.{InstructionType}
use dez.Isa.Statement.{
  Statement, ArithmeticOp, BitOp, Condition, arithmetic_type, bit_type, jump_type, encode,
}
use dez.Isa.Encode.{encode_mov, encode_load, encode_store, encode_sys, encode_jump}
use dez.Symbols.{SymbolTable, Symbol, symbol_table_find}
use dez.Symbols.{search}
use dez.Symbols.Find.{
  IsDistinct, SameSymbols, Option-cases, symbol_table_find_lem, symbol_table_find-SameSymbols,
}
use dez.Symbols.Define.{lookup, SameSymbols-refl}
use dez.Parser.Operands.{
  Operand, register, immediate, memory, memory_label, label, string, value_of, reg_of, address_of,
  target_of, source_of, arithmetic_word, compare_word, jump_word, parser_encode_instruction,
}
use dez.Parser.Spelling.{literal, resolve, spelled, Gives}

pub resolve-label :
    (table : SymbolTable) (name : Chars) (s : Symbol)
    → lookup table name ≡ some s
    → resolve table (label name) ≡ some s.address
unfolding resolve
resolve-label table name s h =
    ap (λ (o : Option Symbol). elim o as (λ _. Option ℕ) [ some s ↦ some s.address | none ↦ none ])
      h

value_of_lem :
    (union : Operand → ℕ) (op : Operand) (n : ℕ) → literal op ≡ some n → value_of union op ≡ n
unfolding value_of literal
value_of_lem union op n h = ground arith

pub address_of_lem :
    (table : SymbolTable) (name : Chars) (n : ℕ)
    → IsDistinct table
    → resolve table (label name) ≡ some n
    → ((address_of table name).0 ≡ n) × SameSymbols table (address_of table name).1
unfolding address_of resolve lookup
address_of_lem table name n distinct h =
    let same : SameSymbols table (symbol_table_find table name).1 =
      symbol_table_find-SameSymbols table name in
    elim (Option-cases (search table.symbols name table.count)) [
      | inl nothing ↦ ground arith
      | inr (i, hit) ↦ ground (arith, same, symbol_table_find_lem table name distinct)
    ]

literal_lem :
    (union : Operand → ℕ) (table : SymbolTable) (op : Operand) (n : ℕ)
    → literal op ≡ some n
    → ((target_of union table op).0 ≡ n) × SameSymbols table (target_of union table op).1
unfolding target_of value_of literal
literal_lem union table (immediate m) n h = (ground arith, SameSymbols-refl table)
literal_lem union table (memory m) n h = (ground arith, SameSymbols-refl table)
literal_lem union table (register r) n h = ground arith
literal_lem union table (label name) n h = ground arith
literal_lem union table (memory_label t) n h = ground arith
literal_lem union table (string t) n h = ground arith

target_of_lem :
    (union : Operand → ℕ) (table : SymbolTable) (op : Operand) (n : ℕ)
    → IsDistinct table
    → resolve table op ≡ some n
    → ((target_of union table op).0 ≡ n) × SameSymbols table (target_of union table op).1
unfolding target_of literal resolve
target_of_lem union table (label name) n distinct h = address_of_lem table name n distinct h
target_of_lem union table (register r) n distinct h = literal_lem union table (register r) n h
target_of_lem union table (immediate r) n distinct h = literal_lem union table (immediate r) n h
target_of_lem union table (memory r) n distinct h = literal_lem union table (memory r) n h
target_of_lem union table (memory_label r) n distinct h =
    literal_lem union table (memory_label r) n h
target_of_lem union table (string r) n distinct h = literal_lem union table (string r) n h

source_of_lem :
    (union : Operand → ℕ) (table : SymbolTable) (op : Operand) (n : ℕ)
    → IsDistinct table
    → resolve table op ≡ some n
    → ((source_of union table op).0 ≡ n)
      × SameSymbols table (source_of union table op).1
      × ((source_of union table op).2 ≡ [])
unfolding source_of literal resolve
source_of_lem union table (string t) n distinct h = ground arith
source_of_lem union table (label name) n distinct h =
    let there : _ = target_of_lem union table (label name) n distinct h in (there.0, there.1, refl)
source_of_lem union table (register r) n distinct h =
    let there : _ = target_of_lem union table (register r) n distinct h in (there.0, there.1, refl)
source_of_lem union table (immediate r) n distinct h =
    let there : _ = target_of_lem union table (immediate r) n distinct h in (there.0, there.1, refl)
source_of_lem union table (memory_label r) n distinct h =
    let there : _ = target_of_lem union table (memory_label r) n distinct h in
    (there.0, there.1, refl)
source_of_lem union table (memory r) n distinct h =
    let there : _ = target_of_lem union table (memory r) n distinct h in (there.0, there.1, refl)

-- A parsed instruction is encoded as the statement that it spells, its labels looked up, and the
-- symbols stay as they are.
pub parser_encode_instruction_lem :
    (union : Operand → ℕ) (table : SymbolTable) (op : Operand) (s : Statement)
    → IsDistinct table
    → Gives table op s
    → let (word, table', log) = parser_encode_instruction union table (spelled op s) in
      (word ≡ encode s) × SameSymbols table table' × (log ≡ [])
unfolding parser_encode_instruction spelled encode reg_of arithmetic_word compare_word jump_word
    arithmetic_type bit_type jump_type
parser_encode_instruction_lem union table op (Statement.move r n) distinct gives =
    let there : _ = source_of_lem union table op n distinct gives in
    (ap (encode_mov r) there.0, there.1, there.2)
parser_encode_instruction_lem union table op (Statement.load_from r a) distinct gives =
    let there : _ = target_of_lem union table op a distinct gives in
    (ap (encode_load r) there.0, there.1, refl)
parser_encode_instruction_lem union table op (Statement.store_to r a) distinct gives =
    (ap (encode_store r) (value_of_lem union op a gives), SameSymbols-refl table, refl)
parser_encode_instruction_lem union table op (Statement.system r n) distinct gives =
    (ap (encode_sys r) (value_of_lem union op n gives), SameSymbols-refl table, refl)
parser_encode_instruction_lem union table op (Statement.arithmetic ArithmeticOp.plus r1 r2 r3)
      distinct gives =
    (refl, SameSymbols-refl table, refl)
parser_encode_instruction_lem union table op (Statement.arithmetic ArithmeticOp.minus r1 r2 r3)
      distinct gives =
    (refl, SameSymbols-refl table, refl)
parser_encode_instruction_lem union table op (Statement.arithmetic ArithmeticOp.times r1 r2 r3)
      distinct gives =
    (refl, SameSymbols-refl table, refl)
parser_encode_instruction_lem union table op (Statement.arithmetic ArithmeticOp.over r1 r2 r3)
      distinct gives =
    (refl, SameSymbols-refl table, refl)
parser_encode_instruction_lem union table op (Statement.arithmetic_value ArithmeticOp.plus r1 r2 n)
      distinct gives =
    (refl, SameSymbols-refl table, refl)
parser_encode_instruction_lem union table op (Statement.arithmetic_value ArithmeticOp.minus r1 r2 n)
      distinct gives =
    (refl, SameSymbols-refl table, refl)
parser_encode_instruction_lem union table op (Statement.arithmetic_value ArithmeticOp.times r1 r2 n)
      distinct gives =
    (refl, SameSymbols-refl table, refl)
parser_encode_instruction_lem union table op (Statement.arithmetic_value ArithmeticOp.over r1 r2 n)
      distinct gives =
    (refl, SameSymbols-refl table, refl)
parser_encode_instruction_lem union table op (Statement.bits BitOp.both r1 r2 r3) distinct gives =
    (refl, SameSymbols-refl table, refl)
parser_encode_instruction_lem union table op (Statement.bits BitOp.either r1 r2 r3) distinct gives =
    (refl, SameSymbols-refl table, refl)
parser_encode_instruction_lem union table op (Statement.bits BitOp.differ r1 r2 r3) distinct gives =
    (refl, SameSymbols-refl table, refl)
parser_encode_instruction_lem union table op (Statement.bits BitOp.left r1 r2 r3) distinct gives =
    (refl, SameSymbols-refl table, refl)
parser_encode_instruction_lem union table op (Statement.bits BitOp.right r1 r2 r3) distinct gives =
    (refl, SameSymbols-refl table, refl)
parser_encode_instruction_lem union table op (Statement.jump Condition.always a) distinct gives =
    let there : _ = target_of_lem union table op a distinct gives in
    (ap (encode_jump (jump_type Condition.always) 0) there.0, there.1, refl)
parser_encode_instruction_lem union table op (Statement.jump Condition.if_zero a) distinct gives =
    let there : _ = target_of_lem union table op a distinct gives in
    (ap (encode_jump (jump_type Condition.if_zero) 0) there.0, there.1, refl)
parser_encode_instruction_lem union table op (Statement.jump Condition.if_not_zero a) distinct
      gives =
    let there : _ = target_of_lem union table op a distinct gives in
    (ap (encode_jump (jump_type Condition.if_not_zero) 0) there.0, there.1, refl)
parser_encode_instruction_lem union table op (Statement.jump Condition.if_less a) distinct gives =
    let there : _ = target_of_lem union table op a distinct gives in
    (ap (encode_jump (jump_type Condition.if_less) 0) there.0, there.1, refl)
parser_encode_instruction_lem union table op (Statement.jump Condition.if_greater a) distinct
      gives =
    let there : _ = target_of_lem union table op a distinct gives in
    (ap (encode_jump (jump_type Condition.if_greater) 0) there.0, there.1, refl)
parser_encode_instruction_lem union table op (Statement.jump Condition.if_less_equal a) distinct
      gives =
    let there : _ = target_of_lem union table op a distinct gives in
    (ap (encode_jump (jump_type Condition.if_less_equal) 0) there.0, there.1, refl)
parser_encode_instruction_lem union table op (Statement.jump Condition.if_greater_equal a) distinct
      gives =
    let there : _ = target_of_lem union table op a distinct gives in
    (ap (encode_jump (jump_type Condition.if_greater_equal) 0) there.0, there.1, refl)
parser_encode_instruction_lem union table op (Statement.call_to a) distinct gives =
    let there : _ = target_of_lem union table op a distinct gives in
    (ap (encode_jump InstructionType.call 0) there.0, there.1, refl)
parser_encode_instruction_lem union table op _ distinct gives = (refl, SameSymbols-refl table, refl)
