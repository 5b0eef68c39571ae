-- ===== src/Parser/Tests.antt =====
-- The back end of the parser on a table with one label.
use dez.Base.{
  ℕ, zero, suc, ◌+◌, ◌++◌, codes, ◌≡◌, refl, none, some, [], ◌∷◌, Chars, length, take, add32, u8,
  ◌>>◌, arith,
}
use dez.Isa.Statement.{Statement, Condition, encode}
use dez.Symbols.{
  SymbolTable, symbol_label, symbol_string, new_symbol, symbol_table_init, symbol_table_add,
  symbol_table_find, symbol_hash, hash_from, search, search_and_cache, symbol_table_get_string,
}
use dez.Base.{same_chars}
use dez.Symbols.Find.{IsDistinct, SameSymbols}
use dez.Symbols.Define.{lookup, symbol_table_add-IsDistinct}
use dez.Vm.State.{Vm}
use dez.Vm.Sample.{machine}
use dez.Vm.Table.{get_instruction_info}
use dez.Vm.Meaning.{meaning}
use dez.Parser.Operands.{Operand, label, string, parser_encode_instruction, source_of, string_name}
use dez.Parser.Spelling.{resolve, spelled}
use dez.Parser.Encoding.{parser_encode_instruction_lem}
use dez.Isa.Instruction.{InstructionType}
use dez.Isa.Statement.{jump_type}
use dez.Lexer.{lexer_is_alpha, lexer_is_alnum, lexer_is_digit, alpha_table}
use dez.Parser.Operands.{ParsedInstruction}
use dez.Parser.State.{Parser, parser_init}
use dez.Parser.Statements.{parser_parse_instruction}
use dez.Parser.Source.{count_of, statement_text}
use dez.Parser.StatementText.{AllWritable}
use dez.Parser.Reads.{at}
use dez.Parser.Sample.{unset, loop-IsWritable}
use dez.Parser.Executed.{as_run, execute-parser_parse_instruction}
use dez.Parser.Literals.{source_of-new, source_of-known}

abbrev loop : Chars
loop = 108 ∷ 111 ∷ 111 ∷ 112 ∷ []

abbrev no_union : Operand → ℕ
no_union op = 0

empty-IsDistinct : IsDistinct symbol_table_init
unfolding symbol_table_init
empty-IsDistinct i j hi hj e = absurd (omega arith)

-- "loop" at address 5.
abbrev labels : SymbolTable
labels = (symbol_table_add symbol_table_init loop symbol_label 5 0 none 1).1

labels-IsDistinct : IsDistinct labels
unfolding length
labels-IsDistinct =
    symbol_table_add-IsDistinct symbol_table_init loop symbol_label 5 0 none 1 (omega arith)
      empty-IsDistinct

loop_at_5 : resolve labels (label loop) ≡ some 5
unfolding resolve lookup search symbol_table_add symbol_table_init symbol_table_find
    search_and_cache symbol_hash hash_from new_symbol same_chars take
loop_at_5 = refl

-- JZ loop
parser_encode_instruction_lem_example :
    let (word, table', log) =
      parser_encode_instruction no_union labels
        (spelled (label loop) (Statement.jump Condition.if_zero 5)) in
    (word ≡ encode (Statement.jump Condition.if_zero 5)) × SameSymbols labels table' × (log ≡ [])
parser_encode_instruction_lem_example =
    parser_encode_instruction_lem no_union labels (label loop) (Statement.jump Condition.if_zero 5)
      labels-IsDistinct loop_at_5

abbrev idle : Vm
idle = machine (λ a. 0) (λ r. 0) 0

jump_if_zero :
    AllWritable
      (spelled (label loop) (Statement.jump Condition.if_zero 5)).type
      (spelled (label loop) (Statement.jump Condition.if_zero 5)).operands
unfolding spelled jump_type count_of
jump_if_zero zero h = loop-IsWritable
jump_if_zero (suc j) h = absurd (omega arith)

-- "JZ loop" in front of a new line.
execute-parser_parse_instruction_example :
    let over : Chars = statement_text InstructionType.jz (λ i. label loop) in
    let parser : Parser = parser_init [] labels (λ i. 0) 16 in
    (inst : ParsedInstruction) × (line' : ℕ) × (column' : ℕ) × (parser_parse_instruction unset
        (at parser [] (over ++ codes "\n") 1 1)
      ≡ (some inst, at parser ([] ++ over) (codes "\n") line' column'))
    × (let word : ℕ = (parser_encode_instruction no_union labels inst).0 in
        (get_instruction_info (u8 (word >> 24))).execute word idle
        ≡ meaning (Statement.jump Condition.if_zero 5) idle)
unfolding lexer_is_alnum lexer_is_alpha alpha_table lexer_is_digit spelled jump_type as_run
    parser_init symbol_table_add statement_text dez.Parser.Source.operands_text
    dez.Parser.Source.operand_text count_of
execute-parser_parse_instruction_example =
    execute-parser_parse_instruction no_union unset (parser_init [] labels (λ i. 0) 16) []
      (codes "\n") 1 1 (label loop) (Statement.jump Condition.if_zero 5) idle jump_if_zero refl
      labels-IsDistinct loop_at_5 (omega arith)

-- MOV R0, "loop"
source_of-new_example :
    ((source_of no_union symbol_table_init (string loop)).0 ≡ symbol_table_init.next_string_addr)
    × (symbol_table_get_string
          (source_of no_union symbol_table_init (string loop)).1
          (source_of no_union symbol_table_init (string loop)).0
        ≡ some loop)
    × ((source_of no_union symbol_table_init (string loop)).2 ≡ [])
unfolding symbol_table_init length lookup search
source_of-new_example =
    source_of-new no_union symbol_table_init loop empty-IsDistinct (λ i h s. absurd (omega arith))
      (omega arith) (omega arith) refl (omega arith)

-- The same literal, when its symbol stands in the table.
abbrev literals : SymbolTable
literals =
    (symbol_table_add symbol_table_init (string_name loop) symbol_string 0x100 0 (some loop) 0).1

literals-IsDistinct : IsDistinct literals
unfolding length string_name take
literals-IsDistinct =
    symbol_table_add-IsDistinct symbol_table_init (string_name loop) symbol_string 0x100 0
      (some loop) 0 (omega arith) empty-IsDistinct

source_of-known_example :
    ((source_of no_union literals (string loop)).0 ≡ 0x100)
    × (length (source_of no_union literals (string loop)).2 ≡ 1)
    × ((source_of no_union literals (string loop)).1.next_string_addr
        ≡ add32 literals.next_string_addr (length loop + 1))
unfolding lookup search symbol_table_add symbol_table_init symbol_table_find search_and_cache
    symbol_hash hash_from new_symbol same_chars take string_name
source_of-known_example =
    source_of-known no_union literals loop
      (new_symbol (string_name loop) symbol_string 0x100 0 (some loop) 0) literals-IsDistinct refl
