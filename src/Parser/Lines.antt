-- ===== src/Parser/Lines.antt =====
-- src/assembler/dez_parser.c: lines, constants and labels, and the two passes of `parser_parse`.
use dez.Base.{
  ℕ, zero, suc, ◌+◌, Bool, true, false, not, ◌&&◌, ◌||◌, Option, none, some, List, [], ◌∷◌, ◌++◌,
  ltb, ◌==◌, if◌then◌else◌, Chars, codes, length, same_chars, assign, add32,
}
use dez.Lexer.{TokenType, Token, Lexer}
use dez.Symbols.{Message, symbol_table_define, symbol_table_define_constant}
use dez.Parser.Operands.{Operand, ParsedInstruction, parser_encode_instruction}
use dez.Parser.State.{
  Report, from_table, Parser, parser_current_token, parser_peek_token, parser_advance,
  parser_consume_token, parser_error, parser_expected, type_code,
}
use dez.Parser.Statements.{parser_parse_instruction}

-- What the symbol table prints.
unfoldable pub table_reports : List Message → List Report
table_reports [] = []
table_reports (message ∷ log) = from_table message ∷ table_reports log

-- `input` from the position to the end of the line or to a comment: the loop of `line_end`.
unfoldable pub up_to_line_end : Chars → Chars
up_to_line_end [] = []
up_to_line_end (c ∷ input) =
    let rest : Chars = up_to_line_end input in if c == b'\n' || c == b';' then [] else c ∷ rest

-- The last character so far that is no space or tab, in the last line so far.
unfoldable pub solid_with : Option ℕ → ℕ → Option ℕ
solid_with last c = if c == b'\n' then none else if c == b' ' || c == b'\t' then last else some c

-- The last character of a text's last line that is no space or tab: where the loop of `colon_pos`
-- stops when it starts at the end of the text.
unfoldable pub last_solid : Option ℕ → Chars → Option ℕ
last_solid last [] = last
last_solid last (c ∷ text) = last_solid (solid_with last c) text

unfoldable pub is_colon : Option ℕ → Bool
is_colon none = false
is_colon (some c) = c == b':'

-- The line around the position ends in ':', spaces and a comment aside.
unfoldable pub line_ends_with_colon : Lexer → Bool
line_ends_with_colon lexer = is_colon (last_solid none (lexer.passed ++ up_to_line_end lexer.rest))

-- `symbol_table_define(…, parser->current_address, line)`
unfoldable pub define_label : Chars → ℕ → Parser → Parser
define_label name line parser =
    let (added, table, log) =
      symbol_table_define parser.symbol_table name parser.current_address line in
    record parser { symbol_table = table; printed = parser.printed ++ table_reports log }

unfoldable pub define_constant : Chars → ℕ → ℕ → Parser → Parser
define_constant name value line parser =
    let (added, table, log) = symbol_table_define_constant parser.symbol_table name value line in
    record parser { symbol_table = table; printed = parser.printed ++ table_reports log }

unfoldable pub ends_line : TokenType → Bool
ends_line TokenType.newline = true
ends_line TokenType.eof = true
ends_line _ = false

-- The loop that skips the rest of a line, of at most `fuel` tokens; `none` when they are not enough.
unfoldable pub skip_line : ℕ → Parser → Option Parser
skip_line zero parser = none
skip_line (suc fuel) parser =
    let (token, parser') = parser_current_token parser in
    elim (ends_line token.type) [
      | true ↦ some parser'
      | false ↦ skip_line fuel (parser_advance parser')
    ]

-- `return true;` behind the loop.
unfoldable pub line_skipped : Option Parser → Option (Bool × Parser)
line_skipped none = none
line_skipped (some parser) = some (true, parser)

-- Each token of the line but the last has a character.
unfoldable pub label_line : Token → Parser → Option (Bool × Parser)
label_line token parser =
    let defined : Parser =
      if parser.pass == 1 then define_label token.value token.line parser else parser in
    line_skipped (skip_line (suc (suc (length defined.lexer.rest))) defined)

unfoldable pub parser_parse_label : Parser → Bool × Parser
parser_parse_label parser =
    let (name_token, parser1) = parser_current_token parser in
    let (colon, parser2) = parser_consume_token TokenType.colon (parser_advance parser1) in
    if not colon
    then (false, parser2)
    else if parser2.pass == 1
    then (true, define_label name_token.value name_token.line parser2)
    else (true, parser2)

-- Behind the word EQU, where the value stands.
unfoldable pub constant_value : Token → Parser → Bool × Parser
constant_value name_token parser =
    let (value_token, parser1) = parser_current_token parser in
    let parser2 : Parser = parser_advance parser1 in
    if not (type_code value_token.type == type_code TokenType.number)
    then (false, parser_expected (codes "number") parser1)
    else if parser2.pass == 1
    then (true, define_constant name_token.value value_token.num_value name_token.line parser2)
    else (true, parser2)

unfoldable pub parser_parse_constant : Parser → Bool × Parser
parser_parse_constant parser =
    let (name_token, parser1) = parser_current_token parser in
    let (word, parser2) = parser_consume_token TokenType.identifier (parser_advance parser1) in
    let (token, parser3) = parser_current_token parser2 in
    if not word
    then (false, parser_expected (codes "EQU") parser2)
    else if not (same_chars token.value (codes "EQU"))
    then (false, parser_expected (codes "EQU") parser3)
    else constant_value name_token (parser_advance parser3)

-- The code of an instruction, in the second pass.
unfoldable pub emit : (Operand → ℕ) → ParsedInstruction → Parser → Bool × Parser
emit union inst parser =
    let (encoded, table, log) = parser_encode_instruction union parser.symbol_table inst in
    let parser' : Parser = record parser {
      symbol_table = table;
      printed = parser.printed ++ table_reports log;
    } in
    if ltb parser'.output_size parser'.output_capacity
    then (
      true,
      record parser' {
        output = assign parser'.output parser'.output_size encoded;
        output_size = parser'.output_size + 1;
        current_address = add32 parser'.current_address 1;
      },
    )
    else (false, parser_error (codes "Output buffer overflow") parser')

-- What is done with a parsed instruction.
unfoldable pub finish : (Operand → ℕ) → Option ParsedInstruction → Parser → Bool × Parser
finish union none parser = (false, parser)
finish union (some inst) parser =
    if parser.pass == 2
    then emit union inst parser
    else (true, record parser { current_address = add32 parser.current_address 1 })

-- The end of `parser_parse_line_with_labels` and of `parser_parse_line`, from "Parse instruction" on.
unfoldable pub instruction_line : (Operand → ℕ) → (ℕ → Operand) → Parser → Bool × Parser
instruction_line union unset parser =
    let (parsed, parser') = parser_parse_instruction unset parser in finish union parsed parser'

-- The same from "Parse constant definition" on, where `token` is a word.
unfoldable pub constant_or_instruction : (Operand → ℕ) → (ℕ → Operand) → Parser → Bool × Parser
constant_or_instruction union unset parser =
    let (next, parser') = parser_peek_token parser in
    if type_code next.type == type_code TokenType.identifier && same_chars next.value (codes "EQU")
    then parser_parse_constant parser'
    else instruction_line union unset parser'

-- `parser_parse_line_with_labels` by its first token; `none` when the loop of a label's line has not ended.
unfoldable pub labelled_line :
    (Operand → ℕ) → (ℕ → Operand) → TokenType → Token → Parser → Option (Bool × Parser)
labelled_line union unset TokenType.newline token parser = some (true, parser_advance parser)
labelled_line union unset TokenType.comment token parser = some (true, parser_advance parser)
labelled_line union unset TokenType.identifier token parser =
    if line_ends_with_colon parser.lexer
    then label_line token parser
    else some (constant_or_instruction union unset parser)
labelled_line union unset _ token parser = some (instruction_line union unset parser)

unfoldable pub parser_parse_line_with_labels :
    (Operand → ℕ) → (ℕ → Operand) → Parser → Option (Bool × Parser)
parser_parse_line_with_labels union unset parser =
    let (token, parser') = parser_current_token parser in
    labelled_line union unset token.type token parser'

-- `parser_parse_line` by its first token.
unfoldable pub plain_line :
    (Operand → ℕ) → (ℕ → Operand) → TokenType → Token → Parser → Bool × Parser
plain_line union unset TokenType.newline token parser = (true, parser_advance parser)
plain_line union unset TokenType.comment token parser = (true, parser_advance parser)
plain_line union unset TokenType.identifier token parser =
    constant_or_instruction union unset parser
plain_line union unset _ token parser = instruction_line union unset parser

unfoldable pub parser_parse_line : (Operand → ℕ) → (ℕ → Operand) → Parser → Bool × Parser
parser_parse_line union unset parser =
    let (token, parser') = parser_current_token parser in
    plain_line union unset token.type token parser'
