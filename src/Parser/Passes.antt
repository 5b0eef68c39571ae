-- ===== src/Parser/Passes.antt =====
-- src/assembler/dez_parser.c: `parser_parse`, the two passes over the input.
use dez.Base.{◌==◌, ℕ, zero, suc, Bool, true, false, not, Option, none, some, ◌++◌, Chars, length}
use dez.Lexer.{TokenType, lexer_init}
use dez.Parser.Operands.{Operand}
use dez.Parser.State.{Parser, parser_current_token, type_code}
use dez.Parser.Lines.{parser_parse_line_with_labels}

-- The loop of a pass over at most `fuel` lines; `none` when they are not enough, or when
-- the loop within a line has not ended.
unfoldable pub parse_lines : (Operand → ℕ) → (ℕ → Operand) → ℕ → Parser → Option Parser
parse_lines union unset zero parser = none
parse_lines union unset (suc fuel) parser =
    let (token, parser1) = parser_current_token parser in
    elim parser.error [
      | true ↦ some parser
      | false ↦ elim (type_code token.type == type_code TokenType.eof) [
        | true ↦ some parser1
        | false ↦ elim (parser_parse_line_with_labels union unset parser1) [
          | none ↦ none
          | some (more, parser2) ↦ elim more [
            | true ↦ parse_lines union unset fuel parser2
            | false ↦ some parser2
          ]
        ]
      ]
    ]

-- `parser->lexer.input`
unfoldable pub input_of : Parser → Chars
input_of parser = parser.lexer.passed ++ parser.lexer.rest

-- The parser at the start of a pass.
unfoldable pub first_pass : Parser → Parser
first_pass parser = record parser {
  pass = 1;
  symbol_table = record (parser.symbol_table) { pass = 1 };
}

unfoldable pub second_pass : Parser → Parser
second_pass parser = record parser {
  pass = 2;
  symbol_table = record (parser.symbol_table) { pass = 2 };
  current_address = 0;
  output_size = 0;
  lexer = lexer_init (input_of parser);
}

-- A pass has at most one round for each character of the input, and one more that ends it.
unfoldable pub run_pass : (Operand → ℕ) → (ℕ → Operand) → Parser → Option Parser
run_pass union unset parser = parse_lines union unset (suc (suc (length parser.lexer.rest))) parser

-- `return !parser->error;`
unfoldable pub verdict : Option Parser → Option (Bool × Parser)
verdict none = none
verdict (some parser) = some (not parser.error, parser)

-- The second pass, when the first has ended without an error.
unfoldable pub parse_again : (Operand → ℕ) → (ℕ → Operand) → Option Parser → Option (Bool × Parser)
parse_again union unset none = none
parse_again union unset (some parser) = elim parser.error [
  | true ↦ some (false, parser)
  | false ↦ verdict (run_pass union unset (second_pass parser))
]

unfoldable pub parser_parse : (Operand → ℕ) → (ℕ → Operand) → Parser → Option (Bool × Parser)
parser_parse union unset parser = parse_again union unset (run_pass union unset (first_pass parser))
