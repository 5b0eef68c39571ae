-- ===== src/Parser/State.antt =====
-- src/assembler/dez_parser.h and dez_parser.c: the state of the parser, `parser_init`, the token
-- helpers and the error messages.
use dez.Base.{ℕ, Bool, true, false, List, [], ◌∷◌, ◌++◌, ◌==◌, if◌then◌else◌, Chars}
use dez.Lexer.{
  TokenType, Token, Lexer, token_type_to_string, lexer_init, lexer_next_token, lexer_peek_token,
}
use dez.Symbols.{SymbolTable, Message}

-- What is printed: `parser_error` and `parser_expected`, with line and column, and the messages of the
-- symbol table.
pub data Report : Type 0 where
  error_at : ℕ → ℕ → Chars → Report
  expected_at : ℕ → ℕ → Chars → Chars → Report
  from_table : Message → Report

-- `parser_t`, and what has been printed so far.
pub record Parser : Type 0 where
  pub lexer : Lexer
  pub symbol_table : SymbolTable
  pub output : ℕ → ℕ
  pub output_size : ℕ
  pub output_capacity : ℕ
  pub current_address : ℕ
  pub pass : ℕ
  pub error : Bool
  pub printed : List Report

unfoldable pub parser_init : Chars → SymbolTable → (ℕ → ℕ) → ℕ → Parser
parser_init input symbol_table output capacity = record {
  lexer = lexer_init input;
  symbol_table = symbol_table;
  output = output;
  output_size = 0;
  output_capacity = capacity;
  current_address = 0;
  pass = 1;
  error = false;
  printed = [];
}

unfoldable pub parser_current_token : Parser → Token × Parser
parser_current_token parser =
    let (token, lexer) = lexer_peek_token parser.lexer in (token, record parser { lexer = lexer })

unfoldable pub parser_peek_token : Parser → Token × Parser
parser_peek_token parser =
    let (token, lexer) = lexer_peek_token parser.lexer in (token, record parser { lexer = lexer })

unfoldable pub parser_advance : Parser → Parser
parser_advance parser = record parser { lexer = (lexer_next_token parser.lexer).1 }

-- The values of the enumeration.
unfoldable pub type_code : TokenType → ℕ
type_code TokenType.eof = 0
type_code TokenType.newline = 1
type_code TokenType.identifier = 2
type_code TokenType.number = 3
type_code TokenType.string = 4
type_code TokenType.register = 5
type_code TokenType.comma = 6
type_code TokenType.colon = 7
type_code TokenType.hash = 8
type_code TokenType.lbracket = 9
type_code TokenType.rbracket = 10
type_code TokenType.comment = 11
type_code TokenType.unknown = 12

unfoldable pub parser_expect_token : TokenType → Parser → Bool × Parser
parser_expect_token expected parser =
    let (token, parser') = parser_current_token parser in
    (type_code token.type == type_code expected, parser')

unfoldable pub parser_consume_token : TokenType → Parser → Bool × Parser
parser_consume_token expected parser =
    let (found, parser') = parser_expect_token expected parser in
    if found then (true, parser_advance parser') else (false, parser')

unfoldable pub parser_error : Chars → Parser → Parser
parser_error message parser =
    let (token, parser') = parser_current_token parser in
    record parser' {
      error = true;
      printed = parser'.printed ++ error_at token.line token.column message ∷ [];
    }

unfoldable pub parser_expected : Chars → Parser → Parser
parser_expected expected parser =
    let (token, parser') = parser_current_token parser in
    let got : Chars = token_type_to_string token.type in
    record parser' {
      error = true;
      printed = parser'.printed ++ expected_at token.line token.column expected got ∷ [];
    }
