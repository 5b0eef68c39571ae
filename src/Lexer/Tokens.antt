-- ===== src/Lexer/Tokens.antt =====
-- src/assembler/dez_lexer.h: tokens and the state of the lexer; and src/assembler/dez_lexer.c: the
-- names of the types of tokens, and `lexer_init`.
use dez.Base.{ℕ, Option, none, [], Chars, codes}

-- `token_type_t`
pub data TokenType : Type 0 where
  eof newline identifier number string register comma colon hash lbracket rbracket comment unknown :
      TokenType

unfoldable pub token_type_to_string : TokenType → Chars
token_type_to_string TokenType.eof = codes "EOF"
token_type_to_string TokenType.newline = codes "NEWLINE"
token_type_to_string TokenType.identifier = codes "IDENTIFIER"
token_type_to_string TokenType.number = codes "NUMBER"
token_type_to_string TokenType.string = codes "STRING"
token_type_to_string TokenType.register = codes "REGISTER"
token_type_to_string TokenType.comma = codes "COMMA"
token_type_to_string TokenType.colon = codes "COLON"
token_type_to_string TokenType.hash = codes "HASH"
token_type_to_string TokenType.lbracket = codes "LBRACKET"
token_type_to_string TokenType.rbracket = codes "RBRACKET"
token_type_to_string TokenType.comment = codes "COMMENT"
token_type_to_string TokenType.unknown = codes "UNKNOWN"

-- `token_t`
pub record Token : Type 0 where
  pub type : TokenType
  pub value : Chars
  pub num_value : ℕ
  pub line : ℕ
  pub column : ℕ

-- `lexer_t`: `input` is `passed` and then `rest`, and `position` is the length of `passed`;
-- `current_token` is `none` while `has_token` is false.
pub record Lexer : Type 0 where
  pub passed : Chars
  pub rest : Chars
  pub line : ℕ
  pub column : ℕ
  pub current_token : Option Token

unfoldable pub lexer_init : Chars → Lexer
lexer_init input = record { passed = []; rest = input; line = 1; column = 1; current_token = none }
