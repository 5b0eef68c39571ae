-- ===== src/Lexer/Tests.antt =====
-- Tokens at the start of a line.
use dez.Base.{[], ◌∷◌, Chars, ◌≡◌, refl, none, codes, arith}
use dez.Lexer.Defs.{lexer_skip_whitespace}
use dez.Lexer.Tokens.{TokenType, Lexer}
use dez.Lexer.Scan.{
  scan, skipped, move_to, number_token, prefixed_number, word_token, string_token, lexer_next_token,
}
use dez.Lexer.Progress.{lexer_next_token-Consumed}
use dez.Lexer.Consumed.{Consumed}
use dez.Lexer.Reads.{IsRead}
use dez.Lexer.Decimal.{decimal, lexer_next_token-decimal}

-- A lexer in its first line, in front of `rest`.
abbrev in_front : Chars → Lexer
in_front rest = record { passed = []; rest = rest; line = 1; column = 1; current_token = none }

hex_number : (lexer_next_token (in_front (codes "  0x1F\n"))).0.num_value ≡ 31
unfolding lexer_next_token skipped scan number_token prefixed_number move_to lexer_skip_whitespace
    dez.Lexer.Defs.skip_rounds dez.Lexer.Defs.lexer_is_whitespace dez.Base.length
    dez.Lexer.Defs.lexer_is_digit dez.Lexer.Scan.starts dez.Lexer.Scan.strtoul
    dez.Lexer.Scan.digits_from dez.Lexer.Scan.copy_while dez.Lexer.Scan.is_hex_digit
    dez.Lexer.Scan.digit_worth
hex_number = refl

after_word : (lexer_next_token (in_front (codes "MOV R1, 5"))).1.rest ≡ codes " R1, 5"
unfolding lexer_next_token skipped scan word_token move_to lexer_skip_whitespace
    dez.Lexer.Defs.skip_rounds dez.Lexer.Defs.lexer_is_whitespace dez.Lexer.Defs.lexer_is_digit
    dez.Lexer.Defs.lexer_is_alpha dez.Lexer.Defs.alpha_table dez.Lexer.Scan.copy_while
    dez.Lexer.Defs.lexer_is_alnum
after_word = refl

unterminated : (lexer_next_token (in_front (codes "\"ab"))).0.type ≡ TokenType.unknown
unfolding lexer_next_token skipped scan string_token move_to lexer_skip_whitespace
    dez.Lexer.Defs.skip_rounds dez.Lexer.Defs.lexer_is_whitespace dez.Lexer.Scan.starts
    dez.Lexer.Scan.copy_while
unterminated = refl

lexer_next_token-Consumed_example :
    Consumed (in_front (codes " ; x\nR1")) (lexer_next_token (in_front (codes " ; x\nR1")))
lexer_next_token-Consumed_example = lexer_next_token-Consumed (in_front (codes " ; x\nR1")) refl

-- "1024" between a space and a comma.
lexer_next_token-decimal_example :
    IsRead
      (λ input. lexer_next_token)
      TokenType.number
      (decimal 1024)
      1024
      (decimal 1024)
      (codes " ")
      (codes ", R1")
      1
      2
unfolding dez.Lexer.Defs.lexer_is_alnum dez.Lexer.Defs.lexer_is_alpha dez.Lexer.Defs.lexer_is_digit
    dez.Lexer.Defs.alpha_table
lexer_next_token-decimal_example =
    lexer_next_token-decimal 1024 (codes " ") (codes ", R1") 1 2 (omega arith) refl
