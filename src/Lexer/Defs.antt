-- ===== src/Lexer/Defs.antt =====
-- src/assembler/dez_lexer.c: the character classes, the whitespace and comment loops, and the names
-- of registers. The input is what is left of it behind the position, without the final zero.
use dez.Base.{
  ℕ, suc, zero, ◌+◌, ◌-◌, Bool, false, ◌&&◌, ◌||◌, not, [], ◌∷◌, leb, ◌==◌, if◌then◌else◌, Chars,
  length, u8,
}

-- `alpha_table`: the letters and the underscore.
unfoldable pub alpha_table : ℕ → Bool
alpha_table c = (leb 65 c && leb c 90) || (c == 95 || (leb 97 c && leb c 122))

unfoldable pub lexer_is_alpha : ℕ → Bool
lexer_is_alpha c = alpha_table c

unfoldable pub lexer_is_digit : ℕ → Bool
lexer_is_digit c = leb 48 c && leb c 57

unfoldable pub lexer_is_alnum : ℕ → Bool
unfolding lexer_is_alpha lexer_is_digit
lexer_is_alnum c = lexer_is_alpha c || lexer_is_digit c

unfoldable pub lexer_is_whitespace : ℕ → Bool
lexer_is_whitespace c = c == 32 || (c == 9 || c == 13)

-- What is left of the input, and the column there.
unfoldable pub lexer_skip_comment : Chars → ℕ → Chars × ℕ
lexer_skip_comment [] column = ([], column)
lexer_skip_comment (c ∷ input) column =
    let rest : Chars × ℕ = lexer_skip_comment input (column + 1) in
    if c == 10 then (c ∷ input, column) else rest

-- The loop of `lexer_skip_whitespace`; `fuel` bounds its rounds.
unfoldable pub skip_rounds : ℕ → Chars → ℕ → Chars × ℕ
skip_rounds zero input column = (input, column)
skip_rounds (suc fuel) [] column = ([], column)
skip_rounds (suc fuel) (c ∷ input) column =
    let over_space : Chars × ℕ = skip_rounds fuel input (column + 1) in
    let comment : Chars × ℕ = lexer_skip_comment (c ∷ input) column in
    let over_comment : Chars × ℕ = skip_rounds fuel comment.0 comment.1 in
    if lexer_is_whitespace c
    then over_space
    else if c == 59
    then over_comment
    else (c ∷ input, column)

-- Each round but the last leaves less of the input.
unfoldable pub lexer_skip_whitespace : Chars → ℕ → Chars × ℕ
lexer_skip_whitespace input column = skip_rounds (suc (length input)) input column

unfoldable pub is_register_token : Chars → Bool
is_register_token (r ∷ d ∷ []) = r == 82 && (leb 48 d && leb d 57)
is_register_token (r ∷ d ∷ e ∷ []) = r == 82 && (d == 49 && (leb 48 e && leb e 53))
is_register_token _ = false

-- `register_name_to_number` behind its test.
unfoldable pub number_of : Chars → ℕ
number_of (r ∷ d ∷ []) = u8 (d - 48)
number_of (r ∷ d ∷ e ∷ _) = u8 (10 + (e - 48))
number_of _ = 0

unfoldable pub register_name_to_number : Chars → ℕ
register_name_to_number name = if not (is_register_token name) then 0 else number_of name
