-- ===== src/Lexer/Scan.antt =====
-- src/assembler/dez_lexer.c: `lexer_next_token` and `lexer_peek_token`.
use dez.Base.{
  ℕ, zero, suc, ◌+◌, ◌-◌, ◌*◌, ◌^◌, min, Bool, true, false, not, ◌&&◌, ◌||◌, none, some, [], ◌∷◌,
  ◌++◌, leb, ◌==◌, if◌then◌else◌, u32, Chars, length, take,
}
use dez.Lexer.Defs.{
  lexer_is_digit, lexer_is_alpha, lexer_is_alnum, lexer_skip_whitespace, is_register_token,
}
use dez.Lexer.Tokens.{TokenType, Token, Lexer}

-- The loops that copy characters into a token: while `test` holds and there is room in the buffer.
-- What is copied, and what is left of the input.
unfoldable pub copy_while : (ℕ → Bool) → ℕ → Chars → Chars × Chars
copy_while test zero input = ([], input)
copy_while test (suc room) [] = ([], [])
copy_while test (suc room) (c ∷ input) = elim (test c) [
  | true ↦ let (copied, left) = copy_while test room input in (c ∷ copied, left)
  | false ↦ ([], c ∷ input)
]

unfoldable pub is_hex_digit : ℕ → Bool
is_hex_digit c =
    (leb b'0' c && leb c b'9') || ((leb b'A' c && leb c b'F') || (leb b'a' c && leb c b'f'))

unfoldable pub is_binary_digit : ℕ → Bool
is_binary_digit c = c == b'0' || c == b'1'

-- The worth of a digit to `strtoul`.
unfoldable pub digit_worth : ℕ → ℕ
digit_worth c = if leb c b'9' then c - b'0' else if leb c b'F' then c - 55 else c - 87

unfoldable pub digits_from : ℕ → ℕ → Chars → ℕ
digits_from base n [] = n
digits_from base n (c ∷ digits) = digits_from base (n * base + digit_worth c) digits

-- `strtoul` on digits of the base: the largest `unsigned long`, of 64 bits, when the number is larger.
unfoldable pub strtoul : Chars → ℕ → ℕ
strtoul digits base = min (digits_from base 0 digits) (2 ^ 64 - 1)

-- `input[0] == c`, which is false at the end of the input.
unfoldable pub starts : ℕ → Chars → Bool
starts c [] = false
starts c (d ∷ input) = d == c

-- The input one character on.
abbrev pub tail : Chars → Chars
tail [] = []
tail (c ∷ input) = input

-- The position moved on to where `left` is what is left, in the same line.
unfoldable pub move_to : Chars → ℕ → Lexer → Lexer
move_to left column lexer = record lexer {
  passed = lexer.passed ++ take (length lexer.rest - length left) lexer.rest;
  rest = left;
  column = column;
}

-- A token where the lexer stands.
abbrev pub token_at : Lexer → TokenType → Chars → ℕ → Token
token_at lexer type value num_value = record {
  type = type;
  value = value;
  num_value = num_value;
  line = lexer.line;
  column = lexer.column;
}

-- A token of one character that stays in its line.
unfoldable pub single : TokenType → ℕ → Chars → Lexer → Token × Lexer
single type c left lexer = (token_at lexer type (c ∷ []) 0, move_to left (lexer.column + 1) lexer)

-- The branch of '\n'.
unfoldable pub newline_token : ℕ → Chars → Lexer → Token × Lexer
newline_token c left lexer = (
  token_at lexer TokenType.newline (c ∷ []) 0,
  record (move_to left 1 lexer) { line = lexer.line + 1 },
)

-- The branch of ';', with the loop to the end of the line.
unfoldable pub comment_token : ℕ → Chars → Lexer → Token × Lexer
comment_token c input lexer =
    let (copied, left) = copy_while (λ d. not (d == b'\n')) (length input) input in
    (
      token_at lexer TokenType.comment (c ∷ []) 0,
      move_to left (lexer.column + 1 + length copied) lexer,
    )

-- The branch of '"'; `input` is what is left behind it.
unfoldable pub string_token : Chars → Lexer → Token × Lexer
string_token input lexer =
    let (copied, left) = copy_while (λ c. not (c == b'"')) 255 input in
    let column : ℕ = lexer.column + 1 + length copied in
    if starts b'"' left
    then (token_at lexer TokenType.string copied 0, move_to (tail left) (column + 1) lexer)
    else (token_at lexer TokenType.unknown copied 0, move_to left column lexer)

-- A number of digits behind a prefix of two characters.
unfoldable pub prefixed_number : ℕ → ℕ → (ℕ → Bool) → ℕ → Chars → Lexer → Token × Lexer
prefixed_number c x test base input lexer =
    let (digits, left) = copy_while test 253 input in
    (
      token_at lexer TokenType.number (c ∷ x ∷ digits) (u32 (strtoul digits base)),
      move_to left (lexer.column + 2 + length digits) lexer,
    )

-- The branch of digits; `input` starts with the digit `c` and goes on with `after`.
unfoldable pub number_token : ℕ → Chars → Lexer → Token × Lexer
number_token c after lexer =
    let (digits, left) = copy_while lexer_is_digit 255 (c ∷ after) in
    if c == b'0' && starts b'x' after
    then prefixed_number c b'x' is_hex_digit 16 (tail after) lexer
    else if c == b'0' && starts b'b' after
    then prefixed_number c b'b' is_binary_digit 2 (tail after) lexer
    else (
      token_at lexer TokenType.number digits (u32 (strtoul digits 10)),
      move_to left (lexer.column + length digits) lexer,
    )

-- The branch of letters.
unfoldable pub word_token : Chars → Lexer → Token × Lexer
word_token input lexer =
    let (word, left) = copy_while lexer_is_alnum 255 input in
    let type : TokenType =
      if is_register_token word then TokenType.register else TokenType.identifier in
    (token_at lexer type word 0, move_to left (lexer.column + length word) lexer)

-- `lexer_next_token` behind `lexer_skip_whitespace`; the argument is `lexer->input` at the position.
unfoldable pub scan : Chars → Lexer → Token × Lexer
scan [] lexer = (token_at lexer TokenType.eof [] 0, lexer)
scan (c ∷ input) lexer =
    if c == b'\n'
    then newline_token c input lexer
    else if c == b','
    then single TokenType.comma c input lexer
    else if c == b':'
    then single TokenType.colon c input lexer
    else if c == b'#'
    then single TokenType.hash c input lexer
    else if c == b'['
    then single TokenType.lbracket c input lexer
    else if c == b']'
    then single TokenType.rbracket c input lexer
    else if c == b';'
    then comment_token c input lexer
    else if c == b'"'
    then string_token input lexer
    else if lexer_is_digit c
    then number_token c input lexer
    else if lexer_is_alpha c
    then word_token (c ∷ input) lexer
    else single TokenType.unknown c input lexer

-- The lexer with the whitespace and the comments at its position skipped.
unfoldable pub skipped : Lexer → Lexer
skipped lexer =
    let (left, column) = lexer_skip_whitespace lexer.rest lexer.column in move_to left column lexer

unfoldable pub lexer_next_token : Lexer → Token × Lexer
lexer_next_token lexer = elim lexer.current_token [
  | some token ↦ (token, record lexer { current_token = none })
  | none ↦ scan (skipped lexer).rest (skipped lexer)
]

unfoldable pub lexer_peek_token : Lexer → Token × Lexer
lexer_peek_token lexer = elim lexer.current_token [
  | some token ↦ (token, lexer)
  | none ↦
      let (token, lexer') = lexer_next_token lexer in
      (token, record lexer' { current_token = some token })
]
