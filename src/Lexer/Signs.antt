-- ===== src/Lexer/Signs.antt =====
-- `lexer_next_token` on signs of one character and the ends of lines.
use dez.Base.{◌||◌, ℕ, ◌+◌, ◌≡◌, refl, ap, ◌∙◌, false, [], ◌∷◌, ◌==◌, Chars, arith}
use dez.Lexer.Defs.{lexer_is_whitespace}
use dez.Lexer.Tokens.{TokenType, Lexer}
use dez.Lexer.Scan.{move_to, token_at, single, newline_token, scan}
use dez.Lexer.Reads.{standing, Scans, Reads, IsSolid, plain, spaced, move_to-standing}

-- A sign of one character that stays in its line.
sign :
    (type : TokenType) (c : ℕ)
    → ((input : Chars) (lexer : Lexer) → scan (c ∷ input) lexer ≡ single type c input lexer)
    → Scans (λ rest. Unit) type (c ∷ []) 0 (c ∷ [])
unfolding single
sign type c is passed rest line column next = record {
  token = token_at (standing passed (c ∷ rest) line column) type (c ∷ []) 0;
  token_type = refl;
  token_value = refl;
  token_num_value = refl;
  line' = line;
  column' = column + 1;
  run =
      is rest (standing passed (c ∷ rest) line column)
      ∙ ap (λ (l : Lexer). (token_at (standing passed (c ∷ rest) line column) type (c ∷ []) 0, l))
          (move_to-standing passed (c ∷ []) rest line column (column + 1));
}

sign-IsSolid : (c : ℕ) → (lexer_is_whitespace c || c == 59) ≡ false → IsSolid c
unfolding lexer_is_whitespace
sign-IsSolid c h = (ground arith, λ e. ground arith)

pub comma-Reads : Reads (λ rest. Unit) TokenType.comma (b',' ∷ []) 0 (b',' ∷ [])
comma-Reads =
    plain b',' [] (sign-IsSolid b',' (unfold lexer_is_whitespace in refl))
      (sign TokenType.comma b',' (λ input lexer. unfold scan in refl))

pub colon-Reads : Reads (λ rest. Unit) TokenType.colon (b':' ∷ []) 0 (b':' ∷ [])
colon-Reads =
    plain b':' [] (sign-IsSolid b':' (unfold lexer_is_whitespace in refl))
      (sign TokenType.colon b':' (λ input lexer. unfold scan in refl))

-- An opening bracket behind a space.
pub lbracket-Reads : Reads (λ rest. Unit) TokenType.lbracket (b'[' ∷ []) 0 (32 ∷ b'[' ∷ [])
lbracket-Reads =
    spaced b'[' [] (sign-IsSolid b'[' (unfold lexer_is_whitespace in refl))
      (sign TokenType.lbracket b'[' (λ input lexer. unfold scan in refl))

pub rbracket-Reads : Reads (λ rest. Unit) TokenType.rbracket (b']' ∷ []) 0 (b']' ∷ [])
rbracket-Reads =
    plain b']' [] (sign-IsSolid b']' (unfold lexer_is_whitespace in refl))
      (sign TokenType.rbracket b']' (λ input lexer. unfold scan in refl))

-- The end of a line.
newline-Scans : Scans (λ rest. Unit) TokenType.newline (b'\n' ∷ []) 0 (b'\n' ∷ [])
unfolding newline_token scan move_to
newline-Scans passed rest line column next = record {
  token = token_at (standing passed (b'\n' ∷ rest) line column) TokenType.newline (b'\n' ∷ []) 0;
  token_type = refl;
  token_value = refl;
  token_num_value = refl;
  line' = line + 1;
  column' = 1;
  run =
      ap
        (λ (l : Lexer). (
          token_at (standing passed (b'\n' ∷ rest) line column) TokenType.newline (b'\n' ∷ []) 0,
          record l { line = l.line + 1 },
        ))
        (move_to-standing passed (b'\n' ∷ []) rest line column 1);
}

pub newline-Reads : Reads (λ rest. Unit) TokenType.newline (b'\n' ∷ []) 0 (b'\n' ∷ [])
newline-Reads =
    plain b'\n' [] (sign-IsSolid b'\n' (unfold lexer_is_whitespace in refl)) newline-Scans
