-- ===== src/Lexer/Skip.antt =====
-- `lexer_skip_whitespace`: where it stops.
use dez.Base.{
  ◌∙◌, sym, ==→eq, length-append, append_assoc, ℕ, suc, zero, ◌+◌, ◌<◌, ◌≤◌, ◌≡◌, ◌≢◌, refl, ap,
  true, false, [], ◌∷◌, ◌++◌, ◌==◌, Chars, length, Bool-cases, inl, inr, arith,
}
use dez.Lexer.Defs.{lexer_is_whitespace, lexer_skip_comment, skip_rounds, lexer_skip_whitespace}

-- No newline.
abbrev pub OnOneLine : Chars → Type 0
OnOneLine [] = Unit
OnOneLine (c ∷ cs) = (c ≢ 10) × OnOneLine cs

-- The input is what was passed over, on one line, and what is left; the column has moved on by its
-- length.
pub record Passed (input : Chars) (column : ℕ) (end : Chars × ℕ) : Type 0 where
  pub over : Chars
  pub split : input ≡ over ++ end.0
  pub moved : end.1 ≡ column + length over
  pub line : OnOneLine over

-- The end of the input, or a character that starts a token.
abbrev pub AtToken : Chars → Type 0
AtToken [] = Unit
AtToken (c ∷ cs) = (lexer_is_whitespace c ≡ false) × (c ≢ 59)

nothing-Passed : (input : Chars) (column : ℕ) → Passed input column (input, column)
unfolding length
nothing-Passed input column = record { over = []; split = refl; moved = omega arith; line = tt }

one_more-Passed :
    {c : ℕ} {input : Chars} {column : ℕ} {end : Chars × ℕ}
    → c ≢ 10
    → Passed input (column + 1) end
    → Passed (c ∷ input) column end
unfolding length
one_more-Passed {c} {input} {column} {end} h p = record {
  over = c ∷ p.over;
  split = ap (λ rest. c ∷ rest) p.split;
  moved = omega (arith, p.moved);
  line = (h, p.line);
}

comment-Passed :
    (input : Chars) (column : ℕ) → Passed input column (lexer_skip_comment input column)
unfolding lexer_skip_comment
comment-Passed [] column = nothing-Passed [] column
comment-Passed (c ∷ input) column = elim (Bool-cases (c == 10)) [
  | inl newline ↦ rw newline (nothing-Passed (c ∷ input) column)
  | inr other ↦ rw other (one_more-Passed (λ e. ground arith) (comment-Passed input (column + 1)))
]

OnOneLine-append : (xs ys : Chars) → OnOneLine xs → OnOneLine ys → OnOneLine (xs ++ ys)
OnOneLine-append [] ys hx hy = hy
OnOneLine-append (x ∷ xs) ys hx hy = (hx.0, OnOneLine-append xs ys hx.1 hy)

Passed-trans :
    {input : Chars} {column : ℕ} {mid end : Chars × ℕ}
    → Passed input column mid
    → Passed mid.0 mid.1 end
    → Passed input column end
Passed-trans {input} {column} {mid} {end} p q = record {
  over = p.over ++ q.over;
  split = p.split ∙ ap (λ rest. p.over ++ rest) q.split ∙ sym (append_assoc p.over q.over end.0);
  moved = omega (arith, p.moved, q.moved, length-append p.over q.over);
  line = OnOneLine-append p.over q.over p.line q.line;
}

comment-shorter :
    (input : Chars) (column : ℕ) → length (lexer_skip_comment input column).0 ≤ length input
unfolding lexer_skip_comment length
comment-shorter [] column = omega arith
comment-shorter (c ∷ input) column = ground (arith, comment-shorter input (column + 1))

semicolon-shorter :
    (c : ℕ) (input : Chars) (column : ℕ)
    → c ≡ 59
    → length (lexer_skip_comment (c ∷ input) column).0 ≤ length input
unfolding lexer_skip_comment
semicolon-shorter c input column h = ground (arith, comment-shorter input (column + 1))

whitespace-line : (c : ℕ) → lexer_is_whitespace c ≡ true → c ≢ 10
unfolding lexer_is_whitespace
whitespace-line c h e = ground arith

skip_rounds_lem :
    (fuel : ℕ) (input : Chars) (column : ℕ)
    → length input < fuel
    → Passed input column (skip_rounds fuel input column)
      × AtToken (skip_rounds fuel input column).0
unfolding skip_rounds length
skip_rounds_lem zero input column h = absurd (omega arith)
skip_rounds_lem (suc fuel) [] column h = (nothing-Passed [] column, tt)
skip_rounds_lem (suc fuel) (c ∷ input) column h = elim (Bool-cases (lexer_is_whitespace c)) [
  | inl space ↦
      let (passed, at) = skip_rounds_lem fuel input (column + 1) (omega arith) in
      rw space (one_more-Passed (whitespace-line c space) passed, at)
  | inr solid ↦ elim (Bool-cases (c == 59)) [
    | inl semicolon ↦
        let end : Chars × ℕ = lexer_skip_comment (c ∷ input) column in
        let (passed, at) =
          skip_rounds_lem fuel end.0 end.1
            (omega (arith, semicolon-shorter c input column (==→eq c 59 semicolon))) in
        rw (solid, semicolon) (Passed-trans (comment-Passed (c ∷ input) column) passed, at)
    | inr other ↦ rw (solid, other) (nothing-Passed (c ∷ input) column, (solid, λ e. ground arith))
  ]
]

-- Skipping whitespace and comments passes over a stretch of one line, moves the column on by its
-- length, and stops at the end of the input or at a character that is neither whitespace nor the
-- start of a comment.
pub lexer_skip_whitespace_lem :
    (input : Chars) (column : ℕ)
    → Passed input column (lexer_skip_whitespace input column)
      × AtToken (lexer_skip_whitespace input column).0
unfolding lexer_skip_whitespace
lexer_skip_whitespace_lem input column =
    skip_rounds_lem (suc (length input)) input column (omega arith)
