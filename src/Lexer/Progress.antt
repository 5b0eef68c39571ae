-- ===== src/Lexer/Progress.antt =====
-- `lexer_next_token`: every token but the last uses up a part of the input.
use dez.Base.{
  if_cases, ==→eq, ◌≡◌, refl, sym, ap, subst, ◌∙◌, none, [], ◌∷◌, ◌++◌, ◌==◌, Chars, length-append,
  append_assoc, inl, inr, arith,
}
use dez.Lexer.Defs.{lexer_is_digit, lexer_is_alpha}
use dez.Lexer.Tokens.{TokenType, Token, Lexer}
use dez.Lexer.Scan.{move_to, single, scan, skipped, lexer_next_token}
use dez.Lexer.Skip.{AtToken, lexer_skip_whitespace_lem}
use dez.Lexer.Consumed.{
  IsProper, Consumed, move_to-passed, single-Consumed, newline-Consumed, string-Consumed,
  number-Consumed, word-Consumed, end-Consumed,
}

scan-Consumed :
    (input : Chars) (lexer : Lexer)
    → lexer.rest ≡ input
    → AtToken input
    → Consumed lexer (scan input lexer)
scan-Consumed [] lexer split at = end-Consumed lexer split
scan-Consumed (c ∷ input) lexer split at =
    unfold scan in
    if_cases P (c == b'\n') (λ _. newline-Consumed c input lexer split)
      λ _.
        if_cases P (c == b',') (λ _. one TokenType.comma tt)
          λ _.
            if_cases P (c == b':') (λ _. one TokenType.colon tt)
              λ _.
                if_cases P (c == b'#') (λ _. one TokenType.hash tt)
                  λ _.
                    if_cases P (c == b'[') (λ _. one TokenType.lbracket tt)
                      λ _.
                        if_cases P (c == b']') (λ _. one TokenType.rbracket tt)
                          λ _.
                            if_cases P (c == b';') (λ e. absurd (at.1 (==→eq c b';' e)))
                              λ _.
                                if_cases P (c == b'"') (λ _. string-Consumed c input lexer split)
                                  λ _.
                                    if_cases P (lexer_is_digit c)
                                      (number-Consumed c input lexer split)
                                      λ _.
                                        if_cases P (lexer_is_alpha c)
                                          (word-Consumed c input lexer split)
                                          λ _. one TokenType.unknown tt
  where
    P : Token × Lexer → Type 0
    P = Consumed lexer

    one : (type : TokenType) → IsProper type → Consumed lexer (single type c input lexer)
    one type proper = single-Consumed type c input lexer split proper

-- What is passed over before a token belongs to what the token stands on.
behind_space-Consumed :
    (lexer lexer' : Lexer) (over : Chars) {result : Token × Lexer}
    → lexer.rest ≡ over ++ lexer'.rest
    → lexer'.passed ≡ lexer.passed ++ over
    → lexer'.current_token ≡ lexer.current_token
    → Consumed lexer' result
    → Consumed lexer result
behind_space-Consumed lexer lexer' over {result} split behind free p = record {
  over = over ++ p.over;
  split = split ∙ ap (λ rest. over ++ rest) p.split ∙ sym (append_assoc over p.over result.1.rest);
  behind =
      p.behind ∙ ap (λ passed. passed ++ p.over) behind ∙ append_assoc lexer.passed over p.over;
  free = p.free ∙ free;
  progress = elim p.progress [
    | inl ended ↦ inl ended
    | inr (proper, more) ↦ inr (proper, omega (arith, more, length-append over p.over))
  ];
}

pub lexer_next_token-free :
    (lexer : Lexer)
    → lexer.current_token ≡ none
    → lexer_next_token lexer ≡ scan (skipped lexer).rest (skipped lexer)
unfolding lexer_next_token
lexer_next_token-free lexer free = ground arith

-- Reading a token while none is kept: it is the end of the input, and nothing is left; or it is no
-- comment and stands on at least one character of what was left. What was left is what the token,
-- with the whitespace before it, stands on, followed by what is left now; it has gone behind the
-- position, and no token is kept.
pub lexer_next_token-Consumed :
    (lexer : Lexer) → lexer.current_token ≡ none → Consumed lexer (lexer_next_token lexer)
lexer_next_token-Consumed lexer free =
    let (passed, at) = lexer_skip_whitespace_lem lexer.rest lexer.column in
    let over : Chars = passed.over in
    let split : lexer.rest ≡ over ++ (skipped lexer).rest =
      unfold skipped move_to in passed.split in
    let behind : (skipped lexer).passed ≡ lexer.passed ++ over =
      unfold skipped in move_to-passed over _ _ lexer passed.split in
    subst (Consumed lexer) (sym (lexer_next_token-free lexer free)) (
      behind_space-Consumed lexer (skipped lexer) over split behind (unfold skipped move_to in refl)
        (scan-Consumed (skipped lexer).rest (skipped lexer) refl (unfold skipped move_to in at)))
