-- ===== src/Lexer/Consumed.antt =====
-- What each kind of token uses up of the input.
use dez.Base.{
  if_both, ◌&&◌, ℕ, zero, suc, ◌+◌, ◌-◌, ◌<◌, ◌≡◌, ◌⊎◌, refl, sym, ap, ◌∙◌, true, not, [], ◌∷◌,
  ◌++◌, ◌==◌, Chars, length, take, length-append, append_assoc, append-nil, Bool, Bool-cases, inl,
  inr, arith,
}
use dez.Lexer.Defs.{lexer_is_digit, lexer_is_alpha, lexer_is_alnum, is_register_token}
use dez.Lexer.Tokens.{TokenType, Token, Lexer}
use dez.Lexer.Scan.{
  copy_while, move_to, single, starts, tail, newline_token, string_token, number_token,
  prefixed_number, word_token, scan,
}

-- Neither the end of the input nor a comment.
abbrev pub IsProper : TokenType → Type 0
IsProper TokenType.eof = ⊥
IsProper TokenType.comment = ⊥
IsProper _ = Unit

-- The result of reading a token: it is the end of the input, of which nothing is left; or it is no
-- comment and stands on a part `over` of what was left, which has a character and is now behind the
-- position.
pub record Consumed (lexer : Lexer) (result : Token × Lexer) : Type 0 where
  pub over : Chars
  pub split : lexer.rest ≡ over ++ result.1.rest
  pub behind : result.1.passed ≡ lexer.passed ++ over
  pub free : result.1.current_token ≡ lexer.current_token
  pub progress :
      ((result.0.type ≡ TokenType.eof) × (result.1.rest ≡ []))
      ⊎ (IsProper result.0.type × (0 < length over))

-- What is copied and what is left are the input.
pub copy_while-split :
    (test : ℕ → Bool) (room : ℕ) (input : Chars)
    → input ≡ (copy_while test room input).0 ++ (copy_while test room input).1
unfolding copy_while
copy_while-split test zero input = refl
copy_while-split test (suc room) [] = refl
copy_while-split test (suc room) (c ∷ input) = ground (arith, copy_while-split test room input)

take-length : (over left : Chars) → take (length over) (over ++ left) ≡ over
unfolding take length
take-length [] left = refl
take-length (c ∷ over) left = ap (λ rest. c ∷ rest) (take-length over left)

-- The first part of a text, by the lengths of the whole and of the second part.
pub take-front :
    (over left : Chars) → take (length (over ++ left) - length left) (over ++ left) ≡ over
take-front over left = rw (length_lem, take-length over left)
  where
    length_lem : length (over ++ left) - length left ≡ length over
    length_lem = omega (arith, length-append over left)

pub move_to-passed :
    (over left : Chars) (column : ℕ) (lexer : Lexer)
    → lexer.rest ≡ over ++ left
    → (move_to left column lexer).passed ≡ lexer.passed ++ over
unfolding move_to
move_to-passed over left column lexer h = rw (h, take-front over left)

-- A token that ends where `left` is left.
consumed :
    (lexer : Lexer) (over left : Chars) (column : ℕ) (token : Token)
    → lexer.rest ≡ over ++ left
    → 0 < length over
    → IsProper token.type
    → Consumed lexer (token, move_to left column lexer)
unfolding move_to
consumed lexer over left column token split more proper = record {
  over = over;
  split = split;
  behind = move_to-passed over left column lexer split;
  free = refl;
  progress = inr (proper, more);
}

pub single-Consumed :
    (type : TokenType) (c : ℕ) (left : Chars) (lexer : Lexer)
    → lexer.rest ≡ c ∷ left
    → IsProper type
    → Consumed lexer (single type c left lexer)
unfolding single length
single-Consumed type c left lexer split proper =
    consumed lexer (c ∷ []) left _ _ split (omega arith) proper

pub newline-Consumed :
    (c : ℕ) (left : Chars) (lexer : Lexer)
    → lexer.rest ≡ c ∷ left
    → Consumed lexer (newline_token c left lexer)
unfolding newline_token move_to length
newline-Consumed c left lexer split = record {
  over = c ∷ [];
  split = split;
  behind = move_to-passed (c ∷ []) left 1 lexer split;
  free = refl;
  progress = inr (tt, omega arith);
}

starts-tail : (c : ℕ) (input : Chars) → starts c input ≡ true → input ≡ c ∷ tail input
unfolding starts
starts-tail c [] h = ground arith
starts-tail c (d ∷ input) h = ground arith

pub string-Consumed :
    (c : ℕ) (input : Chars) (lexer : Lexer)
    → lexer.rest ≡ c ∷ input
    → Consumed lexer (string_token input lexer)
unfolding string_token length
string-Consumed c input lexer split =
    let (copied, left) = copy_while (λ d. not (d == b'"')) 255 input in
    let text : lexer.rest ≡ c ∷ (copied ++ left) =
      split ∙ ap (λ rest. c ∷ rest) (copy_while-split _ 255 input) in
    elim (Bool-cases (starts b'"' left)) [
      | inl closed ↦
          let whole : lexer.rest ≡ (c ∷ (copied ++ b'"' ∷ [])) ++ tail left =
            text
            ∙ ap (λ rest. c ∷ (copied ++ rest)) (starts-tail b'"' left closed)
            ∙ ap (λ rest. c ∷ rest) (sym (append_assoc copied (b'"' ∷ []) (tail left))) in
          rw closed (consumed lexer (c ∷ (copied ++ b'"' ∷ [])) _ _ _ whole (omega arith) tt)
      | inr opened ↦ rw opened (consumed lexer (c ∷ copied) left _ _ text (omega arith) tt)
    ]

prefixed-Consumed :
    (c x base : ℕ) (test : ℕ → Bool) (input : Chars) (lexer : Lexer)
    → lexer.rest ≡ c ∷ x ∷ input
    → Consumed lexer (prefixed_number c x test base input lexer)
unfolding prefixed_number length
prefixed-Consumed c x base test input lexer split =
    let (copied, left) = copy_while test 253 input in
    let text : lexer.rest ≡ c ∷ x ∷ (copied ++ left) =
      split ∙ ap (λ rest. c ∷ x ∷ rest) (copy_while-split test 253 input) in
    consumed lexer (c ∷ x ∷ copied) left _ _ text (omega arith) tt

-- The first character passes the test.
copied-more :
    (test : ℕ → Bool) (room c : ℕ) (input : Chars)
    → test c ≡ true
    → 0 < length (copy_while test (suc room) (c ∷ input)).0
unfolding copy_while length
copied-more test room c input h = rw (h, length) (omega arith)

pub number-Consumed :
    (c : ℕ) (input : Chars) (lexer : Lexer)
    → lexer.rest ≡ c ∷ input
    → lexer_is_digit c ≡ true
    → Consumed lexer (number_token c input lexer)
unfolding number_token
number-Consumed c input lexer split digit =
    let (copied, left) = copy_while lexer_is_digit 255 (c ∷ input) in
    let decimal =
      consumed lexer copied left (lexer.column + length copied) _
        (split ∙ copy_while-split lexer_is_digit 255 (c ∷ input))
        (copied-more lexer_is_digit 254 c input digit) tt in
    elim (Bool-cases (c == b'0' && starts b'x' input)) [
      | inl hex ↦ rw hex (prefixed-Consumed c b'x' 16 _ (tail input) lexer (prefixed b'x' hex))
      | inr unprefixed ↦ elim (Bool-cases (c == b'0' && starts b'b' input)) [
        | inl binary ↦
            rw (unprefixed, binary)
              (prefixed-Consumed c b'b' 2 _ (tail input) lexer (prefixed b'b' binary))
        | inr other ↦ rw (unprefixed, other) decimal
      ]
    ]
  where
    prefixed : (x : ℕ) → (c == b'0' && starts x input) ≡ true → lexer.rest ≡ c ∷ x ∷ tail input
    prefixed x h = split ∙ ap (λ rest. c ∷ rest) (starts-tail x input (ground arith))

pub word-Consumed :
    (c : ℕ) (input : Chars) (lexer : Lexer)
    → lexer.rest ≡ c ∷ input
    → lexer_is_alpha c ≡ true
    → Consumed lexer (word_token (c ∷ input) lexer)
unfolding word_token lexer_is_alnum
word-Consumed c input lexer split letter =
    let (copied, left) = copy_while lexer_is_alnum 255 (c ∷ input) in
    consumed lexer copied left _ _ (split ∙ copy_while-split lexer_is_alnum 255 (c ∷ input))
      (copied-more lexer_is_alnum 254 c input (rw letter))
      (if_both IsProper (is_register_token copied) tt tt)

pub end-Consumed : (lexer : Lexer) → lexer.rest ≡ [] → Consumed lexer (scan [] lexer)
unfolding scan
end-Consumed lexer split = record {
  over = [];
  split = refl;
  behind = sym (append-nil lexer.passed);
  free = refl;
  progress = inl (refl, split);
}
