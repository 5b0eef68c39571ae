-- ===== src/Lexer/Reads.antt =====
-- The token that a text is read as, with any input before it and behind it.
use dez.Base.{
  ℕ, zero, suc, ◌+◌, ◌<◌, ◌≤◌, ◌≡◌, ◌≢◌, refl, ap, ◌∙◌, Bool, true, false, none, [], ◌∷◌, ◌++◌,
  append-nil, Chars, length, if◌then◌else◌, append_assoc, arith,
}
use dez.Lexer.Defs.{
  lexer_is_alpha, lexer_is_digit, lexer_is_alnum, alpha_table, lexer_is_whitespace,
  is_register_token, lexer_skip_whitespace, skip_rounds,
}
use dez.Lexer.Tokens.{TokenType, Token, Lexer}
use dez.Lexer.Scan.{copy_while, move_to, token_at, word_token, scan, skipped, lexer_next_token}
use dez.Lexer.Progress.{lexer_next_token-free}
use dez.Lexer.Consumed.{take-front}

-- A lexer between two tokens.
abbrev pub standing : Chars → Chars → ℕ → ℕ → Lexer
standing passed rest line column = record {
  passed = passed;
  rest = rest;
  line = line;
  column = column;
  current_token = none;
}

-- A character that starts a token.
abbrev pub IsSolid : ℕ → Type 0
IsSolid c = (lexer_is_whitespace c ≡ false) × (c ≢ 59)

abbrev pub All : (ℕ → Bool) → Chars → Type 0
All test [] = Unit
All test (c ∷ cs) = (test c ≡ true) × All test cs

-- The end, or a character that fails the test.
abbrev pub Stops : (ℕ → Bool) → Chars → Type 0
Stops test [] = Unit
Stops test (c ∷ cs) = test c ≡ false

abbrev pub word_type : Chars → TokenType
word_type word = if is_register_token word then TokenType.register else TokenType.identifier

-- The text `over`, with input before it and behind it, is read as one token: by `lexer_next_token`, and by
-- `scan`.
pub record IsRead (next : Chars → Lexer → Token × Lexer) (type : TokenType) (value : Chars)
    (num_value : ℕ) (over passed rest : Chars) (line column : ℕ) : Type 0 where
  pub token : Token
  pub token_type : token.type ≡ type
  pub token_value : token.value ≡ value
  pub token_num_value : token.num_value ≡ num_value
  pub line' : ℕ
  pub column' : ℕ
  pub run :
      next (over ++ rest) (standing passed (over ++ rest) line column)
      ≡ (token, standing (passed ++ over) rest line' column')

-- Such a text wherever the lexer stands, if `Next` holds of what follows.
abbrev pub Reads : (Chars → Type 0) → TokenType → Chars → ℕ → Chars → Type 0
Reads Next type value num_value over =
    (passed rest : Chars) (line column : ℕ)
    → Next rest
    → IsRead (λ input. lexer_next_token) type value num_value over passed rest line column

abbrev pub Scans : (Chars → Type 0) → TokenType → Chars → ℕ → Chars → Type 0
Scans Next type value num_value over =
    (passed rest : Chars) (line column : ℕ)
    → Next rest
    → IsRead scan type value num_value over passed rest line column

-- The position moved on over `over`.
pub move_to-standing :
    (passed over left : Chars) (line column column' : ℕ)
    → move_to left column' (standing passed (over ++ left) line column)
      ≡ standing (passed ++ over) left line column'
unfolding move_to
move_to-standing passed over left line column column' =
    ap (λ front. standing (passed ++ front) left line column') (take-front over left)

solid_round :
    (fuel c : ℕ) (input : Chars) (column : ℕ)
    → IsSolid c
    → skip_rounds (suc fuel) (c ∷ input) column ≡ (c ∷ input, column)
unfolding skip_rounds
solid_round fuel c input column (solid, other) = ground (arith, solid, other)

solid_stays :
    (c : ℕ) (input : Chars) (column : ℕ)
    → IsSolid c
    → lexer_skip_whitespace (c ∷ input) column ≡ (c ∷ input, column)
unfolding lexer_skip_whitespace
solid_stays c input column solid = solid_round (length (c ∷ input)) c input column solid

space_goes :
    (c : ℕ) (input : Chars) (column : ℕ)
    → IsSolid c
    → lexer_skip_whitespace (32 ∷ c ∷ input) column ≡ (c ∷ input, column + 1)
unfolding lexer_skip_whitespace skip_rounds lexer_is_whitespace length
space_goes c input column solid = solid_round (suc (length input)) c input (column + 1) solid

-- The lexer behind what is skipped.
skipped_over :
    (passed over left : Chars) (line column column' : ℕ)
    → lexer_skip_whitespace (over ++ left) column ≡ (left, column')
    → skipped (standing passed (over ++ left) line column)
      ≡ standing (passed ++ over) left line column'
unfolding skipped
skipped_over passed over left line column column' skips =
    ap (λ (r : Chars × ℕ). move_to r.0 r.1 (standing passed (over ++ left) line column)) skips
    ∙ move_to-standing passed over left line column column'

pub copied :
    (test : ℕ → Bool) (room : ℕ) (word rest : Chars)
    → All test word
    → length word ≤ room
    → Stops test rest
    → copy_while test room (word ++ rest) ≡ (word, rest)
unfolding copy_while length
copied test zero [] rest all short stops = refl
copied test (suc room) [] [] all short stops = refl
copied test (suc room) [] (c ∷ rest) all short stops = rw stops
copied test zero (c ∷ word) rest all short stops = absurd (omega arith)
copied test (suc room) (c ∷ word) rest all short stops =
    rw (all.0, copied test room word rest all.1 (omega arith) stops)

scan-letter :
    (c : ℕ) (input : Chars) (lexer : Lexer)
    → lexer_is_alpha c ≡ true
    → scan (c ∷ input) lexer ≡ word_token (c ∷ input) lexer
unfolding scan lexer_is_alpha alpha_table lexer_is_digit
scan-letter c input lexer letter = ground (arith, letter)

word_token_lem :
    (c : ℕ) (word passed rest : Chars) (line column : ℕ)
    → All lexer_is_alnum (c ∷ word)
    → length word < 255
    → Stops lexer_is_alnum rest
    → word_token (c ∷ (word ++ rest)) (standing passed (c ∷ (word ++ rest)) line column) ≡ (
      token_at
          (standing passed (c ∷ (word ++ rest)) line column)
          (word_type (c ∷ word))
          (c ∷ word)
          0,
      standing (passed ++ c ∷ word) rest line (column + length (c ∷ word)),
    )
unfolding word_token length
word_token_lem c word passed rest line column all short stops =
    rw (copied lexer_is_alnum 255 (c ∷ word) rest all (omega arith) stops) (
      ap
        (λ (l : Lexer). (
          token_at (standing passed (c ∷ (word ++ rest)) line column) (word_type (c ∷ word))
              (c ∷ word) 0,
          l,
        ))
        (move_to-standing passed (c ∷ word) rest line column (column + length (c ∷ word))))

pub word-Scans :
    (c : ℕ) (word : Chars)
    → lexer_is_alpha c ≡ true
    → All lexer_is_alnum word
    → length word < 255
    → Scans (Stops lexer_is_alnum) (word_type (c ∷ word)) (c ∷ word) 0 (c ∷ word)
word-Scans c word letter all short passed rest line column stops = record {
  token = _;
  token_type = refl;
  token_value = refl;
  token_num_value = refl;
  line' = line;
  column' = column + length (c ∷ word);
  run =
      scan-letter c (word ++ rest) (standing passed (c ∷ (word ++ rest)) line column) letter
      ∙ word_token_lem c word passed rest line column all' short stops;
}
  where
    all' : All lexer_is_alnum (c ∷ word)
    all' = (unfold lexer_is_alnum in rw letter, all)

-- A text that starts with a character that is not skipped.
pub plain :
    {Next : Chars → Type 0} {type : TokenType} {value : Chars} {num_value : ℕ} (c : ℕ)
    (over : Chars)
    → IsSolid c
    → Scans Next type value num_value (c ∷ over)
    → Reads Next type value num_value (c ∷ over)
plain c over solid scans passed rest line column next =
    let r = scans passed rest line column next in
    record {
      token = r.token;
      token_type = r.token_type;
      token_value = r.token_value;
      token_num_value = r.token_num_value;
      line' = r.line';
      column' = r.column';
      run =
          lexer_next_token-free _ refl
          ∙ ap (λ (l : Lexer). scan l.rest l)
              (skipped_over passed [] (c ∷ (over ++ rest)) line column column
                  (solid_stays c (over ++ rest) column solid)
                ∙ ap (λ p. standing p (c ∷ (over ++ rest)) line column) (append-nil passed))
          ∙ r.run;
    }

-- The same text behind a space.
pub spaced :
    {Next : Chars → Type 0} {type : TokenType} {value : Chars} {num_value : ℕ} (c : ℕ)
    (over : Chars)
    → IsSolid c
    → Scans Next type value num_value (c ∷ over)
    → Reads Next type value num_value (32 ∷ c ∷ over)
spaced c over solid scans passed rest line column next =
    let r = scans (passed ++ 32 ∷ []) rest line (column + 1) next in
    record {
      token = r.token;
      token_type = r.token_type;
      token_value = r.token_value;
      token_num_value = r.token_num_value;
      line' = r.line';
      column' = r.column';
      run =
          lexer_next_token-free _ refl
          ∙ ap (λ (l : Lexer). scan l.rest l)
              (skipped_over passed (32 ∷ []) (c ∷ (over ++ rest)) line column (column + 1)
                (space_goes c (over ++ rest) column solid))
          ∙ r.run
          ∙ ap (λ p. (r.token, standing p rest r.line' r.column'))
              (append_assoc passed (32 ∷ []) (c ∷ over));
    }
