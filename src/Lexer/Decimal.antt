-- ===== src/Lexer/Decimal.antt =====
-- Numbers in decimal, and the signs of one character, as the lexer reads them.
use dez.Base.{
  ℕ, zero, suc, ◌+◌, ◌*◌, ◌/◌, ◌%◌, ◌^◌, ◌<◌, ◌≤◌, ◌≡◌, refl, subst, ap, ◌∙◌, Bool, true, false, [],
  ◌∷◌, ◌++◌, ◌==◌, ◌&&◌, Chars, length, ltb, if◌then◌else◌, if_cases, if_both, length-append, u32,
  arith,
}
use dez.Lexer.Defs.{
  lexer_is_alpha, lexer_is_digit, lexer_is_alnum, alpha_table, lexer_is_whitespace,
}
use dez.Lexer.Tokens.{TokenType, Lexer}
use dez.Lexer.Scan.{
  lexer_next_token, starts, strtoul, digits_from, digit_worth, token_at, number_token, scan,
}
use dez.Lexer.Reads.{
  IsRead, standing, All, Stops, Scans, Reads, IsSolid, plain, spaced, copied, move_to-standing,
}

-- The decimal digits of `n`, at most `k + 1` of them.
unfoldable pub decimal_from : ℕ → ℕ → Chars
decimal_from zero n = (48 + n) ∷ []
decimal_from (suc k) n =
    let rest : Chars = decimal_from k (n / 10) in
    if ltb n 10 then (48 + n) ∷ [] else rest ++ (48 + n % 10) ∷ []

-- A 32-bit number has at most ten digits.
unfoldable pub decimal : ℕ → Chars
decimal n = decimal_from 9 n

-- The power of ten that has `k + 2` digits.
abbrev pub ten_to : ℕ → ℕ
ten_to zero = 10
ten_to (suc k) = 10 * ten_to k

digits_from-append :
    (base m : ℕ) (xs : Chars) (c : ℕ)
    → digits_from base m (xs ++ c ∷ []) ≡ digits_from base m xs * base + digit_worth c
unfolding digits_from
digits_from-append base m [] c = refl
digits_from-append base m (x ∷ xs) c = digits_from-append base (m * base + digit_worth x) xs c

worth : (n : ℕ) → n < 10 → digit_worth (48 + n) ≡ n
unfolding digit_worth
worth n h = ground arith

one_digit : (n : ℕ) → n < 10 → digits_from 10 0 ((48 + n) ∷ []) ≡ n
unfolding digits_from
one_digit n h = omega (arith, worth n h)

decimal_from-worth : (k n : ℕ) → n < ten_to k → digits_from 10 0 (decimal_from k n) ≡ n
unfolding decimal_from digits_from
decimal_from-worth zero n h = one_digit n h
decimal_from-worth (suc k) n h =
    if_cases (λ text. digits_from 10 0 text ≡ n) (ltb n 10) (λ small. one_digit n (ground arith))
      (λ large.
        digits_from-append 10 0 (decimal_from k (n / 10)) (48 + n % 10)
        ∙ omega (arith, decimal_from-worth k (n / 10) (omega arith), worth (n % 10) (omega arith)))

All-append : (test : ℕ → Bool) (xs ys : Chars) → All test xs → All test ys → All test (xs ++ ys)
All-append test [] ys hx hy = hy
All-append test (x ∷ xs) ys hx hy = (hx.0, All-append test xs ys hx.1 hy)

digit : (n : ℕ) → n < 10 → lexer_is_digit (48 + n) ≡ true
unfolding lexer_is_digit
digit n h = ground arith

decimal_from-All : (k n : ℕ) → n < ten_to k → All lexer_is_digit (decimal_from k n)
unfolding decimal_from
decimal_from-All zero n h = (digit n h, tt)
decimal_from-All (suc k) n h =
    if_cases (All lexer_is_digit) (ltb n 10) (λ small. (digit n (ground arith), tt))
      (λ large.
        All-append lexer_is_digit _ _ (decimal_from-All k (n / 10) (omega arith))
          (digit (n % 10) (omega arith), tt))

-- One digit more.
longer : (xs : Chars) (c : ℕ) → length (xs ++ c ∷ []) ≡ length xs + 1
unfolding length
longer xs c = length-append xs (c ∷ [])

decimal_from-length :
    (k n : ℕ) → (0 < length (decimal_from k n)) × (length (decimal_from k n) ≤ suc k)
unfolding decimal_from length
decimal_from-length zero n = (omega arith, omega arith)
decimal_from-length (suc k) n =
    if_both (λ (text : Chars). (0 < length text) × (length text ≤ suc (suc k))) (ltb n 10) one
      (shorter k (decimal_from k (n / 10)) (48 + n % 10) (decimal_from-length k (n / 10)).1)
  where
    one : (0 < 1) × (1 ≤ suc (suc k))
    one = (omega arith, omega arith)

    shorter :
        (k : ℕ) (xs : Chars) (c : ℕ)
        → length xs ≤ suc k
        → (0 < length (xs ++ c ∷ [])) × (length (xs ++ c ∷ []) ≤ suc (suc k))
    shorter k xs c h = (omega (arith, longer xs c), omega (arith, longer xs c))

-- No letter and no digit follows.
abbrev pub Apart : Chars → Type 0
Apart = Stops lexer_is_alnum

scan-digit :
    (c : ℕ) (input : Chars) (lexer : Lexer)
    → lexer_is_digit c ≡ true
    → scan (c ∷ input) lexer ≡ number_token c input lexer
unfolding scan lexer_is_digit
scan-digit c input lexer digit = ground (arith, digit)

Apart-digit : (rest : Chars) → Apart rest → Stops lexer_is_digit rest
unfolding lexer_is_alnum
Apart-digit [] apart = tt
Apart-digit (c ∷ rest) apart = ground (arith, apart)

-- Neither prefix follows a zero of a decimal number.
unprefixed :
    (x : ℕ) (digits rest : Chars)
    → lexer_is_alpha x ≡ true
    → All lexer_is_digit digits
    → Apart rest
    → starts x (digits ++ rest) ≡ false
unfolding starts lexer_is_digit lexer_is_alnum lexer_is_alpha alpha_table
unprefixed x [] [] letter all apart = refl
unprefixed x [] (c ∷ rest) letter all apart = ground (arith, letter, apart)
unprefixed x (c ∷ digits) rest letter (digit, _) apart = ground (arith, letter, digit)

and_false : (b : Bool) → (b && false) ≡ false
and_false true = refl
and_false false = refl

number_token_lem :
    (c : ℕ) (digits passed rest : Chars) (line column : ℕ)
    → All lexer_is_digit (c ∷ digits)
    → length (c ∷ digits) ≤ 255
    → Apart rest
    → let lexer = standing passed (c ∷ (digits ++ rest)) line column in
      number_token c (digits ++ rest) lexer ≡ (
        token_at lexer TokenType.number (c ∷ digits) (u32 (strtoul (c ∷ digits) 10)),
        standing (passed ++ c ∷ digits) rest line (column + length (c ∷ digits)),
      )
unfolding number_token lexer_is_alpha alpha_table
number_token_lem c digits passed rest line column all short apart =
    rw
      (
        unprefixed b'x' digits rest refl all.1 apart,
        copied lexer_is_digit 255 (c ∷ digits) rest all short (Apart-digit rest apart),
      )
      (rw (unprefixed b'b' digits rest refl all.1 apart, and_false (c == b'0'))
        (ap
          (λ (l : Lexer). (
            token_at (standing passed (c ∷ (digits ++ rest)) line column) TokenType.number
                (c ∷ digits) (u32 (strtoul (c ∷ digits) 10)),
            l,
          ))
          (move_to-standing passed (c ∷ digits) rest line column (column + length (c ∷ digits)))))

number-Scans :
    (digits : Chars)
    → All lexer_is_digit digits
    → 0 < length digits
    → length digits ≤ 255
    → Scans Apart TokenType.number digits (u32 (strtoul digits 10)) digits
number-Scans [] all more short passed rest line column apart = absurd (unfold length in omega arith)
number-Scans (c ∷ digits) all more short passed rest line column apart = record {
  token = _;
  token_type = refl;
  token_value = refl;
  token_num_value = refl;
  line' = line;
  column' = column + length (c ∷ digits);
  run =
      scan-digit c (digits ++ rest) (standing passed (c ∷ (digits ++ rest)) line column) all.0
      ∙ number_token_lem c digits passed rest line column all short apart;
}

-- A 32-bit number in decimal, in front of neither a letter nor a digit, is a token with that value.
pub decimal-Scans : (n : ℕ) → n < 2 ^ 32 → Scans Apart TokenType.number (decimal n) n (decimal n)
unfolding decimal
decimal-Scans n small =
    let length = decimal_from-length 9 n in
    subst
      (λ num_value. Scans Apart TokenType.number (decimal_from 9 n) num_value (decimal_from 9 n))
      worth_lem
      (number-Scans (decimal_from 9 n) (decimal_from-All 9 n (omega arith)) length.0
        (omega (arith, length.1)))
  where
    worth_lem : u32 (strtoul (decimal_from 9 n) 10) ≡ n
    worth_lem = unfold strtoul in rw (decimal_from-worth 9 n (omega arith)) (ground arith)

digit-IsSolid : (c : ℕ) → lexer_is_digit c ≡ true → IsSolid c
unfolding lexer_is_digit lexer_is_whitespace
digit-IsSolid c digit = (ground arith, λ e. ground arith)

digits-Reads :
    (digits : Chars) (n : ℕ)
    → All lexer_is_digit digits
    → 0 < length digits
    → Scans Apart TokenType.number digits n digits
    → Reads Apart TokenType.number digits n digits
      × Reads Apart TokenType.number digits n (32 ∷ digits)
digits-Reads [] n all more scans = absurd (unfold length in omega arith)
digits-Reads (c ∷ digits) n all more scans =
    let solid = digit-IsSolid c all.0 in (plain c digits solid scans, spaced c digits solid scans)

pub decimal-All : (n : ℕ) → n < 2 ^ 32 → All lexer_is_digit (decimal n)
unfolding decimal
decimal-All n small = decimal_from-All 9 n (omega arith)

pub decimal-Reads :
    (n : ℕ)
    → n < 2 ^ 32
    → Reads Apart TokenType.number (decimal n) n (decimal n)
      × Reads Apart TokenType.number (decimal n) n (32 ∷ decimal n)
decimal-Reads n small =
    digits-Reads (decimal n) n (unfold decimal in decimal_from-All 9 n (omega arith))
      (unfold decimal in (decimal_from-length 9 n).0) (decimal-Scans n small)

-- Wherever the lexer stands in front of a 32-bit number in decimal, with neither a letter nor a digit
-- behind it, `lexer_next_token` gives one token, a number with that text and that value, and the
-- lexer then stands behind it.
pub lexer_next_token-decimal :
    (n : ℕ) (passed rest : Chars) (line column : ℕ)
    → n < 2 ^ 32
    → Apart rest
    → IsRead
        (λ input. lexer_next_token)
        TokenType.number
        (decimal n)
        n
        (decimal n)
        passed
        rest
        line
        column
lexer_next_token-decimal n passed rest line column small apart =
    (decimal-Reads n small).0 passed rest line column apart
