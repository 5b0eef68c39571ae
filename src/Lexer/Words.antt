-- ===== src/Lexer/Words.antt =====
-- Names and registers, as the lexer reads them.
use dez.Base.{
  ◌&&◌, not, ℕ, ◌+◌, ◌-◌, ◌<◌, ◌≤◌, ◌≡◌, refl, sym, subst, ap, ◌∙◌, Bool, true, false, [], ◌∷◌, ltb,
  if◌then◌else◌, Bool-cases, inl, inr, Chars, length, arith,
}
use dez.Lexer.Defs.{
  lexer_is_alpha, lexer_is_alnum, lexer_is_digit, lexer_is_whitespace, alpha_table,
  is_register_token,
}
use dez.Lexer.Tokens.{TokenType}
use dez.Lexer.Registers.{register_name, register_names}
use dez.Lexer.Reads.{Reads, Scans, IsSolid, All, plain, spaced, word-Scans}
use dez.Lexer.Decimal.{Apart}

-- A word of at most 63 bytes that the lexer reads as an identifier.
abbrev pub IsName : Chars → Type 0
IsName [] = ⊥
IsName (c ∷ word) =
    (lexer_is_alpha c ≡ true)
    × All lexer_is_alnum word
    × (length word < 63)
    × (is_register_token (c ∷ word) ≡ false)

unfoldable pub all : (ℕ → Bool) → Chars → Bool
all test [] = true
all test (c ∷ cs) = test c && all test cs

-- The same as a test.
unfoldable pub is_name : Chars → Bool
is_name [] = false
is_name (c ∷ word) =
    lexer_is_alpha c
    && (all lexer_is_alnum word && (ltb (length word) 63 && not (is_register_token (c ∷ word))))

all-All : (test : ℕ → Bool) (cs : Chars) → all test cs ≡ true → All test cs
unfolding all
all-All test [] h = tt
all-All test (c ∷ cs) h = (ground arith, all-All test cs (ground arith))

pub is_name-IsName : (name : Chars) → is_name name ≡ true → IsName name
unfolding is_name
is_name-IsName [] h = ground arith
is_name-IsName (c ∷ word) h =
    (ground arith, all-All lexer_is_alnum word (ground arith), ground arith, ground arith)

pub IsName-short : (name : Chars) → IsName name → length name ≤ 63
unfolding length
IsName-short [] named = absurd named
IsName-short (c ∷ word) (letter, all, short, free) = omega arith

letter-IsSolid : (c : ℕ) → lexer_is_alpha c ≡ true → IsSolid c
unfolding lexer_is_alpha alpha_table lexer_is_whitespace
letter-IsSolid c letter = (ground arith, λ e. ground arith)

abbrev kind : Bool → TokenType
kind b = if b then TokenType.register else TokenType.identifier

word-Reads :
    (c : ℕ) (word : Chars) (b : Bool)
    → lexer_is_alpha c ≡ true
    → All lexer_is_alnum word
    → length word < 255
    → is_register_token (c ∷ word) ≡ b
    → Reads Apart (kind b) (c ∷ word) 0 (c ∷ word)
      × Reads Apart (kind b) (c ∷ word) 0 (32 ∷ c ∷ word)
word-Reads c word b letter all short is =
    let scans : Scans Apart (kind b) (c ∷ word) 0 (c ∷ word) =
      subst (λ type. Scans Apart type (c ∷ word) 0 (c ∷ word)) (ap kind is)
        (word-Scans c word letter all short) in
    let solid = letter-IsSolid c letter in (plain c word solid scans, spaced c word solid scans)

-- A name, with or without a space before it.
pub name-Reads :
    (name : Chars)
    → IsName name
    → Reads Apart TokenType.identifier name 0 name
      × Reads Apart TokenType.identifier name 0 (32 ∷ name)
name-Reads [] named = absurd named
name-Reads (c ∷ word) (letter, all, short, free) =
    word-Reads c word false letter all (omega arith) free

register_word :
    (r : ℕ)
    → r < 16
    → (word : Chars) × (register_name r ≡ 82 ∷ word) × All lexer_is_alnum word × (length word < 255)
unfolding register_name lexer_is_alnum lexer_is_digit lexer_is_alpha alpha_table length
register_word r small = elim (Bool-cases (ltb r 10)) [
  | inl short ↦ ((48 + r) ∷ [], rw short, (ground arith, tt), omega arith)
  | inr long ↦ (49 ∷ (48 + (r - 10)) ∷ [], rw long, (refl, (ground arith, tt)), omega arith)
]

-- The name of a register behind a space.
pub register-Reads :
    (r : ℕ) → r < 16 → Reads Apart TokenType.register (register_name r) 0 (32 ∷ register_name r)
register-Reads r small =
    let (word, spelled, all, short) = register_word r small in
    let is : is_register_token (82 ∷ word) ≡ true =
      ap is_register_token (sym spelled) ∙ (register_names.0 r small).0 in
    subst (λ name. Reads Apart TokenType.register name 0 (32 ∷ name)) (sym spelled)
      (word-Reads 82 word true (unfold lexer_is_alpha alpha_table in refl) all short is).1
