-- ===== src/Lexer/Pending.antt =====
-- What the lexer has still to give out, counted in characters and a kept token.
use dez.Base.{
  ℕ, ◌+◌, ◌<◌, ◌≤◌, ◌≡◌, ◌⊎◌, refl, sym, subst, ap, ◌∙◌, Option, none, some, [], ◌++◌, Chars,
  length, length-append, append_assoc, inl, inr, arith,
}
use dez.Lexer.Tokens.{TokenType, Token, Lexer}
use dez.Lexer.Scan.{lexer_next_token, lexer_peek_token}
use dez.Symbols.Find.{Option-cases}
use dez.Lexer.Progress.{lexer_next_token-Consumed}
use dez.Lexer.Consumed.{IsProper, Consumed}

-- The input, whatever the position.
abbrev pub input_of : Lexer → Chars
input_of lexer = lexer.passed ++ lexer.rest

abbrev pub type_weight : TokenType → ℕ
type_weight TokenType.eof = 0
type_weight _ = 1

-- A kept token counts as one, but not the end of the input.
abbrev pub weight : Option Token → ℕ
weight none = 0
weight (some token) = type_weight token.type

abbrev pub pending : Lexer → ℕ
pending lexer = weight lexer.current_token + length lexer.rest

-- A kept token is a token of the input, and it is the end only when nothing is left.
abbrev pub IsKept : Option Token → Chars → Type 0
IsKept none rest = Unit
IsKept (some token) rest = ((token.type ≡ TokenType.eof) × (rest ≡ [])) ⊎ IsProper token.type

abbrev pub IsReady : Lexer → Type 0
IsReady lexer = IsKept lexer.current_token lexer.rest

-- The lexer has moved on in the same input.
pub record Moves (lexer lexer' : Lexer) : Type 0 where
  pub input : input_of lexer' ≡ input_of lexer
  pub fewer : pending lexer' ≤ pending lexer
  pub ready : IsReady lexer'

pub Moves-trans : {k l m : Lexer} → Moves k l → Moves l m → Moves k m
Moves-trans p q = record {
  input = q.input ∙ p.input;
  fewer = omega (arith, p.fewer, q.fewer);
  ready = q.ready;
}

pub Moves-refl : {l : Lexer} → IsReady l → Moves l l
Moves-refl ready = record { input = refl; fewer = omega arith; ready = ready }

pub light : (type : TokenType) → type_weight type ≤ 1
light TokenType.eof = omega arith
light _ = omega arith

proper-heavy : (type : TokenType) → IsProper type → type_weight type ≡ 1
proper-heavy TokenType.eof proper = absurd proper
proper-heavy _ proper = refl

Consumed-input :
    (lexer : Lexer) (result : Token × Lexer)
    → Consumed lexer result
    → input_of result.1 ≡ input_of lexer
Consumed-input lexer result p =
    ap (λ passed. passed ++ result.1.rest) p.behind
    ∙ append_assoc lexer.passed p.over result.1.rest
    ∙ ap (λ rest. lexer.passed ++ rest) (sym p.split)

Consumed-length :
    (lexer : Lexer) (result : Token × Lexer)
    → (p : Consumed lexer result) → length lexer.rest ≡ length p.over + length result.1.rest
Consumed-length lexer result p = ap length p.split ∙ length-append p.over result.1.rest

-- A token just read can be kept, and then no more is pending than before.
Consumed-IsKept :
    (lexer : Lexer) (result : Token × Lexer)
    → Consumed lexer result
    → (type_weight result.0.type + length result.1.rest ≤ length lexer.rest)
      × IsKept (some result.0) result.1.rest
Consumed-IsKept lexer result p = elim p.progress [
  | inl (ended, nothing) ↦
      (omega (arith, ap type_weight ended, Consumed-length lexer result p), inl (ended, nothing))
  | inr (proper, more) ↦
      (omega (arith, light result.0.type, more, Consumed-length lexer result p), inr proper)
]

-- Reading gives out a kept token; looking keeps a token that is read, and leaves a kept one.
pub next-kept :
    (lexer : Lexer) (token : Token)
    → lexer.current_token ≡ some token
    → lexer_next_token lexer ≡ (token, record lexer { current_token = none })
unfolding lexer_next_token
next-kept lexer token kept = ground arith

pub peek-free :
    (lexer : Lexer)
    → lexer.current_token ≡ none
    → lexer_peek_token lexer ≡ (
      (lexer_next_token lexer).0,
      record (lexer_next_token lexer).1 { current_token = some (lexer_next_token lexer).0 },
    )
unfolding lexer_peek_token
peek-free lexer free = ground arith

pub peek-again :
    (lexer : Lexer) (token : Token)
    → lexer.current_token ≡ some token
    → lexer_peek_token lexer ≡ (token, lexer)
unfolding lexer_peek_token
peek-again lexer token kept = ground arith

-- Reading a token moves on.
pub next-Moves : (lexer : Lexer) → IsReady lexer → Moves lexer (lexer_next_token lexer).1
next-Moves lexer ready = elim (Option-cases lexer.current_token) [
  | inl free ↦
      let p = lexer_next_token-Consumed lexer free in
      let unkept : _ = p.free ∙ free in
      record {
        input = Consumed-input lexer _ p;
        fewer = omega (arith, ap weight unkept, Consumed-length lexer _ p);
        ready = subst (λ o. IsKept o (lexer_next_token lexer).1.rest) (sym unkept) tt;
      }
  | inr (token, kept) ↦
      subst (λ (r : Token × Lexer). Moves lexer r.1) (sym (next-kept lexer token kept))
        (record { input = refl; fewer = omega arith; ready = tt })
]

-- A kept token that is not the end is given out.
pub next-fewer :
    (lexer : Lexer) (token : Token)
    → lexer.current_token ≡ some token
    → IsProper token.type
    → pending (lexer_next_token lexer).1 < pending lexer
next-fewer lexer token kept proper =
    subst (λ (r : Token × Lexer). pending r.1 < pending lexer) (sym (next-kept lexer token kept))
      (omega (arith, ap weight kept, proper-heavy token.type proper))

-- A token that is looked at is kept.
pub peek-kept :
    (lexer : Lexer) → (lexer_peek_token lexer).1.current_token ≡ some (lexer_peek_token lexer).0
unfolding lexer_peek_token
peek-kept lexer = ground arith

pub peek-Moves : (lexer : Lexer) → IsReady lexer → Moves lexer (lexer_peek_token lexer).1
peek-Moves lexer ready = elim (Option-cases lexer.current_token) [
  | inl free ↦
      let p = lexer_next_token-Consumed lexer free in
      let (room, ready') = Consumed-IsKept lexer _ p in
      subst (λ (r : Token × Lexer). Moves lexer r.1) (sym (peek-free lexer free))
        (record { input = Consumed-input lexer _ p; fewer = omega (arith, room); ready = ready' })
  | inr (token, kept) ↦
      subst (λ (r : Token × Lexer). Moves lexer r.1) (sym (peek-again lexer token kept))
        (Moves-refl ready)
]
