-- ===== src/Parser/Reads.antt =====
-- What the parser's token helpers do in front of a text that the lexer reads.
use dez.Base.{
  append-nil, ==-refl, ℕ, ◌≡◌, refl, sym, ap, ◌∙◌, true, some, [], ◌++◌, append_assoc, Chars,
}
use dez.Lexer.{TokenType, Token, Lexer, lexer_next_token}
use dez.Lexer.Pending.{peek-free}
use dez.Lexer.Reads.{standing, IsRead, Reads}
use dez.Parser.State.{
  Parser, parser_current_token, parser_advance, type_code, parser_expect_token,
  parser_consume_token,
}

-- The parser with its lexer between two tokens.
abbrev pub at : Parser → Chars → Chars → ℕ → ℕ → Parser
at parser passed rest line column = record parser { lexer = standing passed rest line column }

-- The same, where a token has been looked at.
abbrev pub looking : Parser → Token → Chars → Chars → ℕ → ℕ → Parser
looking parser token passed rest line column = record parser {
  lexer = record {
    passed = passed;
    rest = rest;
    line = line;
    column = column;
    current_token = some token;
  };
}

-- `f` uses up the text `over` and gives `a`, where the input goes on as `Next` says.
abbrev pub Parses {ℓ} : {A : Type ℓ} → (Parser → A × Parser) → A → (Chars → Type 0) → Chars → Type ℓ
Parses f a Next over =
    (parser : Parser) (passed rest : Chars) (line column : ℕ)
    → Next rest
    → (line' : ℕ) × (column' : ℕ) × (f (at parser passed (over ++ rest) line column)
        ≡ (a, at parser (passed ++ over) rest line' column'))

pub current-Reads :
    {type : TokenType} {value : Chars} {n : ℕ} {over passed rest : Chars} {line column : ℕ}
    (parser : Parser)
    → (r : IsRead (λ input. lexer_next_token) type value n over passed rest line column)
    → parser_current_token (at parser passed (over ++ rest) line column)
      ≡ (r.token, looking parser r.token (passed ++ over) rest r.line' r.column')
unfolding parser_current_token
current-Reads {over = over} {passed = passed} {rest = rest} {line = line} {column = column} parser
      r =
    ap (λ (l : Token × Lexer). (l.0, record parser { lexer = l.1 }))
      (peek-free (standing passed (over ++ rest) line column) refl
        ∙ ap (λ (l : Token × Lexer). (l.0, record (l.1) { current_token = some l.0 })) r.run)

pub looking-advance :
    (parser : Parser) (token : Token) (passed rest : Chars) (line column : ℕ)
    → parser_advance (looking parser token passed rest line column)
      ≡ at parser passed rest line column
unfolding parser_advance lexer_next_token
looking-advance parser token passed rest line column = refl

pub looking-current :
    (parser : Parser) (token : Token) (passed rest : Chars) (line column : ℕ)
    → parser_current_token (looking parser token passed rest line column)
      ≡ (token, looking parser token passed rest line column)
unfolding parser_current_token dez.Lexer.lexer_peek_token
looking-current parser token passed rest line column = refl

-- A token of the expected type is used up.
pub consume-Parses :
    (type : TokenType) {value over : Chars} {n : ℕ} {Next : Chars → Type 0}
    → Reads Next type value n over
    → Parses (parser_consume_token type) true Next over
unfolding parser_consume_token parser_expect_token parser_advance lexer_next_token
consume-Parses type reads parser passed rest line column next =
    let r = reads passed rest line column next in
    (r.line', r.column', rw (current-Reads parser r, r.token_type, ==-refl (type_code type)))

-- A token in front of a text that `g` uses up.
pub after_token {ℓ} :
    {B : Type ℓ} {type : TokenType} {value over1 over2 : Chars} {n : ℕ}
    {Next1 Next : Chars → Type 0} {b : B} (H : Token → Parser → B × Parser)
    (g : Parser → B × Parser)
    → Reads Next1 type value n over1
    → ((token : Token) (parser : Parser)
        → token.type ≡ type
        → token.value ≡ value
        → token.num_value ≡ n
        → H token parser ≡ g (parser_advance parser))
    → Parses g b Next over2
    → ((rest : Chars) → Next rest → Next1 (over2 ++ rest))
    → Parses
        (λ parser. H (parser_current_token parser).0 (parser_current_token parser).1)
        b
        Next
        (over1 ++ over2)
after_token {B = B} {over1 = over1} {over2 = over2} {b = b} H g reads by rest_of goes parser passed
      rest line column next =
    let r = reads passed (over2 ++ rest) line column (goes rest next) in
    let (line', column', run) = rest_of parser (passed ++ over1) rest r.line' r.column' next in
    (
      line',
      column',
      ap (λ text. F (at parser passed text line column)) (append_assoc over1 over2 rest)
          ∙ ap (λ (l : Token × Parser). H l.0 l.1) (current-Reads parser r)
          ∙ by r.token _ r.token_type r.token_value r.token_num_value
          ∙ ap g
              (looking-advance parser r.token (passed ++ over1) (over2 ++ rest) r.line' r.column')
          ∙ run
          ∙ ap (λ p. (b, at parser p rest line' column')) (append_assoc passed over1 over2),
    )
  where
    F : Parser → B × Parser
    F parser = H (parser_current_token parser).0 (parser_current_token parser).1

-- One text after the other.
pub one_then {ℓ κ} :
    {A : Type ℓ} {B : Type κ} {over1 over2 : Chars} {a : A} {b : B} {Next1 Next : Chars → Type 0}
    (f : Parser → A × Parser) (G : A → Parser → B × Parser)
    → Parses f a Next1 over1
    → Parses (G a) b Next over2
    → ((rest : Chars) → Next rest → Next1 (over2 ++ rest))
    → Parses (λ parser. G (f parser).0 (f parser).1) b Next (over1 ++ over2)
one_then {A = A} {B = B} {over1 = over1} {over2 = over2} {a = a} {b = b} f G first second goes
      parser passed rest line column next =
    let (line1, column1, run1) = first parser passed (over2 ++ rest) line column (goes rest next) in
    let (line', column', run2) = second parser (passed ++ over1) rest line1 column1 next in
    (
      line',
      column',
      ap (λ text. F (at parser passed text line column)) (append_assoc over1 over2 rest)
          ∙ ap (λ (r : A × Parser). G r.0 r.1) run1
          ∙ run2
          ∙ ap (λ p. (b, at parser p rest line' column')) (append_assoc passed over1 over2),
    )
  where
    F : Parser → B × Parser
    F parser = G (f parser).0 (f parser).1

-- No text.
pub nothing-Parses {ℓ} :
    {A : Type ℓ} (a : A) (Next : Chars → Type 0) → Parses (λ parser. (a, parser)) a Next []
nothing-Parses a Next parser passed rest line column next =
    (line, column, ap (λ p. (a, at parser p rest line column)) (sym (append-nil passed)))
