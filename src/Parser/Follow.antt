-- ===== src/Parser/Follow.antt =====
-- What a line does to the code and to the input: it moves on, adds at most one word, and leaves the
-- words before it alone.
use dez.Base.{
  ℕ, ◌<◌, ◌≤◌, ◌≡◌, refl, ap, ◌∙◌, Bool, true, Option, none, some, if_both, if_cases, ltb, ltb→lt,
  ◌⊎◌, inl, inr, arith,
}
use dez.Lexer.{Token}
use dez.Lexer.Consumed.{IsProper}
use dez.Lexer.Pending.{pending, Moves, Moves-trans, Moves-refl, next-fewer, peek-again}
use dez.Parser.Operands.{Operand, ParsedInstruction}
use dez.Parser.State.{Parser, parser_current_token, parser_advance}
use dez.Parser.Statements.{Mnemonic, parse_known}
use dez.Parser.Lines.{emit, finish}
use dez.Parser.Quiet.{
  Quiet, Quiet-refl, ◌then◌, Ready, kept, advance-Quiet, error-Quiet, operands-Quiet,
}

pub record Follows (parser parser' : Parser) : Type 0 where
  pub moves : Moves parser.lexer parser'.lexer
  pub output_capacity : parser'.output_capacity ≡ parser.output_capacity
  pub pass : parser'.pass ≡ parser.pass
  pub more : parser.output_size ≤ parser'.output_size
  pub fits :
      parser.output_size ≤ parser.output_capacity → parser'.output_size ≤ parser.output_capacity
  pub earlier : (i : ℕ) → i < parser.output_size → parser'.output i ≡ parser.output i
  pub beyond : (i : ℕ) → parser'.output_size ≤ i → parser'.output i ≡ parser.output i

pub Quiet-Follows : {p q : Parser} → Quiet p q → Follows p q
Quiet-Follows {p} {q} a = record {
  moves = a.moves;
  output_capacity = a.output_capacity;
  pass = a.pass;
  more = omega (arith, a.output_size);
  fits = λ h. omega (arith, a.output_size);
  earlier = λ i h. ap (λ (f : ℕ → ℕ). f i) a.output;
  beyond = λ i h. ap (λ (f : ℕ → ℕ). f i) a.output;
}

pub Follows-trans : {p q r : Parser} → Follows p q → Follows q r → Follows p r
Follows-trans {p} {q} {r} a b = record {
  moves = Moves-trans a.moves b.moves;
  output_capacity = b.output_capacity ∙ a.output_capacity;
  pass = b.pass ∙ a.pass;
  more = omega (arith, a.more, b.more);
  fits = λ h.
      let fit : q.output_size ≤ p.output_capacity = a.fits h in
      omega (arith, a.output_capacity, b.fits (omega (arith, fit, a.output_capacity)));
  earlier = λ i h. b.earlier i (omega (arith, a.more)) ∙ a.earlier i h;
  beyond = λ i h. b.beyond i h ∙ a.beyond i (omega (arith, b.more));
}

-- A kept token that is neither the end nor a comment.
pub record AtToken (parser : Parser) (token : Token) : Type 0 where
  pub ready : Ready parser
  pub there : parser.lexer.current_token ≡ some token
  pub proper : IsProper token.type

-- A line that ends well has used up a token.
pub record Steps (parser : Parser) (result : Bool × Parser) : Type 0 where
  pub follows : Follows parser result.1
  pub used : result.0 ≡ true → pending result.1.lexer < pending parser.lexer

pub advance-fewer :
    {parser : Parser} {token : Token}
    → AtToken parser token
    → pending (parser_advance parser).lexer < pending parser.lexer
unfolding parser_advance
advance-fewer {parser} {token} at = next-fewer parser.lexer token at.there at.proper

-- Looking at a kept token again changes nothing.
pub current-again :
    {parser : Parser} {token : Token}
    → AtToken parser token
    → parser_current_token parser ≡ (token, parser)
unfolding parser_current_token
current-again {parser} {token} at =
    ap (λ (r : Token × _). (r.0, record parser { lexer = r.1 }))
      (peek-again parser.lexer token at.there)

-- Steps that are led to by an advance over the token.
pub after_advance :
    {parser : Parser} {token : Token} {result : Bool × Parser}
    → AtToken parser token
    → Quiet (parser_advance parser) result.1
    → Steps parser result
after_advance {parser} {token} {result} at q = record {
  follows = Quiet-Follows (advance-Quiet parser at.ready then λ _. q);
  used = λ _. omega (arith, advance-fewer at, q.moves.fewer);
}

pub emit-Follows :
    (union : Operand → ℕ) (inst : ParsedInstruction) (parser : Parser)
    → Ready parser
    → Follows parser (emit union inst parser).1
unfolding emit
emit-Follows union inst parser ready =
    if_cases (λ (r : Bool × Parser). Follows parser r.1)
      (ltb parser.output_size parser.output_capacity)
      (λ room. record {
        moves = Moves-refl ready;
        output_capacity = refl;
        pass = refl;
        more = omega arith;
        fits = λ h. omega (arith, ltb→lt parser.output_size parser.output_capacity room);
        earlier = λ i h. ground arith;
        beyond = λ i h. ground arith;
      })
      (λ full.
        Quiet-Follows (kept (Moves-refl ready) refl refl refl refl refl then error-Quiet _ _))

-- A statement whose code or address is counted.
pub finish-Follows :
    (union : Operand → ℕ) (parsed : Option ParsedInstruction) (parser : Parser)
    → Ready parser
    → Follows parser (finish union parsed parser).1
unfolding finish
finish-Follows union none parser ready = Quiet-Follows (Quiet-refl parser ready)
finish-Follows union (some inst) parser ready =
    if_both (λ (r : Bool × Parser). Follows parser r.1) _ (emit-Follows union inst parser ready)
      (record {
        moves = Moves-refl ready;
        output_capacity = refl;
        pass = refl;
        more = omega arith;
        fits = λ h. h;
        earlier = λ i h. refl;
        beyond = λ i h. refl;
      })

-- A mnemonic is used up, unless it is none.
pub known-fewer :
    (unset : ℕ → Operand) (m : Option Mnemonic) {parser : Parser} {token : Token}
    → AtToken parser token
    → ((parse_known unset m parser).0 ≡ none)
      ⊎ (pending (parse_known unset m parser).1.lexer < pending parser.lexer)
unfolding parse_known
known-fewer unset none at = inl refl
known-fewer unset (some m) {parser} at =
    let advanced = advance-Quiet parser at.ready in
    inr (
      omega (
        arith,
        advance-fewer at,
        (operands-Quiet unset 0 m.num_operands (parser_advance parser)
            advanced.moves.ready).moves.fewer,
      ))

-- What the parsed instruction of a line does, when it has used up a token or is none.
pub finish-Steps :
    (union : Operand → ℕ) (parsed : Option ParsedInstruction) (parser parser' : Parser)
    → Quiet parser parser'
    → (parsed ≡ none) ⊎ (pending parser'.lexer < pending parser.lexer)
    → Steps parser (finish union parsed parser')
unfolding finish
finish-Steps union none parser parser' q used = record {
  follows = Quiet-Follows q;
  used = λ e. ground arith;
}
finish-Steps union (some inst) parser parser' q used =
    let f = finish-Follows union (some inst) parser' q.moves.ready in
    record {
      follows = Follows-trans (Quiet-Follows q) (unfold finish in f);
      used = λ e. elim used [ inl nothing ↦ cc | inr less ↦ omega (arith, less, f.moves.fewer) ];
    }
