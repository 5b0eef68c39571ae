-- ===== src/Parser/Quiet.antt =====
-- What the parser's functions below the lines leave alone: the code, the counters and the pass. They
-- move on in the input.
use dez.Base.{
  ℕ, zero, suc, ◌+◌, ◌≡◌, refl, ◌∙◌, Bool, Option, none, some, Bool-cases, if_both, Chars, assign,
  inl, inr,
}
use dez.Symbols.Find.{Option-cases}
use dez.Lexer.{TokenType, Token}
use dez.Lexer.Pending.{IsReady, Moves, Moves-trans, Moves-refl, next-Moves, peek-Moves}
use dez.Parser.Operands.{Operand}
use dez.Parser.State.{
  Parser, parser_current_token, parser_advance, parser_expect_token, parser_consume_token,
  parser_error, parser_expected,
}
use dez.Parser.Statements.{
  close_bracket, address_operand, memory_operand, number_operand, hash_operand, operand_by,
  parser_parse_operand, Mnemonic, separator, parse_operands, parse_known,
}

pub record Quiet (parser parser' : Parser) : Type 0 where
  pub moves : Moves parser.lexer parser'.lexer
  pub output : parser'.output ≡ parser.output
  pub output_size : parser'.output_size ≡ parser.output_size
  pub output_capacity : parser'.output_capacity ≡ parser.output_capacity
  pub current_address : parser'.current_address ≡ parser.current_address
  pub pass : parser'.pass ≡ parser.pass

pub Quiet-trans : {p q r : Parser} → Quiet p q → Quiet q r → Quiet p r
Quiet-trans a b = record {
  moves = Moves-trans a.moves b.moves;
  output = b.output ∙ a.output;
  output_size = b.output_size ∙ a.output_size;
  output_capacity = b.output_capacity ∙ a.output_capacity;
  current_address = b.current_address ∙ a.current_address;
  pass = b.pass ∙ a.pass;
}

-- From a lexer that is ready.
abbrev pub Ready : Parser → Type 0
Ready parser = IsReady parser.lexer

-- The code, the counters and the pass are the same by computation.
pub kept :
    {parser parser' : Parser}
    → Moves parser.lexer parser'.lexer
    → parser'.output ≡ parser.output
    → parser'.output_size ≡ parser.output_size
    → parser'.output_capacity ≡ parser.output_capacity
    → parser'.current_address ≡ parser.current_address
    → parser'.pass ≡ parser.pass
    → Quiet parser parser'
kept moves a b c d e = record {
  moves = moves;
  output = a;
  output_size = b;
  output_capacity = c;
  current_address = d;
  pass = e;
}

pub Quiet-refl : (parser : Parser) → Ready parser → Quiet parser parser
Quiet-refl parser ready = kept (Moves-refl ready) refl refl refl refl refl

pub current-Quiet : (parser : Parser) → Ready parser → Quiet parser (parser_current_token parser).1
unfolding parser_current_token
current-Quiet parser ready = kept (peek-Moves parser.lexer ready) refl refl refl refl refl

pub advance-Quiet : (parser : Parser) → Ready parser → Quiet parser (parser_advance parser)
unfolding parser_advance
advance-Quiet parser ready = kept (next-Moves parser.lexer ready) refl refl refl refl refl

pub error-Quiet :
    (message : Chars) (parser : Parser) → Ready parser → Quiet parser (parser_error message parser)
unfolding parser_error parser_current_token
error-Quiet message parser ready = kept (peek-Moves parser.lexer ready) refl refl refl refl refl

pub expected-Quiet :
    (expected : Chars) (parser : Parser)
    → Ready parser
    → Quiet parser (parser_expected expected parser)
unfolding parser_expected parser_current_token
expected-Quiet expected parser ready = kept (peek-Moves parser.lexer ready) refl refl refl refl refl

-- Then a further step from where the first has led.
infixl 30 ◌then◌
pub ◌then◌ : {p q r : Parser} → Quiet p q → (Ready q → Quiet q r) → Quiet p r
a then next = Quiet-trans a (next a.moves.ready)

pub consume-Quiet :
    (expected : TokenType) (parser : Parser)
    → Ready parser
    → Quiet parser (parser_consume_token expected parser).1
unfolding parser_consume_token parser_expect_token
consume-Quiet expected parser ready =
    let q = current-Quiet parser ready in
    if_both (λ (r : Bool × Parser). Quiet parser r.1) _ (q then advance-Quiet _) q

close-Quiet :
    (operand : Operand) (parser : Parser)
    → Ready parser
    → Quiet parser (close_bracket operand parser).1
unfolding close_bracket
close-Quiet operand parser ready =
    let q = consume-Quiet TokenType.rbracket parser ready in
    if_both (λ (r : Option Operand × Parser). Quiet parser r.1) _ q (q then expected-Quiet _ _)

address-Quiet :
    (type : TokenType) (token : Token) (parser : Parser)
    → Ready parser
    → Quiet parser (address_operand type token parser).1
unfolding address_operand
address-Quiet TokenType.number token parser ready = advance-Quiet parser ready then close-Quiet _ _
address-Quiet TokenType.identifier token parser ready =
    advance-Quiet parser ready then close-Quiet _ _
address-Quiet _ token parser ready = expected-Quiet _ parser ready

memory-Quiet : (parser : Parser) → Ready parser → Quiet parser (memory_operand parser).1
unfolding memory_operand
memory-Quiet parser ready = current-Quiet parser ready then address-Quiet _ _ _

number-Quiet :
    (type : TokenType) (token : Token) (parser : Parser)
    → Ready parser
    → Quiet parser (number_operand type token parser).1
unfolding number_operand
number-Quiet TokenType.number token parser ready = advance-Quiet parser ready
number-Quiet TokenType.identifier token parser ready = advance-Quiet parser ready
number-Quiet TokenType.lbracket token parser ready = advance-Quiet parser ready then memory-Quiet _
number-Quiet _ token parser ready = expected-Quiet _ parser ready

hash-Quiet : (parser : Parser) → Ready parser → Quiet parser (hash_operand parser).1
unfolding hash_operand
hash-Quiet parser ready = current-Quiet parser ready then number-Quiet _ _ _

operand_by-Quiet :
    (type : TokenType) (token : Token) (parser : Parser)
    → Ready parser
    → Quiet parser (operand_by type token parser).1
unfolding operand_by
operand_by-Quiet TokenType.register token parser ready = advance-Quiet parser ready
operand_by-Quiet TokenType.string token parser ready = advance-Quiet parser ready
operand_by-Quiet TokenType.number token parser ready = advance-Quiet parser ready
operand_by-Quiet TokenType.hash token parser ready = advance-Quiet parser ready then hash-Quiet _
operand_by-Quiet TokenType.lbracket token parser ready =
    advance-Quiet parser ready then memory-Quiet _
operand_by-Quiet TokenType.identifier token parser ready = advance-Quiet parser ready
operand_by-Quiet _ token parser ready = expected-Quiet _ parser ready

pub operand-Quiet : (parser : Parser) → Ready parser → Quiet parser (parser_parse_operand parser).1
unfolding parser_parse_operand
operand-Quiet parser ready = current-Quiet parser ready then operand_by-Quiet _ _ _

separator-Quiet : (i : ℕ) (parser : Parser) → Ready parser → Quiet parser (separator i parser).1
unfolding separator
separator-Quiet zero parser ready = Quiet-refl parser ready
separator-Quiet (suc i) parser ready = consume-Quiet TokenType.comma parser ready

pub operands-Quiet :
    (operands : ℕ → Operand) (i n : ℕ) (parser : Parser)
    → Ready parser
    → Quiet parser (parse_operands operands i n parser).1
unfolding parse_operands
operands-Quiet operands i zero parser ready = Quiet-refl parser ready
operands-Quiet operands i (suc n) parser ready =
    let (separated, parser1) = separator i parser in
    let (parsed, parser2) = parser_parse_operand parser1 in
    let q = separator-Quiet i parser ready in
    elim (Bool-cases separated) [
      | inl comma ↦ elim (Option-cases parsed) [
        | inl nothing ↦ rw (parse_operands, comma, nothing) (q then operand-Quiet _)
        | inr (operand, there) ↦
            rw (parse_operands, comma, there)
              (q
                then operand-Quiet _
                then operands-Quiet (assign operands i operand) (i + 1) n parser2)
      ]
      | inr missing ↦ rw (parse_operands, missing) (q then expected-Quiet _ parser1)
    ]

-- Behind the mnemonic.
pub known-Quiet :
    (unset : ℕ → Operand) (m : Option Mnemonic) (parser : Parser)
    → Ready parser
    → Quiet parser (parse_known unset m parser).1
unfolding parse_known
known-Quiet unset (some m) parser ready =
    advance-Quiet parser ready then operands-Quiet unset 0 m.num_operands _
known-Quiet unset none parser ready = error-Quiet _ parser ready
