-- ===== src/Parser/Looked.antt =====
-- The token that the parser looks at, and how many tokens there can be.
use dez.Base.{suc, ◌<◌, ◌≡◌, subst, ap, false, Option, some, Chars, length, ◌==◌, inl, inr, arith}
use dez.Symbols.Find.{Option-cases}
use dez.Lexer.{TokenType, Token, Lexer}
use dez.Lexer.Consumed.{IsProper}
use dez.Lexer.Pending.{pending, IsKept, peek-kept, light, weight}
use dez.Parser.State.{Parser, type_code, parser_current_token}
use dez.Parser.Quiet.{Ready, current-Quiet}
use dez.Parser.Follow.{AtToken}

-- A kept token whose type is not that of the end is proper.
proper_kept :
    (token : Token) (rest : Chars)
    → IsKept (some token) rest
    → (type_code token.type == type_code TokenType.eof) ≡ false
    → IsProper token.type
unfolding type_code
proper_kept token rest (inl (ended, nothing)) on = absurd (ground (arith, ap type_code ended))
proper_kept token rest (inr proper) on = proper

looked_there :
    (parser : Parser)
    → (parser_current_token parser).1.lexer.current_token ≡ some (parser_current_token parser).0
unfolding parser_current_token
looked_there parser = peek-kept parser.lexer

-- The token at which a parser looks is kept.
pub looked-AtToken :
    (parser : Parser)
    → Ready parser
    → (type_code (parser_current_token parser).0.type == type_code TokenType.eof) ≡ false
    → AtToken (parser_current_token parser).1 (parser_current_token parser).0
looked-AtToken parser ready on =
    let (token, parser') = parser_current_token parser in
    let ready' : Ready parser' = (current-Quiet parser ready).moves.ready in
    record {
      ready = ready';
      there = looked_there parser;
      proper =
          proper_kept token parser'.lexer.rest
            (subst (λ (o : Option Token). IsKept o parser'.lexer.rest) (looked_there parser) ready')
            on;
    }

pub pending-light : (lexer : Lexer) → pending lexer < suc (suc (length lexer.rest))
pending-light lexer = elim (Option-cases lexer.current_token) [
  | inl free ↦ omega (arith, ap weight free)
  | inr (token, there) ↦ omega (arith, ap weight there, light token.type)
]
