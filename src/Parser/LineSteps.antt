-- ===== src/Parser/LineSteps.antt =====
-- A line, by its first token: if it ends well, it has used up a token.
use dez.Base.{
  Option, some, ◌&&◌, not, ◌==◌, ℕ, zero, suc, ◌<◌, ◌≡◌, refl, ap, ◌∙◌, Bool, true, false, none,
  Bool-cases, if_both, Chars, length, same_chars, ◌⊎◌, inl, inr, codes, arith,
}
use dez.Lexer.{TokenType, Token, Lexer}
use dez.Lexer.Pending.{pending, Moves-refl, peek-again}
use dez.Parser.Operands.{Operand}
use dez.Parser.State.{
  type_code, Parser, parser_current_token, parser_peek_token, parser_advance, parser_consume_token,
}
use dez.Parser.Statements.{instruction_by, parser_parse_instruction, find_mnemonic, mnemonics}
use dez.Parser.Lines.{
  define_label, define_constant, ends_line, skip_line, label_line, line_skipped, constant_value,
  parser_parse_constant, instruction_line, constant_or_instruction, labelled_line,
}
use dez.Parser.Quiet.{
  Quiet, Quiet-refl, ◌then◌, Ready, kept, current-Quiet, advance-Quiet, expected-Quiet,
  consume-Quiet, known-Quiet,
}
use dez.Parser.Looked.{looked-AtToken, pending-light}
use dez.Parser.Follow.{
  Quiet-Follows, AtToken, Steps, after_advance, advance-fewer, current-again, known-fewer,
  finish-Steps,
}

instruction_by-Quiet :
    (unset : ℕ → Operand) (type : TokenType) (token : Token) (parser : Parser)
    → Ready parser
    → Quiet parser (instruction_by unset type token parser).1
unfolding instruction_by
instruction_by-Quiet unset TokenType.identifier token parser ready =
    known-Quiet unset (find_mnemonic mnemonics token.value) parser ready
instruction_by-Quiet unset _ token parser ready = Quiet-refl parser ready

instruction_by-fewer :
    (unset : ℕ → Operand) (type : TokenType) (token : Token) {parser : Parser}
    → AtToken parser token
    → ((instruction_by unset type token parser).0 ≡ none)
      ⊎ (pending (instruction_by unset type token parser).1.lexer < pending parser.lexer)
unfolding instruction_by
instruction_by-fewer unset TokenType.identifier token at =
    known-fewer unset (find_mnemonic mnemonics token.value) at
instruction_by-fewer unset _ token at = inl refl

peek_again :
    {parser : Parser} {token : Token}
    → AtToken parser token
    → parser_peek_token parser ≡ (token, parser)
unfolding parser_peek_token
peek_again {parser} {token} at =
    ap (λ (r : Token × _). (r.0, record parser { lexer = r.1 }))
      (peek-again parser.lexer token at.there)

label-Quiet :
    (name : Chars) (line : ℕ) (parser : Parser)
    → Ready parser
    → Quiet parser (define_label name line parser)
unfolding define_label
label-Quiet name line parser ready = kept (Moves-refl ready) refl refl refl refl refl

constant-Quiet :
    (name : Chars) (value line : ℕ) (parser : Parser)
    → Ready parser
    → Quiet parser (define_constant name value line parser)
unfolding define_constant
constant-Quiet name value line parser ready = kept (Moves-refl ready) refl refl refl refl refl

value-Quiet :
    (name : Token) (parser : Parser) → Ready parser → Quiet parser (constant_value name parser).1
unfolding constant_value
value-Quiet name parser ready =
    let P : Bool × Parser → Type 0 = λ r. Quiet parser r.1 in
    let (token, parser1) = parser_current_token parser in
    let looked : Quiet parser parser1 = current-Quiet parser ready in
    let read : Quiet parser (parser_advance parser1) = looked then advance-Quiet parser1 in
    if_both P (not (type_code token.type == type_code TokenType.number))
      (looked then expected-Quiet (codes "number") parser1)
      (if_both P ((parser_advance parser1).pass == 1)
        (read then constant-Quiet name.value token.num_value name.line (parser_advance parser1))
        read)

not_ended :
    (type : TokenType)
    → ends_line type ≡ false
    → (type_code type == type_code TokenType.eof) ≡ false
unfolding ends_line type_code
not_ended TokenType.eof on = absurd (ground arith)
not_ended TokenType.newline on = refl
not_ended _ on = refl

-- With more rounds than tokens are pending the loop ends.
skip_line-total :
    (fuel : ℕ) (parser : Parser)
    → Ready parser
    → pending parser.lexer < fuel
    → (next : Parser) × (skip_line fuel parser ≡ some next) × Quiet parser next
unfolding skip_line
skip_line-total zero parser ready enough = absurd (omega arith)
skip_line-total (suc fuel) parser ready enough =
    let (token, parser') = parser_current_token parser in
    let looked = current-Quiet parser ready in
    let branch : Bool → Option Parser = λ b. elim b as (λ _. Option Parser) [
      | true ↦ some parser'
      | false ↦ skip_line fuel (parser_advance parser')
    ] in
    elim (Bool-cases (ends_line token.type)) [
      | inl ends ↦ (parser', ap branch ends, looked)
      | inr on ↦
          let at = looked-AtToken parser ready (not_ended token.type on) in
          let advanced = advance-Quiet parser' at.ready in
          let (next, run, quiet) =
            skip_line-total fuel (parser_advance parser') advanced.moves.ready
              (omega (arith, looked.moves.fewer, advance-fewer at)) in
          (next, ap branch on ∙ run, looked then λ _. advanced then λ _. quiet)
    ]

skip_line-on :
    {parser : Parser} {token : Token} (fuel : ℕ)
    → AtToken parser token
    → ends_line token.type ≡ false
    → skip_line (suc fuel) parser ≡ skip_line fuel (parser_advance parser)
unfolding skip_line
skip_line-on {parser} {token} fuel at on = rw (skip_line, current-again at, on, current-again at)

-- A line ends, and then as `Steps` says.
abbrev pub Does : Parser → Option (Bool × Parser) → Type 0
Does parser line = (result : Bool × Parser) × (line ≡ some result) × Steps parser result

-- The rest of a line behind a kept token of it, from where nothing but the symbol table has changed.
skipped-Does :
    {parser : Parser} {token : Token} (parser' : Parser)
    → AtToken parser token
    → ends_line token.type ≡ false
    → Quiet parser parser'
    → parser'.lexer ≡ parser.lexer
    → Does parser (line_skipped (skip_line (suc (suc (length parser'.lexer.rest))) parser'))
unfolding line_skipped
skipped-Does {parser} {token} parser' at on q same =
    let fuel : ℕ = suc (length parser'.lexer.rest) in
    let at' : AtToken parser' token = record {
      ready = q.moves.ready;
      there = ap (λ (l : Lexer). l.current_token) same ∙ at.there;
      proper = at.proper;
    } in
    let advanced = advance-Quiet parser' at'.ready in
    let (next, run, quiet) =
      skip_line-total fuel (parser_advance parser') advanced.moves.ready
        (omega (arith, advance-fewer at', pending-light parser'.lexer)) in
    (
      (true, next),
      ap line_skipped (skip_line-on fuel at' on ∙ run),
      record {
        follows = Quiet-Follows (q then λ _. advanced then λ _. quiet);
        used = λ _. omega (arith, q.moves.fewer, advance-fewer at', quiet.moves.fewer);
      },
    )

module _ (union : Operand → ℕ) (unset : ℕ → Operand) {parser : Parser} {token : Token}
    (at : AtToken parser token) where
  instruction_line-Steps : Steps parser (instruction_line union unset parser)
  unfolding instruction_line parser_parse_instruction
  instruction_line-Steps = rw (current-again at) (
      finish-Steps union (instruction_by unset token.type token parser).0 parser _
        (instruction_by-Quiet unset token.type token parser at.ready)
        (instruction_by-fewer unset token.type token at))

  constant-Steps : Steps parser (parser_parse_constant parser)
  unfolding parser_parse_constant
  constant-Steps = rw (current-again at) (
      let advanced : Ready (parser_advance parser) = (advance-Quiet parser at.ready).moves.ready in
      let (found, parser2) = parser_consume_token TokenType.identifier (parser_advance parser) in
      let (next, parser3) = parser_current_token parser2 in
      let word : Quiet (parser_advance parser) parser2 = consume-Quiet _ _ advanced in
      let looked : Quiet (parser_advance parser) parser3 = word then current-Quiet parser2 in
      if_both (Steps parser) (not found)
        (after_advance at (word then expected-Quiet (codes "EQU") parser2))
        (if_both (Steps parser) (not (same_chars next.value (codes "EQU")))
          (after_advance at (looked then expected-Quiet (codes "EQU") parser3))
          (after_advance at
            (looked then advance-Quiet parser3 then value-Quiet token (parser_advance parser3)))))

  constant_or_instruction-Steps : Steps parser (constant_or_instruction union unset parser)
  unfolding constant_or_instruction
  constant_or_instruction-Steps = rw (peek_again at) (
      if_both (Steps parser)
        (type_code token.type == type_code TokenType.identifier
          && same_chars token.value (codes "EQU"))
        constant-Steps instruction_line-Steps)

  label_line-Does : ends_line token.type ≡ false → Does parser (label_line token parser)
  unfolding label_line define_label
  label_line-Does on =
      let P : Parser → Type 0 =
        λ p. Does parser (line_skipped (skip_line (suc (suc (length p.lexer.rest))) p)) in
      if_both P (parser.pass == 1)
        (skipped-Does _ at on (label-Quiet token.value token.line parser at.ready) refl)
        (skipped-Does _ at on (Quiet-refl parser at.ready) refl)

-- A line that does not start with a comment or end the input.
pub labelled_line-Does :
    (union : Operand → ℕ) (unset : ℕ → Operand) (type : TokenType) {parser : Parser} {token : Token}
    → AtToken parser token
    → token.type ≡ type
    → Does parser (labelled_line union unset type token parser)
unfolding labelled_line
labelled_line-Does union unset TokenType.newline at is =
    (_, refl, after_advance at (Quiet-refl _ (advance-Quiet _ at.ready).moves.ready))
labelled_line-Does union unset TokenType.comment at is =
    (_, refl, after_advance at (Quiet-refl _ (advance-Quiet _ at.ready).moves.ready))
labelled_line-Does union unset TokenType.identifier {parser} {token} at is =
    if_both (Does parser) _
      (label_line-Does union unset at (ap ends_line is ∙ unfold ends_line in refl))
      (_, refl, constant_or_instruction-Steps union unset at)
labelled_line-Does union unset _ at is = (_, refl, instruction_line-Steps union unset at)
