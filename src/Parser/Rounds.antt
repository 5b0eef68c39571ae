-- ===== src/Parser/Rounds.antt =====
-- The rounds of a pass over a line: one for the statement or the label, and one for the end of the line.
use dez.Base.{ℕ, suc, ◌≡◌, ◌≢◌, refl, ap, ◌∙◌, true, false, some, none, [], ◌∷◌, ◌++◌, Chars, ◌==◌}
use dez.Isa.Instruction.{InstructionType}
use dez.Lexer.{TokenType, Token}
use dez.Lexer.Signs.{newline-Reads}
use dez.Parser.Operands.{Operand}
use dez.Parser.State.{Parser, type_code, parser_current_token}
use dez.Parser.Lines.{last_solid, finish, labelled_line, parser_parse_line_with_labels}
use dez.Parser.Passes.{parse_lines}
use dez.Parser.Reads.{at, looking, current-Reads, looking-current, looking-advance}
use dez.Parser.Source.{name_of, statement_text}
use dez.Parser.StatementText.{parsed, AllWritable}
use dez.Parser.LineText.{line_lem}
use dez.Parser.Total.{continued}

module _ (union : Operand → ℕ) (unset : ℕ → Operand) where
  -- One round, at a token that is not the end.
  pub round :
      (fuel : ℕ) (parser : Parser) (type : TokenType) (next : Parser)
      → parser.error ≡ false
      → (parser_current_token parser).0.type ≡ type
      → (type_code type == type_code TokenType.eof) ≡ false
      → parser_parse_line_with_labels union unset (parser_current_token parser).1
        ≡ some (true, next)
      → parse_lines union unset (suc fuel) parser ≡ parse_lines union unset fuel next
  round fuel parser type next fine is on ran =
      continued union unset fuel parser next fine
        (ap (λ t. type_code t == type_code TokenType.eof) is ∙ on) ran

  newline_line :
      (parser : Parser) (token : Token) (passed rest : Chars) (line column : ℕ)
      → token.type ≡ TokenType.newline
      → parser_parse_line_with_labels union unset (looking parser token passed rest line column)
        ≡ some (true, at parser passed rest line column)
  unfolding parser_parse_line_with_labels labelled_line
  newline_line parser token passed rest line column is =
      ap (λ (l : Token × Parser). labelled_line union unset l.0.type l.0 l.1)
        (looking-current parser token passed rest line column)
      ∙ ap (λ t. labelled_line union unset t token (looking parser token passed rest line column))
          is
      ∙ ap (λ p. some (true, p)) (looking-advance parser token passed rest line column)

  -- The end of a line that has been looked at.
  pub newline_seen :
      (fuel : ℕ) (parser : Parser) (token : Token) (passed rest : Chars) (line column : ℕ)
      → parser.error ≡ false
      → token.type ≡ TokenType.newline
      → parse_lines union unset (suc fuel) (looking parser token passed rest line column)
        ≡ parse_lines union unset fuel (at parser passed rest line column)
  newline_seen fuel parser token passed rest line column fine is =
      let seen = looking-current parser token passed rest line column in
      round fuel (looking parser token passed rest line column) TokenType.newline _ fine
        (ap (λ (l : Token × Parser). l.0.type) seen ∙ is) (unfold type_code in refl)
        (ap (λ (l : Token × Parser). parser_parse_line_with_labels union unset l.1) seen
          ∙ newline_line parser token passed rest line column is)

  -- The end of a line.
  pub newline_next :
      (fuel : ℕ) (parser : Parser) (passed rest : Chars) (line column : ℕ)
      → parser.error ≡ false
      → (line' : ℕ) × (column' : ℕ) × (parse_lines union unset
            (suc fuel)
            (at parser passed (b'\n' ∷ rest) line column)
          ≡ parse_lines union unset fuel (at parser (passed ++ b'\n' ∷ []) rest line' column'))
  newline_next fuel parser passed rest line column fine =
      let r = newline-Reads passed rest line column tt in
      let seen = current-Reads parser r in
      (
        r.line',
        r.column',
        round fuel (at parser passed (b'\n' ∷ rest) line column) TokenType.newline _ fine
            (ap (λ (l : Token × Parser). l.0.type) seen ∙ r.token_type) (unfold type_code in refl)
            (ap (λ (l : Token × Parser). parser_parse_line_with_labels union unset l.1) seen
              ∙ newline_line parser r.token (passed ++ b'\n' ∷ []) rest r.line' r.column'
                  r.token_type),
      )

  -- A statement and the end of its line; `after` is the parser that has done with the statement.
  pub statement_rounds :
      (fuel : ℕ) (type : InstructionType) (operands : ℕ → Operand) (parser after : Parser)
      (passed rest : Chars) (line column : ℕ)
      → name_of type ≢ []
      → AllWritable type operands
      → last_solid none passed ≡ none
      → parser.error ≡ false
      → after.error ≡ false
      → ((line' column' : ℕ)
          → finish union
              (some (parsed unset type operands))
              (at parser (passed ++ statement_text type operands) (b'\n' ∷ rest) line' column')
            ≡ (
              true,
              at after (passed ++ statement_text type operands) (b'\n' ∷ rest) line' column',
            ))
      → (line' : ℕ) × (column' : ℕ) × (parse_lines union unset
            (suc (suc fuel))
            (at parser passed (statement_text type operands ++ b'\n' ∷ rest) line column)
          ≡ parse_lines union unset fuel (
              at after ((passed ++ statement_text type operands) ++ b'\n' ∷ []) rest line' column'))
  statement_rounds fuel type operands parser after passed rest line column spoken writable start
        fine fine' done =
      let (line1, column1, word, ran) =
        line_lem union unset type operands spoken writable parser passed rest line column start in
      let (line2, column2, next) =
        newline_next fuel after (passed ++ statement_text type operands) rest line1 column1 fine' in
      (
        line2,
        column2,
        round (suc fuel) _ TokenType.identifier _ fine word (unfold type_code in refl)
              (ran ∙ ap some (done line1 column1))
            ∙ next,
      )
