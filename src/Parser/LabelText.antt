-- ===== src/Parser/LabelText.antt =====
-- A line with a label: the label is defined in the first pass, and the rest of the line is skipped.
use dez.Base.{
  if_both, ℕ, suc, ◌≡◌, refl, ap, ◌∙◌, Bool, true, false, Option, none, some, [], ◌∷◌, ◌++◌, Chars,
  ◌==◌, length, if◌then◌else◌,
}
use dez.Lexer.{TokenType, Token, lexer_is_alnum, lexer_is_alpha, lexer_is_digit, alpha_table}
use dez.Lexer.Words.{IsName, name-Reads}
use dez.Lexer.Signs.{colon-Reads, newline-Reads}
use dez.Parser.Operands.{Operand}
use dez.Parser.State.{Parser, type_code, parser_current_token, parser_advance}
use dez.Parser.Lines.{
  last_solid, solid_with, up_to_line_end, is_colon, line_ends_with_colon, define_label, ends_line,
  skip_line, line_skipped, label_line, labelled_line, constant_or_instruction,
  parser_parse_line_with_labels,
}
use dez.Parser.Passes.{parse_lines}
use dez.Parser.Reads.{at, looking, current-Reads, looking-current, looking-advance}
use dez.Parser.Plain.{last_solid-append}
use dez.Parser.Rounds.{round, newline_seen}

skip_over :
    (fuel : ℕ) (parser parser' : Parser) (token : Token) (type : TokenType)
    → parser_current_token parser ≡ (token, parser')
    → token.type ≡ type
    → ends_line type ≡ false
    → skip_line (suc fuel) parser ≡ skip_line fuel (parser_advance parser')
unfolding skip_line
skip_over fuel parser parser' token type seen is on =
    ap
      (λ (l : Token × Parser). elim (ends_line l.0.type) as (λ b. Option Parser) [
        | true ↦ some l.1
        | false ↦ skip_line fuel (parser_advance l.1)
      ])
      seen
    ∙ ap
        (λ (b : Bool). elim b as (λ b. Option Parser) [
          | true ↦ some parser'
          | false ↦ skip_line fuel (parser_advance parser')
        ])
        (ap ends_line is ∙ on)

skip_to :
    (fuel : ℕ) (parser parser' : Parser) (token : Token) (type : TokenType)
    → parser_current_token parser ≡ (token, parser')
    → token.type ≡ type
    → ends_line type ≡ true
    → skip_line (suc fuel) parser ≡ some parser'
unfolding skip_line
skip_to fuel parser parser' token type seen is end =
    ap
      (λ (l : Token × Parser). elim (ends_line l.0.type) as (λ b. Option Parser) [
        | true ↦ some l.1
        | false ↦ skip_line fuel (parser_advance l.1)
      ])
      seen
    ∙ ap
        (λ (b : Bool). elim b as (λ b. Option Parser) [
          | true ↦ some parser'
          | false ↦ skip_line fuel (parser_advance parser')
        ])
        (ap ends_line is ∙ end)

-- From the name of the label to the end of its line.
skipped_line :
    (fuel : ℕ) (parser : Parser) (token : Token) (passed rest : Chars) (line column : ℕ)
    → token.type ≡ TokenType.identifier
    → (t : Token) × (line' : ℕ) × (column' : ℕ) × (t.type ≡ TokenType.newline)
      × (skip_line
            (suc (suc (suc fuel)))
            (looking parser token passed (b':' ∷ b'\n' ∷ rest) line column)
          ≡ some (looking parser t ((passed ++ b':' ∷ []) ++ b'\n' ∷ []) rest line' column'))
skipped_line fuel parser token passed rest line column is =
    let c = colon-Reads passed (b'\n' ∷ rest) line column tt in
    let n = newline-Reads (passed ++ b':' ∷ []) rest c.line' c.column' tt in
    (
      n.token,
      n.line',
      n.column',
      n.token_type,
      skip_over (suc (suc fuel)) _ _ token TokenType.identifier
            (looking-current parser token passed (b':' ∷ b'\n' ∷ rest) line column) is
            (unfold ends_line in refl)
          ∙ ap (skip_line (suc (suc fuel)))
              (looking-advance parser token passed (b':' ∷ b'\n' ∷ rest) line column)
          ∙ skip_over (suc fuel) _ _ c.token TokenType.colon (current-Reads parser c) c.token_type
              (unfold ends_line in refl)
          ∙ ap (skip_line (suc fuel)) (
              looking-advance parser c.token (passed ++ b':' ∷ []) (b'\n' ∷ rest) c.line' c.column')
          ∙ skip_to fuel _ _ n.token TokenType.newline (current-Reads parser n) n.token_type
              (unfold ends_line in refl),
    )

-- The parser when it has done with the label: in the first pass the label is defined.
abbrev pub marked : Chars → ℕ → Parser → Parser
marked name line parser = if parser.pass == 1 then define_label name line parser else parser

-- The label's line is one, whatever stands before it.
ends_in_colon :
    (parser : Parser) (token : Token) (passed rest : Chars) (line column : ℕ)
    → line_ends_with_colon (looking parser token passed (b':' ∷ b'\n' ∷ rest) line column).lexer
      ≡ true
unfolding line_ends_with_colon up_to_line_end
ends_in_colon parser token passed rest line column =
    ap is_colon (last_solid-append none passed (b':' ∷ []))
    ∙ (unfold last_solid solid_with is_colon in refl)

marked_there :
    (b : Bool) (name : Chars) (n : ℕ) (parser : Parser) (token : Token) (passed rest : Chars)
    (line column : ℕ)
    → (if b
        then define_label name n (looking parser token passed rest line column)
        else looking parser token passed rest line column)
      ≡ looking (if b then define_label name n parser else parser) token passed rest line column
unfolding define_label
marked_there true name n parser token passed rest line column = refl
marked_there false name n parser token passed rest line column = refl

label_line_lem :
    (parser : Parser) (token : Token) (passed rest : Chars) (line column : ℕ)
    → token.type ≡ TokenType.identifier
    → (t : Token) × (line' : ℕ) × (column' : ℕ) × (t.type ≡ TokenType.newline)
      × (label_line token (looking parser token passed (b':' ∷ b'\n' ∷ rest) line column)
          ≡ some (
            true,
            looking
                (marked token.value token.line parser)
                t
                ((passed ++ b':' ∷ []) ++ b'\n' ∷ [])
                rest
                line'
                column',
          ))
unfolding label_line line_skipped length
label_line_lem parser token passed rest line column is =
    let after = marked token.value token.line parser in
    let (t, line', column', end, run) =
      skipped_line (suc (length rest)) after token passed rest line column is in
    (
      t,
      line',
      column',
      end,
      ap (λ (p : Parser). line_skipped (skip_line (suc (suc (length p.lexer.rest))) p))
            (marked_there (parser.pass == 1) token.value token.line parser token passed
              (b':' ∷ b'\n' ∷ rest) line column)
          ∙ ap line_skipped run,
    )

pub marked-error :
    (name : Chars) (n : ℕ) (parser : Parser) → (marked name n parser).error ≡ parser.error
unfolding define_label
marked-error name n parser =
    if_both (λ (p : Parser). p.error ≡ parser.error) (parser.pass == 1) refl refl

module _ (union : Operand → ℕ) (unset : ℕ → Operand) where
  word_line :
      (parser : Parser) (token : Token) (passed rest : Chars) (line column : ℕ)
      → token.type ≡ TokenType.identifier
      → parser_parse_line_with_labels union unset
          (looking parser token passed (b':' ∷ b'\n' ∷ rest) line column)
        ≡ label_line token (looking parser token passed (b':' ∷ b'\n' ∷ rest) line column)
  unfolding parser_parse_line_with_labels labelled_line
  word_line parser token passed rest line column is =
      let here : Parser = looking parser token passed (b':' ∷ b'\n' ∷ rest) line column in
      ap (λ (l : Token × Parser). labelled_line union unset l.0.type l.0 l.1)
        (looking-current parser token passed (b':' ∷ b'\n' ∷ rest) line column)
      ∙ ap (λ t. labelled_line union unset t token here) is
      ∙ ap
          (λ b.
            if b then label_line token here else some (constant_or_instruction union unset here))
          (ends_in_colon parser token passed rest line column)

  -- A label and the end of its line.
  pub label_rounds :
      (fuel : ℕ) (name : Chars) (parser : Parser) (passed rest : Chars) (line column : ℕ)
      → IsName name
      → parser.error ≡ false
      → (n : ℕ) × (line' : ℕ) × (column' : ℕ) × (parse_lines union unset
            (suc (suc fuel))
            (at parser passed (name ++ b':' ∷ b'\n' ∷ rest) line column)
          ≡ parse_lines union unset fuel (
              at
                (marked name n parser)
                (((passed ++ name) ++ b':' ∷ []) ++ b'\n' ∷ [])
                rest
                line'
                column'))
  label_rounds fuel name parser passed rest line column named fine =
      let r =
        (name-Reads name named).0 passed (b':' ∷ b'\n' ∷ rest) line column
          (unfold lexer_is_alnum lexer_is_alpha lexer_is_digit alpha_table in refl) in
      let seen = current-Reads parser r in
      let (t, line1, column1, end, ran) =
        label_line_lem parser r.token (passed ++ name) rest r.line' r.column' r.token_type in
      (
        r.token.line,
        line1,
        column1,
        round union unset (suc fuel) _ TokenType.identifier _ fine
              (ap (λ (l : Token × Parser). l.0.type) seen ∙ r.token_type) (unfold type_code in refl)
              (ap (λ (l : Token × Parser). parser_parse_line_with_labels union unset l.1) seen
                ∙ word_line parser r.token (passed ++ name) rest r.line' r.column' r.token_type
                ∙ ran)
            ∙ ap
                (λ value. parse_lines union unset (suc fuel) (
                  looking (marked value r.token.line parser) t
                    (((passed ++ name) ++ b':' ∷ []) ++ b'\n' ∷ []) rest line1 column1))
                r.token_value
            ∙ newline_seen union unset fuel (marked name r.token.line parser) t _ rest line1 column1
                (marked-error name r.token.line parser ∙ fine) end,
      )
