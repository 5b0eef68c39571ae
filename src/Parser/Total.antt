-- ===== src/Parser/Total.antt =====
-- `parser_parse` ends on every input, and writes only to the buffer.
use dez.Base.{
  ℕ, zero, suc, ◌<◌, ◌≤◌, ◌≡◌, refl, ap, ◌∙◌, true, false, not, some, Bool-cases, Chars, ◌==◌, inl,
  inr, arith,
}
use dez.Symbols.{SymbolTable}
use dez.Lexer.{TokenType, Token, Lexer}
use dez.Lexer.Pending.{pending}
use dez.Parser.Operands.{Operand}
use dez.Parser.State.{Parser, type_code, parser_init, parser_current_token}
use dez.Parser.Lines.{parser_parse_line_with_labels}
use dez.Parser.Passes.{
  parse_lines, first_pass, second_pass, run_pass, verdict, parse_again, parser_parse,
}
use dez.Parser.Quiet.{Ready, Quiet-refl, current-Quiet}
use dez.Parser.Looked.{looked-AtToken, pending-light}
use dez.Parser.LineSteps.{Does, labelled_line-Does}
use dez.Parser.Follow.{Follows, Quiet-Follows, Follows-trans, AtToken, current-again}

module _ (union : Operand → ℕ) (unset : ℕ → Operand) where
  line-Does :
      {parser : Parser} {token : Token}
      → AtToken parser token
      → Does parser (parser_parse_line_with_labels union unset parser)
  unfolding parser_parse_line_with_labels
  line-Does at = rw (current-again at) (labelled_line-Does union unset _ at refl)

  -- What a round of a pass does.
  module _ (fuel : ℕ) (parser : Parser) where
    abbrev pub looked : Token × Parser
    looked = parser_current_token parser

    pub failed : parser.error ≡ true → parse_lines union unset (suc fuel) parser ≡ some parser
    unfolding parse_lines
    failed h = ground (arith, h)

    pub ended :
        parser.error ≡ false
        → (type_code looked.0.type == type_code TokenType.eof) ≡ true
        → parse_lines union unset (suc fuel) parser ≡ some looked.1
    unfolding parse_lines
    ended h at = ground (arith, h, at)

    stopped :
        (next : Parser)
        → parser.error ≡ false
        → (type_code looked.0.type == type_code TokenType.eof) ≡ false
        → parser_parse_line_with_labels union unset looked.1 ≡ some (false, next)
        → parse_lines union unset (suc fuel) parser ≡ some next
    unfolding parse_lines
    stopped next h at over = ground (arith, h, at, over)

    pub continued :
        (next : Parser)
        → parser.error ≡ false
        → (type_code looked.0.type == type_code TokenType.eof) ≡ false
        → parser_parse_line_with_labels union unset looked.1 ≡ some (true, next)
        → parse_lines union unset (suc fuel) parser ≡ parse_lines union unset fuel next
    unfolding parse_lines
    continued next h at more = ground (arith, h, at, more)

  -- With more rounds than tokens are pending a pass ends.
  parse_lines-total :
      (fuel : ℕ) (parser : Parser)
      → Ready parser
      → pending parser.lexer < fuel
      → (parser' : Parser) × (parse_lines union unset fuel parser ≡ some parser')
        × Follows parser parser'
  parse_lines-total zero parser ready enough = absurd (omega arith)
  parse_lines-total (suc fuel) parser ready enough =
      let (token, parser1) = looked fuel parser in
      let start = Quiet-Follows (current-Quiet parser ready) in
      elim (Bool-cases parser.error) [
        | inl broken ↦ (parser, failed fuel parser broken, Quiet-Follows (Quiet-refl parser ready))
        | inr fine ↦ elim (Bool-cases (type_code token.type == type_code TokenType.eof)) [
          | inl end ↦ (parser1, ended fuel parser fine end, start)
          | inr on ↦
              let ((more, parser2), run, step) = line-Does (looked-AtToken parser ready on) in
              let followed = Follows-trans start step.follows in
              elim (Bool-cases more) [
                | inr over ↦ (
                  parser2,
                  stopped fuel parser parser2 fine on (run ∙ ap (λ b. some (b, parser2)) over),
                  followed,
                )
                | inl goes ↦
                    let (parser3, rest, f) =
                      parse_lines-total fuel parser2 step.follows.moves.ready
                        (omega (arith, step.used goes, start.moves.fewer)) in
                    (
                      parser3,
                      continued fuel parser parser2 fine on (run ∙ ap (λ b. some (b, parser2)) goes)
                          ∙ rest,
                      Follows-trans followed f,
                    )
              ]
        ]
      ]

  pub run_pass-total :
      (parser : Parser)
      → Ready parser
      → (parser' : Parser) × (run_pass union unset parser ≡ some parser') × Follows parser parser'
  unfolding run_pass
  run_pass-total parser ready = parse_lines-total _ parser ready (pending-light parser.lexer)

  module _ (parser : Parser) where
    first_failed :
        (parser1 : Parser)
        → run_pass union unset (first_pass parser) ≡ some parser1
        → parser1.error ≡ true
        → parser_parse union unset parser ≡ some (not parser1.error, parser1)
    unfolding parser_parse parse_again
    first_failed parser1 run broken = ground (arith, run, broken)

    pub both_ran :
        (parser1 parser2 : Parser)
        → run_pass union unset (first_pass parser) ≡ some parser1
        → parser1.error ≡ false
        → run_pass union unset (second_pass parser1) ≡ some parser2
        → parser_parse union unset parser ≡ some (not parser2.error, parser2)
    unfolding parser_parse parse_again verdict
    both_ran parser1 parser2 run1 fine run2 = ground (arith, run1, fine, run2)

  -- Words within the buffer of `parser`, and nothing else of the memory changed.
  record Within (parser parser' : Parser) : Type 0 where
    output_capacity : parser'.output_capacity ≡ parser.output_capacity
    fits : parser'.output_size ≤ parser.output_capacity
    beyond : (i : ℕ) → parser.output_capacity ≤ i → parser'.output i ≡ parser.output i

  first-Within :
      (parser parser1 : Parser)
      → parser.output_size ≤ parser.output_capacity
      → Follows (first_pass parser) parser1
      → Within parser parser1
  unfolding first_pass
  first-Within parser parser1 fits f =
      let within : parser1.output_size ≤ parser.output_capacity = f.fits fits in
      record {
        output_capacity = f.output_capacity;
        fits = within;
        beyond = λ i h. f.beyond i (omega (arith, within));
      }

  second-Within :
      (parser parser1 parser2 : Parser)
      → Within parser parser1
      → Follows (second_pass parser1) parser2
      → Within parser parser2
  unfolding second_pass
  second-Within parser parser1 parser2 w f =
      let within : parser2.output_size ≤ parser1.output_capacity = f.fits (omega arith) in
      record {
        output_capacity = f.output_capacity ∙ w.output_capacity;
        fits = omega (arith, within, w.output_capacity);
        beyond = λ i h. f.beyond i (omega (arith, within, w.output_capacity)) ∙ w.beyond i h;
      }

  -- Both passes, or the first alone when it fails, end, and write within the buffer.
  passes-total :
      (parser : Parser)
      → Ready parser
      → parser.output_size ≤ parser.output_capacity
      → (parser' : Parser) × (parser_parse union unset parser ≡ some (not parser'.error, parser'))
        × Within parser parser'
  passes-total parser ready fits =
      let (parser1, run1, f1) = run_pass-total (first_pass parser) (unfold first_pass in ready) in
      let (parser2, run2, f2) =
        run_pass-total (second_pass parser1) (unfold second_pass dez.Lexer.lexer_init in tt) in
      let w = first-Within parser parser1 fits f1 in
      elim (Bool-cases parser1.error) [
        | inl broken ↦ (parser1, first_failed parser parser1 run1 broken, w)
        | inr fine ↦ (
          parser2,
          both_ran parser parser1 parser2 run1 fine run2,
          second-Within parser parser1 parser2 w f2,
        )
      ]

  -- On every input, with any symbol table and buffer, `parser_parse` ends. It returns true exactly when
  -- no error has been reported; no more words are put out than the buffer holds, and the memory
  -- behind the buffer is left as it was.
  pub parser_parse-total :
      (input : Chars) (table : SymbolTable) (output : ℕ → ℕ) (capacity : ℕ)
      → (parser : Parser) × (parser_parse union unset (parser_init input table output capacity)
          ≡ some (not parser.error, parser))
        × (parser.output_size ≤ capacity)
        × ((i : ℕ) → capacity ≤ i → parser.output i ≡ output i)
  unfolding parser_init dez.Lexer.lexer_init
  parser_parse-total input table output capacity =
      let (parser, run, w) =
        passes-total (parser_init input table output capacity) tt (omega arith) in
      (parser, run, w.fits, w.beyond)
