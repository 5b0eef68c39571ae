-- ===== src/Parser/SecondPass.antt =====
-- The second pass over the text of a program: the words of its statements are put out, in order.
use dez.Base.{
  ℕ, zero, suc, ◌*◌, ◌<◌, ◌≡◌, refl, ap, ◌∙◌, Option, some, none, List, [], ◌∷◌, ◌++◌, append_assoc,
  Chars, length, ◌==◌, if◌then◌else◌, arith,
}
use dez.Symbols.Define.{SameSymbols-refl}
use dez.Parser.Operands.{Operand}
use dez.Parser.Spelling.{spelled}
use dez.Parser.State.{Parser, parser_current_token}
use dez.Parser.Lines.{last_solid, define_label}
use dez.Parser.Passes.{parse_lines}
use dez.Parser.Reads.{at}
use dez.Parser.StatementText.{parsed}
use dez.Parser.Rounds.{statement_rounds}
use dez.Parser.LabelText.{marked, label_rounds}
use dez.Parser.Total.{ended}
use dez.Parser.Program.{Item, mark, code, item_text, program_text, AllWritten, words, spoken}
use dez.Parser.Defined.{line_start, at_end}
use dez.Parser.Emitted.{
  Loaded, room_for_one, emitted, finish-second, emitted-Loaded, emitted-Written, mark-Loaded,
  mark-Written, Written,
}

module _ (union : Operand → ℕ) (unset : ℕ → Operand) (find : Chars → Option ℕ) where
  -- A label is passed over in the second pass.
  marked-second :
      (name : Chars) (line : ℕ) (parser : Parser)
      → parser.pass ≡ 2
      → marked name line parser ≡ parser
  marked-second name line parser second =
      ap (λ p. if p == 1 then define_label name line parser else parser) second

  -- The second pass with enough rounds.
  pub second_pass_lem :
      (items : List Item) (fuel : ℕ) (parser : Parser) (passed : Chars) (line column : ℕ)
      → AllWritten items
      → Loaded find parser items
      → last_solid none passed ≡ none
      → 2 * length items < fuel
      → (parser' : Parser) × (parse_lines union unset fuel
            (at parser passed (program_text items) line column)
          ≡ some parser')
        × Written parser parser' items
  unfolding program_text item_text length
  second_pass_lem [] zero parser passed line column written ready start enough =
      absurd (omega arith)
  second_pass_lem [] (suc fuel) parser passed line column written ready start enough = (
    (parser_current_token (at parser passed [] line column)).1,
    ended union unset fuel (at parser passed [] line column) ready.fine
        (at_end parser passed line column),
    unfold parser_current_token words length in
        record {
          fine = ready.fine;
          same = SameSymbols-refl parser.symbol_table;
          size = omega arith;
          earlier = λ i h. refl;
          later = λ i h. absurd (omega arith);
        },
  )
  second_pass_lem (item ∷ items) zero parser passed line column written ready start enough =
      absurd (omega arith)
  second_pass_lem (item ∷ items) (suc zero) parser passed line column written ready start enough =
      absurd (omega arith)
  second_pass_lem (mark name ∷ items) (suc (suc fuel)) parser passed line column (named, written)
        ready start enough =
      let (l, line', column', run) =
        label_rounds union unset fuel name parser passed (program_text items) line column named
          ready.fine in
      let here : Chars = ((passed ++ name) ++ b':' ∷ []) ++ b'\n' ∷ [] in
      let (parser', rest, done) =
        second_pass_lem items fuel parser here line' column' written
          (mark-Loaded parser name items ready) (line_start (passed ++ name) (b':' ∷ []))
          (omega arith) in
      (
        parser',
        ap (λ text. parse_lines union unset (suc (suc fuel)) (at parser passed text line column))
              (append_assoc name (b':' ∷ []) (b'\n' ∷ program_text items))
            ∙ run
            ∙ ap (λ p. parse_lines union unset fuel (at p here (program_text items) line' column'))
                (marked-second name l parser ready.second)
            ∙ rest,
        mark-Written parser parser' name items done,
      )
  second_pass_lem (code s op ∷ items) (suc (suc fuel)) parser passed line column (writable, written)
        ready start enough =
      let after : Parser =
        emitted union (parsed unset (spelled op s).type (spelled op s).operands) parser in
      let (line', column', run) =
        statement_rounds union unset fuel (spelled op s).type (spelled op s).operands parser after
          passed (program_text items) line column (spoken s op) writable start ready.fine ready.fine
          (λ l c.
            finish-second union _ parser _ _ l c ready.second
              (room_for_one union unset find parser s op items ready)) in
      let (parser', rest, done) =
        second_pass_lem items fuel after _ line' column' written
          (emitted-Loaded union unset find parser s op items ready) (line_start passed _)
          (omega arith) in
      (parser', run ∙ rest, emitted-Written union unset find parser s op items ready done)
