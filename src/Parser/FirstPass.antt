-- ===== src/Parser/FirstPass.antt =====
-- The first pass over the text of a program: every label comes to stand for the index of the statement
-- behind it.
use dez.Base.{
  ℕ, zero, suc, ◌+◌, ◌*◌, ◌<◌, ◌≡◌, refl, subst, ap, ◌∙◌, Bool, false, true, Option, some, none,
  List, [], ◌∷◌, ◌++◌, append_assoc, Chars, length, if◌then◌else◌, same_chars, same_chars-eq, arith,
}
use dez.Symbols.{SymbolTable}
use dez.Parser.Operands.{Operand}
use dez.Parser.Spelling.{spelled}
use dez.Parser.State.{Parser, parser_current_token}
use dez.Parser.Lines.{last_solid}
use dez.Parser.Passes.{parse_lines}
use dez.Parser.Reads.{at}
use dez.Parser.Rounds.{statement_rounds}
use dez.Parser.LabelText.{marked, label_rounds}
use dez.Parser.Total.{ended}
use dez.Parser.Program.{
  Item, mark, code, item_text, program_text, AllWritten, label_index, AllDifferent, spoken,
}
use dez.Parser.Collected.{counted, finish-first, counted-Prepared, marked-address, marked-Prepared}
use dez.Parser.Defined.{Prepared}
use dez.Parser.Defined.{address_in, line_start, at_end, Collected, label_index-none}

-- What is found first, or behind it, or before.
abbrev or_else : Option ℕ → Option ℕ → Option ℕ
or_else o before = elim o [ some k ↦ some k | none ↦ before ]

first_found :
    (o : Option ℕ) (same : Bool) (n : ℕ) (before between : Option ℕ)
    → (same ≡ true → o ≡ none)
    → between ≡ (if same then some n else before)
    → or_else o between ≡ or_else (if same then some n else o) before
first_found none true n before between single there = there
first_found (some k) true n before between single there = absurd (ground (arith, single refl))
first_found none false n before between single there = there
first_found (some k) false n before between single there = refl

-- The labels of a program behind its first label.
mark-Collected :
    (before between after : SymbolTable) (n : ℕ) (name : _) (items : List Item)
    → label_index 0 items name ≡ none
    → ((other : Chars)
        → address_in between other
          ≡ (if same_chars name other then some n else address_in before other))
    → Collected between after n items
    → Collected before after n (mark name ∷ items)
unfolding label_index
mark-Collected before between after n name items single there rest = record {
  distinct = rest.distinct;
  no_strings = rest.no_strings;
  labels = λ other.
      rest.labels other
      ∙ first_found (label_index n items other) (same_chars name other) n _ _
          (λ same.
            label_index-none 0 n items other
              (subst (λ x. label_index 0 items x ≡ none) (same_chars-eq name other same) single))
          (there other);
}

code-Collected :
    (before after : SymbolTable) (n : ℕ) (s : _) (op : Operand) (items : List Item)
    → Collected before after (n + 1) items
    → Collected before after n (code s op ∷ items)
unfolding label_index
code-Collected before after n s op items rest = record {
  distinct = rest.distinct;
  no_strings = rest.no_strings;
  labels = rest.labels;
}

module _ (union : Operand → ℕ) (unset : ℕ → Operand) where
  -- The first pass with enough rounds.
  pub first_pass_lem :
      (items : List Item) (fuel n : ℕ) (parser : Parser) (passed : Chars) (line column : ℕ)
      → AllWritten items
      → AllDifferent items
      → Prepared parser n items
      → last_solid none passed ≡ none
      → 2 * length items < fuel
      → (parser' : Parser) × (parse_lines union unset fuel
            (at parser passed (program_text items) line column)
          ≡ some parser')
        × (parser'.error ≡ false)
        × Collected parser.symbol_table parser'.symbol_table n items
  unfolding program_text item_text length
  first_pass_lem [] zero n parser passed line column written different ready start enough =
      absurd (omega arith)
  first_pass_lem [] (suc fuel) n parser passed line column written different ready start enough = (
    (parser_current_token (at parser passed [] line column)).1,
    ended union unset fuel (at parser passed [] line column) ready.fine
        (at_end parser passed line column),
    unfold parser_current_token in ready.fine,
    unfold parser_current_token label_index in
        record { distinct = ready.distinct; no_strings = ready.no_strings; labels = λ name. refl },
  )
  first_pass_lem (item ∷ items) zero n parser passed line column written different ready start
        enough =
      absurd (omega arith)
  first_pass_lem (item ∷ items) (suc zero) n parser passed line column written different ready start
        enough =
      absurd (omega arith)
  first_pass_lem (mark name ∷ items) (suc (suc fuel)) n parser passed line column (named, written)
        (single, different) ready start enough =
      let (l, line', column', run) =
        label_rounds union unset fuel name parser passed (program_text items) line column named
          ready.fine in
      let (parser', rest, fine, collected) =
        first_pass_lem items fuel n (marked name l parser)
          (((passed ++ name) ++ b':' ∷ []) ++ b'\n' ∷ []) line' column' written different
          (marked-Prepared parser n l name items named ready single)
          (line_start (passed ++ name) (b':' ∷ [])) (omega arith) in
      (
        parser',
        ap (λ text. parse_lines union unset (suc (suc fuel)) (at parser passed text line column))
              (append_assoc name (b':' ∷ []) (b'\n' ∷ program_text items))
            ∙ run
            ∙ rest,
        fine,
        mark-Collected parser.symbol_table (marked name l parser).symbol_table parser'.symbol_table
            n name items single (marked-address parser n l name items named ready) collected,
      )
  first_pass_lem (code s op ∷ items) (suc (suc fuel)) n parser passed line column
        (writable, written) different ready start enough =
      let (line', column', run) =
        statement_rounds union unset fuel (spelled op s).type (spelled op s).operands parser
          (counted parser) passed (program_text items) line column (spoken s op) writable start
          ready.fine ready.fine (λ l c. finish-first union _ parser _ _ l c ready.first) in
      let (parser', rest, fine, collected) =
        first_pass_lem items fuel (n + 1) (counted parser) _ line' column' written different
          (counted-Prepared parser n s op items ready) (line_start passed _) (omega arith) in
      (
        parser',
        run ∙ rest,
        fine,
        code-Collected parser.symbol_table parser'.symbol_table n s op items collected,
      )
