-- ===== src/Parser/Assembled.antt =====
-- `parser_parse` on the text of a program: both passes together.
use dez.Base.{
  ℕ, suc, ◌^◌, ◌<◌, ◌≤◌, ◌≡◌, refl, sym, subst, ap, ◌∙◌, false, true, not, Option, some, none, List,
  [], Chars, length, inl, arith,
}
use dez.Loader.Image.{nth}
use dez.Symbols.{SymbolTable, symbol_table_init, max_symbols, search}
use dez.Symbols.Define.{lookup}
use dez.Lexer.{lexer_init}
use dez.Parser.Operands.{Operand}
use dez.Parser.Spelling.{resolve}
use dez.Parser.State.{Parser, parser_init}
use dez.Parser.Lines.{last_solid}
use dez.Parser.Passes
use dez.Parser.Passes.{parse_lines, first_pass, second_pass, run_pass, parser_parse}
use dez.Parser.Reads.{at}
use dez.Parser.Follow.{Follows}
use dez.Parser.Total.{run_pass-total, both_ran}
use dez.Parser.Length.{program_text-long}
use dez.Symbols.Labels.{HasNoStrings, SameSymbols-HasNoStrings, symbol_table_init-HasNoStrings}
use dez.Parser.Program.{
  Item, program_text, AllWritten, label_index, AllDifferent, label_count, words, AllSuit,
}
use dez.Parser.Defined.{Prepared}
use dez.Parser.Defined.{address_in, Collected}
use dez.Parser.FirstPass.{first_pass_lem}
use dez.Parser.Resolved.{Knows}
use dez.Parser.SecondPass.{second_pass_lem}
use dez.Parser.Emitted.{Written}
use dez.Parser.Emitted.{Loaded}

module _ (union : Operand → ℕ) (unset : ℕ → Operand) (items : List Item) (output : ℕ → ℕ)
    (capacity : ℕ) where
  abbrev text : Chars
  text = program_text items

  abbrev start : Parser
  start = parser_init text symbol_table_init output capacity

  start-Prepared :
      label_count items ≤ max_symbols
      → length (words items) < 2 ^ 32
      → Prepared (first_pass start) 0 items
  unfolding parser_init first_pass symbol_table_init
  start-Prepared room small = record {
    fine = refl;
    first = refl;
    here = refl;
    distinct = λ i j hi hj e. absurd (omega arith);
    no_strings = symbol_table_init-HasNoStrings;
    room = omega (arith, room);
    new = λ name. inl (unfold resolve lookup search in refl);
    small = omega (arith, small);
  }

  -- The result of a pass by its equation.
  same_result :
      (parser p q : Parser)
      → run_pass union unset parser ≡ some p
      → run_pass union unset parser ≡ some q
      → Follows parser q
      → Follows parser p
  same_result parser p q run_p run_q follows =
      let same : q ≡ p =
        ap (λ (o : Option Parser). elim o as (λ _. Parser) [ some x ↦ x | none ↦ p ])
          (sym run_q ∙ run_p) in
      subst (Follows parser) same follows

  nothing_before : last_solid none [] ≡ none
  unfolding last_solid
  nothing_before = refl

  record First : Type 0 where
    parser : Parser
    run : run_pass union unset (first_pass start) ≡ some parser
    fine : parser.error ≡ false
    collected : Collected symbol_table_init parser.symbol_table 0 items
    follows : Follows (first_pass start) parser

  first :
      AllWritten items
      → AllDifferent items
      → label_count items ≤ max_symbols
      → length (words items) < 2 ^ 32
      → First
  unfolding run_pass parser_init first_pass lexer_init symbol_table_init
  first written different room small =
      let (parser, run, fine, collected) =
        first_pass_lem union unset items (suc (suc (length text))) 0 (first_pass start) [] 1 1
          written different (start-Prepared room small) nothing_before
          (omega (arith, program_text-long items written)) in
      let (q, run', follows) = run_pass-total union unset (first_pass start) tt in
      record {
        parser = parser;
        run = run;
        fine = fine;
        collected = collected;
        follows = same_result (first_pass start) parser q run run' follows;
      }

  -- The labels of the program, in the table that the first pass has left.
  found_first :
      (table : SymbolTable)
      → Collected symbol_table_init table 0 items
      → Knows table (label_index 0 items)
  found_first table collected name k found =
      collected.labels name
      ∙ ap
          (λ (o : Option ℕ). elim o as (λ _. Option ℕ) [
            | some j ↦ some j
            | none ↦ address_in symbol_table_init name
          ])
          found

  found_second :
      (name : Chars) (k : ℕ) (f : First)
      → label_index 0 items name ≡ some k
      → address_in (second_pass f.parser).symbol_table name ≡ some k
  unfolding second_pass resolve lookup
  found_second name k f found = found_first f.parser.symbol_table f.collected name k found

  first-Loaded :
      (f : First)
      → AllSuit (label_index 0 items) items
      → length (words items) ≤ capacity
      → Loaded (label_index 0 items) (second_pass f.parser) items
  unfolding second_pass parser_init first_pass
  first-Loaded f suit fits = record {
    fine = f.fine;
    second = refl;
    distinct = f.collected.distinct;
    knows = λ name k found. found_second name k f found;
    suit = suit;
    room = omega (arith, fits, f.follows.output_capacity);
  }

  same_input : (f : First) → Passes.input_of f.parser ≡ text
  unfolding Passes.input_of parser_init first_pass lexer_init
  same_input f = f.follows.moves.input

  run_again :
      (parser : Parser) (input : Chars)
      → Passes.input_of parser ≡ input
      → run_pass union unset (second_pass parser)
        ≡ parse_lines union unset (suc (suc (length input))) (at (second_pass parser) [] input 1 1)
  unfolding run_pass second_pass lexer_init
  run_again parser input same =
      ap (λ t. parse_lines union unset (suc (suc (length t))) (at (second_pass parser) [] t 1 1))
        same

  second :
      (f : First)
      → AllWritten items
      → AllSuit (label_index 0 items) items
      → length (words items) ≤ capacity
      → (parser : Parser) × (run_pass union unset (second_pass f.parser) ≡ some parser)
        × Written (second_pass f.parser) parser items
  second f written suit fits =
      let (parser, run, done) =
        second_pass_lem union unset (label_index 0 items) items (suc (suc (length text)))
          (second_pass f.parser) [] 1 1 written (first-Loaded f suit fits) nothing_before
          (omega (arith, program_text-long items written)) in
      (parser, run_again f.parser text (same_input f) ∙ run, done)

  -- From the start of the buffer, where the second pass begins.
  from_start :
      (f : First) (parser : Parser)
      → Written (second_pass f.parser) parser items
      → (parser.output_size ≡ length (words items))
        × ((i : ℕ) → i < length (words items) → parser.output i ≡ nth (words items) i)
  unfolding second_pass
  from_start f parser done =
      (omega (arith, done.size), λ i h. ap parser.output (omega arith) ∙ done.later i h)

  -- Both passes, and what the symbol table holds behind them.
  pub program_parsed :
      AllWritten items
      → AllDifferent items
      → AllSuit (label_index 0 items) items
      → label_count items ≤ max_symbols
      → length (words items) < 2 ^ 32
      → length (words items) ≤ capacity
      → (parser : Parser) × (parser_parse union unset
            (parser_init (program_text items) symbol_table_init output capacity)
          ≡ some (true, parser))
        × (parser.output_size ≡ length (words items))
        × ((i : ℕ) → i < length (words items) → parser.output i ≡ nth (words items) i)
        × HasNoStrings parser.symbol_table
  program_parsed written different suit room small fits =
      let f = first written different room small in
      let (parser, run, done) = second f written suit fits in
      (
        parser,
        both_ran union unset start f.parser parser f.run f.fine run
            ∙ ap (λ e. some (not e, parser)) done.fine,
        (from_start f parser done).0,
        (from_start f parser done).1,
        SameSymbols-HasNoStrings done.same (unfold second_pass in f.collected.no_strings),
      )

  -- A program whose lines are written out, whose labels are all different and fit the table, and whose
  -- statements have their numbers and addresses from the operands written for them, the labels read as
  -- indices of statements: `parser_parse` on its text, with the initial table and a buffer with room for
  -- its words, returns true and leaves in the buffer the words of its statements, in order.
  pub parser_parse-program :
      AllWritten items
      → AllDifferent items
      → AllSuit (label_index 0 items) items
      → label_count items ≤ max_symbols
      → length (words items) < 2 ^ 32
      → length (words items) ≤ capacity
      → (parser : Parser) × (parser_parse union unset
            (parser_init (program_text items) symbol_table_init output capacity)
          ≡ some (true, parser))
        × (parser.output_size ≡ length (words items))
        × ((i : ℕ) → i < length (words items) → parser.output i ≡ nth (words items) i)
  parser_parse-program written different suit room small fits =
      let (parser, run, size, output, _) = program_parsed written different suit room small fits in
      (parser, run, size, output)
