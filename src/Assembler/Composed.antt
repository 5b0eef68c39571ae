-- ===== src/Assembler/Composed.antt =====
-- From the text of a program to its file: `assembler_assemble_file` on a program without strings.
use dez.Base.{
  ℕ, zero, suc, ◌+◌, ◌^◌, ◌<◌, ◌≤◌, ◌≡◌, refl, ap, ◌∙◌, Bool, true, false, Option, some, List, [],
  ◌∷◌, ◌++◌, Chars, codes, length, arith,
}
use dez.Loader.{ByteOrder}
use dez.Loader.Image.{nth}
use dez.Loader.Program.{program_file}
use dez.Symbols.{Symbol, symbol_table_init, max_symbols, is_string}
use dez.Symbols.Labels.{HasNoStrings}
use dez.Parser.{Operand}
use dez.Parser.State.{Parser, parser_init}
use dez.Parser.Passes.{parser_parse}
use dez.Parser.Program.{
  Item, program_text, AllWritten, AllDifferent, AllSuit, label_index, label_count, words,
}
use dez.Parser.Assembled.{program_parsed}
use dez.Assembler.Defs.{string_data, write_binary_file_with_strings}
use dez.Assembler.Driver.{
  Assembler, Notice, starting, completed, symbol_listing, output_listing, assembler_init,
  words_from, parser_notices, printed_if, append_strings, after_parsing, assembled_string,
  assembler_assemble_string, contains, written_file, after_writing, after_assembling, announced,
  assembler_assemble_file, assembled, assembling,
}

nth-words_from :
    (buffer : ℕ → ℕ) (ws : List ℕ) (i : ℕ)
    → ((j : ℕ) → j < length ws → buffer (i + j) ≡ nth ws j)
    → words_from buffer i (length ws) ≡ ws
unfolding words_from length nth
nth-words_from buffer [] i h = refl
nth-words_from buffer (w ∷ ws) i h =
    let first : buffer i ≡ w = ap buffer (omega arith) ∙ h 0 (omega arith) in
    let rest : words_from buffer (i + 1) (length ws) ≡ ws =
      nth-words_from buffer ws (i + 1)
        (λ j low. ap buffer (omega arith) ∙ h (suc j) (omega arith)) in
    ap (λ x. x ∷ words_from buffer (i + 1) (length ws)) first ∙ ap (λ xs. w ∷ xs) rest

string_data-none :
    (symbols : ℕ → Symbol) (i n : ℕ)
    → ((j : ℕ) → is_string (symbols j).type ≡ false)
    → string_data symbols i n ≡ []
unfolding string_data
string_data-none symbols i zero h = refl
string_data-none symbols i (suc n) h = ground (arith, h i, string_data-none symbols (i + 1) n h)

append_strings-none :
    (order : ByteOrder) (symbols : ℕ → Symbol) (i n : ℕ) (assembler : Assembler)
    → ((j : ℕ) → is_string (symbols j).type ≡ false)
    → append_strings order symbols i n assembler ≡ (true, assembler, [])
unfolding append_strings
append_strings-none order symbols i zero assembler h = refl
append_strings-none order symbols i (suc n) assembler h =
    ground (arith, h i, append_strings-none order symbols (i + 1) n assembler h)

module _ (order : ByteOrder) (union : Operand → ℕ) (unset : ℕ → Operand) (items : List Item)
    (buffer : ℕ → ℕ) (capacity : ℕ) (verbose : Bool) where
  abbrev initial : Assembler
  initial = assembler_init buffer capacity verbose

  -- The assembler with the result of the parser.
  abbrev parsed_by : Parser → Assembler
  parsed_by parser = record initial {
    symbol_table = parser.symbol_table;
    output_buffer = parser.output;
    output_size = parser.output_size;
  }

  assembled_lem :
      (parser : Parser)
      → parser_parse union unset
          (parser_init (program_text items) symbol_table_init buffer capacity)
        ≡ some (true, parser)
      → HasNoStrings parser.symbol_table
      → (log : List Notice) × (assembler_assemble_string order union unset initial
            (program_text items)
          ≡ some (true, parsed_by parser, log))
  unfolding assembler_init assembler_assemble_string assembled_string after_parsing
  assembled_lem parser run none_there =
      let log : Bool × Assembler × List Notice → List Notice = λ r.
        printed_if verbose (starting ∷ [])
        ++ (parser_notices parser.printed
            ++ r.2
            ++ printed_if verbose (
                completed
                ∷ symbol_listing r.1.symbol_table
                ∷ output_listing (words_from r.1.output_buffer 0 r.1.output_size)
                ∷ [])) in
      (
        log (true, parsed_by parser, []),
        ap (assembled_string order initial) run
            ∙ ap (λ (r : Bool × Assembler × List Notice). some (r.0, r.1, log r))
                (append_strings-none order parser.symbol_table.symbols 0 parser.symbol_table.count
                  (parsed_by parser) none_there),
      )

  file_lem :
      (parser : Parser) (output_file : Chars)
      → contains (codes ".hex") output_file ≡ false
      → parser.output_size ≡ length (words items)
      → ((i : ℕ) → i < length (words items) → parser.output i ≡ nth (words items) i)
      → HasNoStrings parser.symbol_table
      → written_file order true output_file (parsed_by parser)
        ≡ some (program_file order (words items) [])
  unfolding written_file write_binary_file_with_strings program_file assembler_init
  file_lem parser output_file binary size output none_there =
      let put_out : words_from parser.output 0 parser.output_size ≡ words items =
        ap (words_from parser.output 0) size
        ∙ nth-words_from parser.output (words items) 0
            (λ j low. ap parser.output (omega arith) ∙ output j low) in
      let no_data =
        string_data-none parser.symbol_table.symbols 0 parser.symbol_table.count none_there in
      rw (binary, put_out, no_data) refl

  -- The text of a program as `parser_parse-program` has it, assembled into a file that can be opened and
  -- whose name does not contain ".hex": `assembler_assemble_file` succeeds and writes the number of
  -- statements and their words, and no string data.
  pub assembler_assemble_file-program :
      (input_file output_file : Chars)
      → contains (codes ".hex") output_file ≡ false
      → AllWritten items
      → AllDifferent items
      → AllSuit (label_index 0 items) items
      → label_count items ≤ max_symbols
      → length (words items) < 2 ^ 32
      → length (words items) ≤ capacity
      → (after : Assembler) × (log : List Notice) × (assembler_assemble_file order union unset true
            input_file output_file
            (some (program_text items))
            initial
          ≡ some (true, after, some (program_file order (words items) []), log))
  unfolding assembler_assemble_file after_assembling after_writing announced assembler_init
  assembler_assemble_file-program input_file output_file binary written different suit room small
        fits =
      let (parser, run, size, output, none_there) =
        program_parsed union unset items buffer capacity written different suit room small fits in
      let (log, made) = assembled_lem parser run none_there in
      let file = file_lem parser output_file binary size output none_there in
      let written_as : Option (List ℕ) → Option (Bool × Assembler × Option (List ℕ) × List Notice) =
        λ f. some (
          (after_writing order output_file (parsed_by parser) f).0,
          (after_writing order output_file (parsed_by parser) f).1,
          (after_writing order output_file (parsed_by parser) f).2,
          log ++ (after_writing order output_file (parsed_by parser) f).3,
        ) in
      (
        parsed_by parser,
        printed_if verbose (assembling input_file ∷ [])
            ++ (log ++ assembled parser.output_size output_file ∷ []),
        ap (λ r. announced order verbose input_file (after_assembling order true output_file r))
              made
            ∙ ap (λ f. announced order verbose input_file (written_as f)) file,
      )
