-- ===== src/Assembler/Driver.antt =====
-- src/assembler/dez_assembler.c: the state of the assembler, `assembler_assemble_string`,
-- `assembler_assemble_file`, and the two other file writers.
use dez.Base.{
  ℕ, zero, suc, ◌+◌, ◌-◌, ◌*◌, ◌/◌, ◌%◌, ◌^◌, Bool, true, false, ◌&&◌, ◌||◌, Option, none, some,
  List, [], ◌∷◌, ◌++◌, if◌then◌else◌, Chars, codes, length, ltb, ◌==◌, assign, add32, u32,
}
use dez.Loader.{ByteOrder}
use dez.Loader.Image.{bytes_of}
use dez.Symbols.{Symbol, SymbolTable, symbol_table_init, is_string}
use dez.Parser.{Operand}
use dez.Parser.State.{Report, Parser, parser_init}
use dez.Parser.Passes.{parser_parse}
use dez.Assembler.Defs.{write_binary_file_with_strings}

pub record Assembler : Type 0 where
  pub symbol_table : SymbolTable
  pub output_buffer : ℕ → ℕ
  pub output_capacity : ℕ
  pub output_size : ℕ
  pub verbose : Bool

-- What the assembler prints: what the parser prints, and a message of its own.
pub data Notice : Type 0 where
  from_parser : Report → Notice
  starting strings_exceed completed failed : Notice
  stored_string : Chars → ℕ → Notice
  symbol_listing : SymbolTable → Notice
  output_listing : List ℕ → Notice
  unreadable unwritable assembling : Chars → Notice
  assembled : ℕ → Chars → Notice

-- `buffer` is what `malloc` gives.
unfoldable pub assembler_init : (ℕ → ℕ) → ℕ → Bool → Assembler
assembler_init buffer capacity verbose = record {
  symbol_table = symbol_table_init;
  output_buffer = buffer;
  output_capacity = capacity;
  output_size = 0;
  verbose = verbose;
}

-- The words of the buffer from index `i` on.
unfoldable pub words_from : (ℕ → ℕ) → ℕ → ℕ → List ℕ
words_from buffer i zero = []
words_from buffer i (suc n) = buffer i ∷ words_from buffer (i + 1) n

unfoldable pub parser_notices : List Report → List Notice
parser_notices [] = []
parser_notices (report ∷ reports) = from_parser report ∷ parser_notices reports

-- Notices that are printed when `test` holds.
abbrev pub printed_if : Bool → List Notice → List Notice
printed_if test notices = if test then notices else []

module _ (order : ByteOrder) where
  -- A word with one of its bytes replaced.
  unfoldable pub with_byte : ℕ → ℕ → ℕ → ℕ
  with_byte zero c w = order.join c (order.byte1 w) (order.byte2 w) (order.byte3 w)
  with_byte (suc zero) c w = order.join (order.byte0 w) c (order.byte2 w) (order.byte3 w)
  with_byte (suc (suc zero)) c w = order.join (order.byte0 w) (order.byte1 w) c (order.byte3 w)
  with_byte (suc (suc (suc _))) c w = order.join (order.byte0 w) (order.byte1 w) (order.byte2 w) c

  -- `memcpy` to byte `at` of the buffer.
  unfoldable pub memcpy : ℕ → List ℕ → (ℕ → ℕ) → ℕ → ℕ
  memcpy at [] buffer = buffer
  memcpy at (c ∷ bytes) buffer =
      memcpy (at + 1) bytes (assign buffer (at / 4) (with_byte (at % 4) c (buffer (at / 4))))

  -- A string is copied to the word whose index is its address.
  unfoldable pub store_string : Symbol → Assembler → Assembler
  store_string sym assembler =
      let end_word : ℕ = u32 ((add32 sym.address (length sym.string_value + 1) + 4 - 1) / 4) in
      record assembler {
        output_buffer =
            memcpy (sym.address * 4) (sym.string_value ++ 0 ∷ []) assembler.output_buffer;
        output_size =
            if ltb assembler.output_size end_word then end_word else assembler.output_size;
      }

  -- The loop over `n` symbols from symbol `i` on: whether all strings fit, and what is printed.
  unfoldable pub append_strings : (ℕ → Symbol) → ℕ → ℕ → Assembler → Bool × Assembler × List Notice
  append_strings symbols i zero assembler = (true, assembler, [])
  append_strings symbols i (suc n) assembler =
      let sym : Symbol = symbols i in
      let next : Bool × Assembler × List Notice = append_strings symbols (i + 1) n assembler in
      let (success, after, log) = append_strings symbols (i + 1) n (store_string sym assembler) in
      elim (is_string sym.type && sym.defined) [
        | true ↦
            elim (ltb (assembler.output_capacity * 4)
              (add32 sym.address (length sym.string_value + 1))) [
                | true ↦ (false, assembler, strings_exceed ∷ [])
                | false ↦ (
                  success,
                  after,
                  printed_if assembler.verbose (stored_string sym.string_value sym.address ∷ [])
                      ++ log,
                )
              ]
        | false ↦ next
      ]

  -- `assembler_assemble_string` behind the call of `parser_parse`.
  unfoldable pub after_parsing : Bool → Parser → Assembler → Bool × Assembler × List Notice
  after_parsing false parser assembler = (
    false,
    record assembler { symbol_table = parser.symbol_table; output_buffer = parser.output },
    parser_notices parser.printed ++ failed ∷ [],
  )
  after_parsing true parser assembler =
      let parsed : Assembler = record assembler {
        symbol_table = parser.symbol_table;
        output_buffer = parser.output;
        output_size = parser.output_size;
      } in
      let (success, after, log) =
        append_strings parser.symbol_table.symbols 0 parser.symbol_table.count parsed in
      (
        success,
        after,
        parser_notices parser.printed
            ++ log
            ++ printed_if assembler.verbose (
                completed
                ∷ symbol_listing after.symbol_table
                ∷ output_listing (words_from after.output_buffer 0 after.output_size)
                ∷ []),
      )

  -- The result of parsing, when there is one.
  unfoldable pub assembled_string :
      Assembler → Option (Bool × Parser) → Option (Bool × Assembler × List Notice)
  assembled_string assembler none = none
  assembled_string assembler (some (success, parser)) =
      let (success', after, log) = after_parsing success parser assembler in
      some (success', after, printed_if assembler.verbose (starting ∷ []) ++ log)

  unfoldable pub assembler_assemble_string :
      (Operand → ℕ) → (ℕ → Operand) → Assembler → Chars → Option (Bool × Assembler × List Notice)
  assembler_assemble_string union unset assembler input = assembled_string assembler (
      parser_parse union unset (
        parser_init input assembler.symbol_table assembler.output_buffer assembler.output_capacity))

  -- `data` is the list of its `count` words.
  unfoldable pub write_binary_file : List ℕ → List ℕ
  write_binary_file words = bytes_of order (length words ∷ words) []

-- A digit of "%X".
unfoldable pub hex_digit : ℕ → ℕ
hex_digit d = if ltb d 10 then b'0' + d else d + 55

-- "%0nX" of a number of at most `n` digits.
unfoldable pub hex_digits : ℕ → ℕ → Chars
hex_digits zero w = []
hex_digits (suc n) w = hex_digit (w / 16 ^ n % 16) ∷ hex_digits n w

unfoldable pub hex_lines : List ℕ → Chars
hex_lines [] = []
hex_lines (w ∷ words) = hex_digits 8 w ++ b'\n' ∷ hex_lines words

unfoldable pub write_hex_file : List ℕ → Chars
write_hex_file words = codes "v2.0 raw\n" ++ hex_lines words

-- `strstr(text, pattern) != NULL`
unfoldable pub begins : Chars → Chars → Bool
begins [] text = true
begins (p ∷ pattern) [] = false
begins (p ∷ pattern) (c ∷ text) = p == c && begins pattern text

unfoldable pub contains : Chars → Chars → Bool
contains pattern [] = begins pattern []
contains pattern (c ∷ text) = begins pattern (c ∷ text) || contains pattern text

module _ (order : ByteOrder) where
  -- The file of an output, or `none` when it cannot be opened.
  unfoldable pub written_file : Bool → Chars → Assembler → Option (List ℕ)
  written_file false output_file assembler = none
  written_file true output_file assembler =
      let words : List ℕ = words_from assembler.output_buffer 0 assembler.output_size in
      if contains (codes ".hex") output_file
      then some (write_hex_file words)
      else some (write_binary_file_with_strings order words assembler.symbol_table)

  -- `assembler_assemble_file` behind the writer.
  unfoldable pub after_writing :
      Chars → Assembler → Option (List ℕ) → Bool × Assembler × Option (List ℕ) × List Notice
  after_writing output_file assembler (some file) =
      (true, assembler, some file, assembled assembler.output_size output_file ∷ [])
  after_writing output_file assembler none = (false, assembler, none, unwritable output_file ∷ [])

  -- `assembler_assemble_file` behind `assembler_assemble_string`.
  unfoldable pub after_assembling :
      Bool
      → Chars
      → Option (Bool × Assembler × List Notice)
      → Option (Bool × Assembler × Option (List ℕ) × List Notice)
  after_assembling opens output_file none = none
  after_assembling opens output_file (some (false, assembler, log)) =
      some (false, assembler, none, log)
  after_assembling opens output_file (some (true, assembler, log)) =
      let (success, after, file, log') =
        after_writing output_file assembler (written_file opens output_file assembler) in
      some (success, after, file, log ++ log')

  -- The message in front of it all.
  unfoldable pub announced :
      Bool
      → Chars
      → Option (Bool × Assembler × Option (List ℕ) × List Notice)
      → Option (Bool × Assembler × Option (List ℕ) × List Notice)
  announced verbose input_file none = none
  announced verbose input_file (some (success, after, file, log)) =
      some (success, after, file, printed_if verbose (assembling input_file ∷ []) ++ log)

  -- The input file is its text, or `none` when it cannot be read; `opens` says whether the output file
  -- can be opened. The result has what is written to it.
  unfoldable pub assembler_assemble_file :
      (Operand → ℕ)
      → (ℕ → Operand)
      → Bool
      → Chars
      → Chars
      → Option Chars
      → Assembler
      → Option (Bool × Assembler × Option (List ℕ) × List Notice)
  assembler_assemble_file union unset opens input_file output_file none assembler =
      some (false, assembler, none, unreadable input_file ∷ [])
  assembler_assemble_file union unset opens input_file output_file (some input) assembler =
      announced assembler.verbose input_file (
        after_assembling opens output_file
          (assembler_assemble_string order union unset assembler input))
