-- ===== src/Parser/Defined.antt =====
-- What the first pass knows of the symbol table before and behind a line, and the definition of a label.
use dez.Base.{
  ℕ, ◌+◌, ◌^◌, ◌<◌, ◌≤◌, ◌≡◌, refl, ap, ◌∙◌, Bool, true, false, Option, some, none, List, [], ◌∷◌,
  ◌++◌, Chars, length, take, ◌⊎◌, ◌==◌, if◌then◌else◌, same_chars, inl, inr, arith,
}
use dez.Lexer.{TokenType, Token, Lexer, lexer_peek_token}
use dez.Symbols.{SymbolTable, Message, symbol_table_define, new_symbol, symbol_label, max_symbols}
use dez.Symbols.Labels.{HasNoStrings}
use dez.Symbols.Find.{IsDistinct, symbol_table_find-SameSymbols, Option-cases}
use dez.Symbols.Define.{
  lookup, appended, added-new, lookup-symbol_table_add, symbol_table_add-IsDistinct,
}
use dez.Parser.Operands.{label}
use dez.Parser.Spelling.{resolve}
use dez.Parser.State.{Parser, parser_current_token, type_code}
use dez.Parser.Lines.{last_solid, solid_with}
use dez.Parser.Reads.{at}
use dez.Parser.Plain.{last_solid-append}
use dez.Parser.Program.{Item, mark, code, label_index, label_count, words}

-- What a name stands for in a table.
abbrev pub address_in : SymbolTable → Chars → Option ℕ
address_in table name = resolve table (label name)

-- A line that has ended leaves no character to look at.
pub line_start : (passed text : Chars) → last_solid none ((passed ++ text) ++ b'\n' ∷ []) ≡ none
unfolding last_solid solid_with
line_start passed text = last_solid-append none (passed ++ text) (b'\n' ∷ [])

-- The end of the input.
pub at_end :
    (parser : Parser) (passed : Chars) (line column : ℕ)
    → (type_code (parser_current_token (at parser passed [] line column)).0.type
        == type_code TokenType.eof)
      ≡ true
unfolding parser_current_token lexer_peek_token dez.Lexer.lexer_next_token dez.Lexer.skipped
    dez.Lexer.move_to dez.Lexer.lexer_skip_whitespace dez.Lexer.skip_rounds dez.Lexer.scan type_code
    length take
at_end parser passed line column = refl

-- The labels of the table after the pass: those of the program, where `n` statements have gone before, and
-- those that were there.
pub record Collected (table table' : SymbolTable) (n : ℕ) (items : List Item) : Type 0 where
  pub distinct : IsDistinct table'
  pub no_strings : HasNoStrings table'
  pub labels :
      (name : Chars)
      → address_in table' name
        ≡ (elim (label_index n items name) [ some k ↦ some k | none ↦ address_in table name ])

-- The labels of the program are new, and there is room for them and for the addresses.
pub record Prepared (parser : Parser) (n : ℕ) (items : List Item) : Type 0 where
  pub fine : parser.error ≡ false
  pub first : parser.pass ≡ 1
  pub here : parser.current_address ≡ n
  pub distinct : IsDistinct parser.symbol_table
  pub no_strings : HasNoStrings parser.symbol_table
  pub room : parser.symbol_table.count + label_count items ≤ max_symbols
  pub new :
      (name : Chars)
      → (address_in parser.symbol_table name ≡ none) ⊎ (label_index 0 items name ≡ none)
  pub small : n + length (words items) < 2 ^ 32

pub label_index-none :
    (m n : ℕ) (items : List Item) (name : Chars)
    → label_index m items name ≡ none
    → label_index n items name ≡ none
unfolding label_index
label_index-none m n [] name h = refl
label_index-none m n (mark other ∷ items) name h = ground (arith, label_index-none m n items name)
label_index-none m n (code s op ∷ items) name h = label_index-none (m + 1) (n + 1) items name h

-- Definition of a label.
module _ (table : SymbolTable) (name : Chars) (n line : ℕ) where
  abbrev defined : SymbolTable
  defined = (symbol_table_define table name n line).1

  not_there : address_in table name ≡ none → lookup table name ≡ none
  unfolding resolve
  not_there h = elim (Option-cases (lookup table name)) [
    | inl nothing ↦ nothing
    | inr (s, there) ↦ ground (arith, h, there)
  ]

  pub defined-IsDistinct : length name ≤ 63 → IsDistinct table → IsDistinct defined
  unfolding symbol_table_define
  defined-IsDistinct short distinct =
      symbol_table_add-IsDistinct table name symbol_label n 0 none line short distinct

  pub defined-count :
      IsDistinct table
      → table.count < max_symbols
      → address_in table name ≡ none
      → defined.count ≡ table.count + 1
  unfolding symbol_table_define appended
  defined-count distinct room new =
      ap (λ (r : Bool × SymbolTable × List Message). r.1.count)
        (added-new table name symbol_label n 0 none line distinct room (not_there new))
      ∙ ap (λ c. c + 1) (symbol_table_find-SameSymbols table name).count

  pub defined-address :
      (other : Chars)
      → length name ≤ 63
      → IsDistinct table
      → table.count < max_symbols
      → address_in table name ≡ none
      → address_in defined other
        ≡ (if same_chars name other then some n else address_in table other)
  unfolding symbol_table_define resolve new_symbol
  defined-address other short distinct room new =
      let there =
        (lookup-symbol_table_add table name symbol_label n 0 none line other distinct room short
          (not_there new)).1 in
      ground (arith, there)
