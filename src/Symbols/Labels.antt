-- ===== src/Symbols/Labels.antt =====
-- Tables without string symbols, and that a label is none.
use dez.Base.{
  ℕ, ◌+◌, ◌≡◌, refl, ap, ◌∙◌, ◌==◌, Bool, true, false, Option, none, some, leb, List, [], ◌∷◌,
  Chars, assign, if_both,
}
use dez.Symbols.Defs.{
  Symbol, SymbolTable, Message, symbol_label, is_string, max_symbols, already_defined, new_symbol,
  symbol_table_find, symbol_table_add, symbol_table_define, symbol_table_init,
}
use dez.Symbols.Find.{SameSymbols, symbol_table_find-SameSymbols}

-- No entry of the table is a string.
abbrev pub HasNoStrings : SymbolTable → Type 0
HasNoStrings table = (i : ℕ) → is_string (table.symbols i).type ≡ false

pub SameSymbols-HasNoStrings :
    {s t : SymbolTable} → SameSymbols s t → HasNoStrings s → HasNoStrings t
SameSymbols-HasNoStrings same h i = ap (λ (f : ℕ → Symbol). is_string (f i).type) same.symbols ∙ h i

pub symbol_table_init-HasNoStrings : HasNoStrings symbol_table_init
unfolding symbol_table_init is_string
symbol_table_init-HasNoStrings i = refl

assign-HasNoStrings :
    (f : ℕ → Symbol) (n : ℕ) (s : Symbol)
    → is_string s.type ≡ false
    → ((i : ℕ) → is_string (f i).type ≡ false)
    → (i : ℕ) → is_string (assign f n s i).type ≡ false
assign-HasNoStrings f n s label h i =
    if_both (λ (x : Symbol). is_string x.type ≡ false) (i == n) label (h i)

-- Behind the lookup of `symbol_table_add`.
found-HasNoStrings :
    (name : Chars) (address line : ℕ) (table : SymbolTable) (existing : Option ℕ)
    → HasNoStrings table
    → HasNoStrings
        (elim existing as (λ _. Bool × SymbolTable × List Message) [
          | some i ↦ (false, table, already_defined name (table.symbols i).line ∷ [])
          | none ↦ (
            true,
            record table {
              symbols =
                  assign table.symbols table.count
                    (new_symbol name symbol_label address 0 none line);
              count = table.count + 1;
            },
            [],
          )
        ]).1
unfolding new_symbol is_string
found-HasNoStrings name address line table (some i) h = h
found-HasNoStrings name address line table none h =
    assign-HasNoStrings table.symbols table.count (new_symbol name symbol_label address 0 none line)
      refl h

pub symbol_table_define-HasNoStrings :
    (table : SymbolTable) (name : Chars) (address line : ℕ)
    → HasNoStrings table
    → HasNoStrings (symbol_table_define table name address line).1
unfolding symbol_table_define symbol_table_add
symbol_table_define-HasNoStrings table name address line h =
    if_both (λ (r : Bool × SymbolTable × List Message). HasNoStrings r.1)
      (leb max_symbols table.count) h
      (found-HasNoStrings name address line (symbol_table_find table name).1
        (symbol_table_find table name).0
        (SameSymbols-HasNoStrings (symbol_table_find-SameSymbols table name) h))
