-- ===== src/Symbols/Strings.antt =====
-- String symbols: their addresses do not overlap, and a string is found at its address.
use dez.Base.{
  ℕ, zero, suc, ◌+◌, ◌<◌, ◌≤◌, ◌≡◌, ◌∙◌, ap, ap₂, ◌^◌, Bool, true, false, none, some, List, ◌==◌,
  ◌&&◌, Chars, length, take-all, assign, add32, arith,
}
use dez.Symbols.Defs.{
  Symbol, symbol_string, SymbolTable, Message, max_symbols, new_symbol, is_string, get_string_from,
  symbol_table_get_string, symbol_table_allocate_string, symbol_table_define_string,
}
use dez.Symbols.Find.{IsDistinct, symbol_table_find-SameSymbols}
use dez.Symbols.Define.{lookup, appended, added-new}

-- Every string symbol lies, with its zero byte, below the next free address.
abbrev pub StringsBelow : SymbolTable → Type 0
StringsBelow table =
    (i : ℕ)
    → i < table.count
    → is_string (table.symbols i).type ≡ true
    → (table.symbols i).address + length (table.symbols i).string_value + 1 ≤ table.next_string_addr

abbrev matches : (ℕ → Symbol) → ℕ → ℕ → Bool
matches f address i = is_string (f i).type && (f i).address == address

get_string_from-found :
    (f : ℕ → Symbol) (address i n : ℕ)
    → ((j : ℕ) → i ≤ j → j < i + n → matches f address j ≡ false)
    → matches f address (i + n) ≡ true
    → get_string_from f address i (n + 1) ≡ some (f (i + n)).string_value
unfolding get_string_from
get_string_from-found f address i zero before here = ground arith
get_string_from-found f address i (suc n) before here =
    let first : matches f address i ≡ false = before i (omega arith) (omega arith) in
    let rest : get_string_from f address (i + 1) (n + 1) ≡ some (f (i + 1 + n)).string_value =
      get_string_from-found f address (i + 1) n (λ j l h. before j (omega arith) (omega arith))
        (ground arith) in
    ground arith

module _ (table : SymbolTable) (name value : Chars) (line : ℕ) where
  abbrev defined : Bool × SymbolTable × List Message
  defined = symbol_table_define_string table name value line

  -- The new symbol and the three parts of the table that a successful definition changes.
  abbrev fresh : Symbol
  fresh = new_symbol name symbol_string table.next_string_addr 0 (some value) line

  defined-parts :
      IsDistinct table
      → table.count < max_symbols
      → lookup table name ≡ none
      → (defined.1.symbols ≡ assign table.symbols table.count fresh)
        × (defined.1.count ≡ table.count + 1)
        × (defined.1.next_string_addr ≡ add32 table.next_string_addr (length value + 1))
  unfolding symbol_table_define_string symbol_table_allocate_string lookup appended
  defined-parts distinct room new =
      let moved : SymbolTable = (symbol_table_allocate_string table value).1 in
      let same : _ = symbol_table_find-SameSymbols moved name in
      let e : _ =
        added-new moved name symbol_string table.next_string_addr 0 (some value) line distinct room
          new in
      (
        ap (λ r. r.1.symbols) e
            ∙ ap₂ (λ (f : ℕ → Symbol) (n : ℕ). assign f n fresh) same.symbols same.count,
        ap (λ r. r.1.count) e ∙ ap (λ n. n + 1) same.count,
        ap (λ r. r.1.next_string_addr) e ∙ same.next_string_addr,
      )

  -- A new string is found at the address that was free, all of it; the strings stay below the next
  -- free address, so no two overlap.
  pub get_string-define_string :
      IsDistinct table
      → StringsBelow table
      → table.count < max_symbols
      → length name ≤ 63
      → length value ≤ 255
      → lookup table name ≡ none
      → table.next_string_addr + length value + 1 < 2 ^ 31
      → (symbol_table_get_string defined.1 table.next_string_addr ≡ some value)
        × (defined.1.next_string_addr ≡ table.next_string_addr + length value + 1)
        × StringsBelow defined.1
  unfolding symbol_table_get_string new_symbol is_string
  get_string-define_string distinct below room short fits new space =
      let parts : _ = defined-parts distinct room new in
      let moved : defined.1.next_string_addr ≡ table.next_string_addr + length value + 1 =
        omega (arith, parts.2) in
      (
        rw (parts.0, parts.1)
            (get_string_from-found (assign table.symbols table.count fresh) table.next_string_addr 0
                table.count (λ j l h. ground (arith, below j)) ground arith
              ∙ ground (arith, take-all 255 value fits)),
        moved,
        λ i h s. ground (arith, parts, moved, below i, take-all 255 value fits),
      )
