-- ===== src/Parser/Literals.antt =====
-- String literals as the source of MOV: a new one is stored, one with a known name is not.
use dez.Base.{
  ℕ, zero, suc, ◌+◌, ◌<◌, ◌≤◌, ◌^◌, ◌≡◌, refl, ◌∙◌, ap, ap₂, inl, none, some, List, [], ◌∷◌, ◌++◌,
  Chars, length, take, same_chars_refl, add32, arith,
}
use dez.Symbols.{
  Symbol, SymbolTable, Message, symbol_string, max_symbols, new_symbol,
  symbol_table_allocate_string, symbol_table_define_string, symbol_table_get_string,
  get_string_from,
}
use dez.Symbols.Find.{IsDistinct, SameSymbols}
use dez.Symbols.Define.{
  lookup, added-new, lookup-symbol_table_add, symbol_table_add-refused, symbol_table_add-IsDistinct,
  lookup-SameSymbols, SameSymbols-IsDistinct,
}
use dez.Symbols.Strings.{StringsBelow, get_string-define_string}
use dez.Parser.Operands.{Operand, string, string_name, string_prefix, source_of}
use dez.Parser.Encoding.{resolve-label, address_of_lem}

length-take : {A : Type 0} (n : ℕ) (xs : List A) → length (take n xs) ≤ n
unfolding length take
length-take zero xs = omega arith
length-take (suc n) [] = omega arith
length-take (suc n) (x ∷ xs) = omega (arith, length-take n xs)

string_name-short : (s : Chars) → length (string_name s) ≤ 63
unfolding string_name
string_name-short s = length-take 63 (string_prefix ++ s)

get_string-SameSymbols :
    {t u : SymbolTable} (a : ℕ)
    → SameSymbols t u
    → symbol_table_get_string u a ≡ symbol_table_get_string t a
unfolding symbol_table_get_string
get_string-SameSymbols a same =
    ap₂ (λ (f : ℕ → Symbol) (n : ℕ). get_string_from f a 0 n) same.symbols same.count

module _ (union : Operand → ℕ) (table : SymbolTable) (s : Chars) where
  -- The string literal as the source of MOV.
  abbrev source : ℕ × SymbolTable × List Message
  source = source_of union table (string s)

  -- A literal whose name is new stands for the address that was free, and the table gives the literal
  -- for that address, without a message.
  pub source_of-new :
      IsDistinct table
      → StringsBelow table
      → table.count < max_symbols
      → length s ≤ 255
      → lookup table (string_name s) ≡ none
      → table.next_string_addr + length s + 1 < 2 ^ 31
      → (source.0 ≡ table.next_string_addr)
        × (symbol_table_get_string source.1 source.0 ≡ some s)
        × (source.2 ≡ [])
  unfolding source_of symbol_table_define_string symbol_table_allocate_string new_symbol lookup
  source_of-new distinct below room fits new space =
      let name : Chars = string_name s in
      let short : length name ≤ 63 = string_name-short s in
      let moved : SymbolTable = (symbol_table_allocate_string table s).1 in
      let added : SymbolTable = (symbol_table_define_string table name s 0).1 in
      let there : lookup added name
          ≡ some (new_symbol name symbol_string table.next_string_addr 0 (some s) 0) =
        (lookup-symbol_table_add moved name symbol_string table.next_string_addr 0 (some s) 0 name
          distinct room short new).1
        ∙ rw (same_chars_refl name) refl in
      let found : _ =
        address_of_lem added name table.next_string_addr
          (symbol_table_add-IsDistinct moved name symbol_string table.next_string_addr 0 (some s) 0
            short distinct)
          (resolve-label added name _ there) in
      let stored : _ =
        get_string-define_string table name s 0 distinct below room short fits new space in
      (
        found.0,
        rw found.0 (get_string-SameSymbols table.next_string_addr found.1 ∙ stored.0),
        ap (λ r. r.2)
            (added-new moved name symbol_string table.next_string_addr 0 (some s) 0 distinct room
              new),
      )

  -- A literal whose name is that of a symbol, because it was used before or because it starts with the same
  -- 57 bytes, stands for the address of that symbol; a message is printed, and the addresses of the
  -- literals that follow are moved on all the same.
  pub source_of-known :
      (known : Symbol)
      → IsDistinct table
      → lookup table (string_name s) ≡ some known
      → (source.0 ≡ known.address)
        × (length source.2 ≡ 1)
        × (source.1.next_string_addr ≡ add32 table.next_string_addr (length s + 1))
  unfolding source_of symbol_table_define_string symbol_table_allocate_string lookup
  source_of-known known distinct old =
      let name : Chars = string_name s in
      let moved : SymbolTable = (symbol_table_allocate_string table s).1 in
      let refused : _ =
        symbol_table_add-refused moved name symbol_string table.next_string_addr 0 (some s) 0
          distinct (inl (λ (e : lookup moved name ≡ none). ground (arith, old))) in
      let after : SymbolTable = (symbol_table_define_string table name s 0).1 in
      let there : lookup after name ≡ some known = lookup-SameSymbols name refused.2 ∙ old in
      let found : _ =
        address_of_lem after name known.address (SameSymbols-IsDistinct refused.2 distinct)
          (resolve-label after name known there) in
      (found.0, refused.1, found.1.next_string_addr ∙ refused.2.next_string_addr)
