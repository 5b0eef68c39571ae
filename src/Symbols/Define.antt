-- ===== src/Symbols/Define.antt =====
-- Definition and lookup: what is found after a definition, and the names that stay distinct.
use dez.Base.{
  ℕ, zero, suc, ◌+◌, ◌<◌, ◌≤◌, ◌≡◌, ◌≢◌, ◌⊎◌, refl, ◌∙◌, sym, ap, ap₂, subst, Bool, true, false,
  Option, none, some, List, [], leb, if◌then◌else◌, Chars, length, take-all, assign, same_chars,
  Bool-cases, inl, inr, arith,
}
use dez.Symbols.Defs.{
  Symbol, SymbolType, SymbolTable, Message, max_symbols, search, new_symbol, symbol_table_find,
  symbol_table_add,
}
use dez.Symbols.Find.{
  IsDistinct, SameSymbols, Option-cases, search-some, search-none, symbol_table_find_lem,
  symbol_table_find-SameSymbols,
}

-- The symbol of a name.
unfoldable pub lookup : SymbolTable → Chars → Option Symbol
lookup table name = elim (search table.symbols name table.count) [
  | some i ↦ some (table.symbols i)
  | none ↦ none
]

search-assign :
    (f : ℕ → Symbol) (s : Symbol) (name : Chars) (m n : ℕ)
    → n ≤ m
    → search (assign f m s) name n ≡ search f name n
unfolding search
search-assign f s name m zero h = refl
search-assign f s name m (suc n) h = ground (arith, search-assign f s name m n)

lookup-none :
    (table : SymbolTable) (name : Chars)
    → lookup table name ≡ none
    → search table.symbols name table.count ≡ none
unfolding lookup
lookup-none table name h = elim (Option-cases (search table.symbols name table.count)) [
  | inl e ↦ e
  | inr (i, e) ↦ ground arith
]

lookup_missing :
    (table : SymbolTable) (name : Chars)
    → search table.symbols name table.count ≡ none
    → lookup table name ≡ none
unfolding lookup
lookup_missing table name h = ground arith

pub SameSymbols-trans : {s t u : SymbolTable} → SameSymbols s t → SameSymbols t u → SameSymbols s u
SameSymbols-trans a b = record {
  symbols = b.symbols ∙ a.symbols;
  count = b.count ∙ a.count;
  next_string_addr = b.next_string_addr ∙ a.next_string_addr;
  pass = b.pass ∙ a.pass;
}

pub SameSymbols-refl : (t : SymbolTable) → SameSymbols t t
SameSymbols-refl t = record { symbols = refl; count = refl; next_string_addr = refl; pass = refl }

-- The table after a new definition.
unfoldable pub appended : SymbolTable → Symbol → SymbolTable
appended table s = record table {
  symbols = assign table.symbols table.count s;
  count = table.count + 1;
}

lookup-appended :
    (table : SymbolTable) (s : Symbol) (other : Chars)
    → lookup (appended table s) other
      ≡ (if same_chars s.name other then some s else lookup table other)
unfolding lookup appended search
lookup-appended table s other = elim (Bool-cases (same_chars s.name other)) [
  | inl hit ↦ ground arith
  | inr miss ↦ elim (Option-cases (search table.symbols other table.count)) [
    | inl e ↦ ground (arith, search-assign table.symbols s other table.count table.count)
    | inr (i, e) ↦ ground (
      arith,
      search-assign table.symbols s other table.count table.count,
      search-some table.symbols other table.count i,
    )
  ]
]

appended-IsDistinct :
    (table : SymbolTable) (s : Symbol)
    → IsDistinct table
    → lookup table s.name ≡ none
    → IsDistinct (appended table s)
unfolding appended
appended-IsDistinct table s distinct new i j hi hj e =
    let missing : _ = lookup-none table s.name new in
    ground (
      arith,
      distinct i j,
      search-none table.symbols s.name table.count i missing,
      search-none table.symbols s.name table.count j missing,
    )

pub SameSymbols-IsDistinct : {s t : SymbolTable} → SameSymbols s t → IsDistinct s → IsDistinct t
SameSymbols-IsDistinct same distinct i j hi hj e = ground (arith, distinct i j)

pub lookup-SameSymbols :
    {s t : SymbolTable} (name : Chars) → SameSymbols s t → lookup t name ≡ lookup s name
unfolding lookup
lookup-SameSymbols name same =
    ap₂
      (λ (f : ℕ → Symbol) (n : ℕ). elim (search f name n) as (λ _. Option Symbol) [
        | some i ↦ some (f i)
        | none ↦ none
      ])
      same.symbols same.count

module _ (table : SymbolTable) (name : Chars) (type : SymbolType) (address value : ℕ)
    (string_value : Option Chars) (line : ℕ) where
  -- The result of adding these.
  abbrev added : Bool × SymbolTable × List Message
  added = symbol_table_add table name type address value string_value line

  abbrev fresh : Symbol
  fresh = new_symbol name type address value string_value line

  abbrev found : SymbolTable
  found = (symbol_table_find table name).1

  same : SameSymbols table found
  same = symbol_table_find-SameSymbols table name

  pub added-new :
      IsDistinct table
      → table.count < max_symbols
      → lookup table name ≡ none
      → added ≡ (true, appended found fresh, [])
  unfolding symbol_table_add appended
  added-new distinct room new =
      ground (arith, symbol_table_find_lem table name distinct, lookup-none table name new)

  fresh-name : length name ≤ 63 → fresh.name ≡ name
  unfolding new_symbol
  fresh-name short = take-all 63 name short

  -- A name of 63 bytes at most that is not defined is defined, if there is room: afterwards it stands for
  -- the new symbol, and every other name for what it stood for before.
  pub lookup-symbol_table_add :
      (other : Chars)
      → IsDistinct table
      → table.count < max_symbols
      → length name ≤ 63
      → lookup table name ≡ none
      → (added.0 ≡ true)
        × (lookup added.1 other ≡ (
            if same_chars name other
            then some (new_symbol name type address value string_value line)
            else lookup table other))
  unfolding symbol_table_add
  lookup-symbol_table_add other distinct room short new =
      let e : _ = added-new distinct room new in
      (
        ap (λ r. r.0) e,
        ap (λ r. lookup r.1 other) e
            ∙ lookup-appended found fresh other
            ∙ rw (fresh-name short, lookup-SameSymbols other same) refl,
      )

  -- A name that is defined, or any name when the table is full, is refused, with one message and no
  -- change to the symbols.
  pub symbol_table_add-refused :
      IsDistinct table
      → (lookup table name ≢ none) ⊎ (max_symbols ≤ table.count)
      → (added.0 ≡ false) × (length added.2 ≡ 1) × SameSymbols table added.1
  unfolding symbol_table_add length
  symbol_table_add-refused distinct reason =
      elim (Option-cases (search table.symbols name table.count)) [
        | inl nothing ↦
            ground
              (arith, symbol_table_find_lem table name distinct, lookup_missing table name nothing)
        | inr (i, hit) ↦
            ground (arith, symbol_table_find_lem table name distinct, same, SameSymbols-refl table)
      ]

  -- Adding a symbol under a name of 63 bytes at most, whether it succeeds or not, keeps the names of
  -- the table distinct.
  pub symbol_table_add-IsDistinct : length name ≤ 63 → IsDistinct table → IsDistinct added.1
  unfolding symbol_table_add
  symbol_table_add-IsDistinct short distinct = elim (Bool-cases (leb max_symbols table.count)) [
    | inl full ↦ rw full distinct
    | inr room ↦ elim (Option-cases (search table.symbols name table.count)) [
      | inl nothing ↦
          subst (λ r. IsDistinct r.1)
            (sym (added-new distinct (ground arith) (lookup_missing table name nothing)))
            (appended-IsDistinct found fresh (SameSymbols-IsDistinct same distinct) (
              rw (fresh-name short, lookup-SameSymbols name same)
                (lookup_missing table name nothing)))
      | inr (i, hit) ↦
          rw (room, symbol_table_find_lem table name distinct, hit)
            (SameSymbols-IsDistinct same distinct)
    ]
  ]
