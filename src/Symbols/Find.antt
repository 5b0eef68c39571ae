-- ===== src/Symbols/Find.antt =====
-- `symbol_table_find` against the linear search: the hash cache changes nothing but the time.
use dez.Base.{
  ℕ, zero, suc, ◌<◌, ◌≡◌, ◌≢◌, ◌⊎◌, refl, ◌∙◌, sym, ap, Option, none, some, Chars, same_chars,
  same_chars_refl, same_chars-eq, Bool-cases, inl, inr, arith,
}
use dez.Symbols.Defs.{Symbol, SymbolTable, search, search_and_cache, symbol_table_find, symbol_hash}

-- No two symbols of the table have the same name.
abbrev pub IsDistinct : SymbolTable → Type 0
IsDistinct table =
    (i j : ℕ)
    → i < table.count
    → j < table.count
    → (table.symbols i).name ≡ (table.symbols j).name
    → i ≡ j

-- All but the hash cache.
pub record SameSymbols (s t : SymbolTable) : Type 0 where
  pub symbols : t.symbols ≡ s.symbols
  pub count : t.count ≡ s.count
  pub next_string_addr : t.next_string_addr ≡ s.next_string_addr
  pub pass : t.pass ≡ s.pass

pub search-some :
    (f : ℕ → Symbol) (name : Chars) (n i : ℕ)
    → search f name n ≡ some i
    → (i < n) × ((f i).name ≡ name)
unfolding search
search-some f name zero i h = ground arith
search-some f name (suc n) i h = elim (Bool-cases (same_chars (f n).name name)) [
  | inl hit ↦ ground (arith, same_chars-eq (f n).name name)
  | inr miss ↦ ground (arith, search-some f name n i)
]

pub search-none :
    (f : ℕ → Symbol) (name : Chars) (n i : ℕ) → search f name n ≡ none → i < n → (f i).name ≢ name
unfolding search
search-none f name zero i h small e = omega arith
search-none f name (suc n) i h small e =
    ground (arith, search-none f name n i, same_chars_refl name)

pub symbol_table_find-SameSymbols :
    (table : SymbolTable) (name : Chars) → SameSymbols table (symbol_table_find table name).1
unfolding symbol_table_find search_and_cache
symbol_table_find-SameSymbols table name = ground arith

pub Option-cases {ℓ} : {A : Type ℓ} (o : Option A) → (o ≡ none) ⊎ ((a : A) × (o ≡ some a))
Option-cases none = inl refl
Option-cases (some a) = inr (a, refl)

search-found :
    (table : SymbolTable) (name : Chars) (i : ℕ)
    → IsDistinct table
    → i < table.count
    → (table.symbols i).name ≡ name
    → search table.symbols name table.count ≡ some i
search-found table name i distinct small e =
    elim (Option-cases (search table.symbols name table.count)) [
      | inl nothing ↦ absurd (search-none table.symbols name table.count i nothing small e)
      | inr (j, found) ↦
          let there : _ = search-some table.symbols name table.count j found in
          found ∙ ap some (distinct j i there.0 small (there.1 ∙ sym e))
    ]

-- With distinct names, finding a name gives what the linear search gives, whatever the hash cache
-- holds.
pub symbol_table_find_lem :
    (table : SymbolTable) (name : Chars)
    → IsDistinct table
    → (symbol_table_find table name).0 ≡ search table.symbols name table.count
unfolding symbol_table_find search_and_cache
symbol_table_find_lem table name distinct =
    elim (Option-cases (table.hash_table (symbol_hash name))) [
      | inl empty ↦ ground arith
      | inr (k, full) ↦ elim (Bool-cases (same_chars (table.symbols k).name name)) [
        | inl hit ↦
            ground (arith, search-found table name k, same_chars-eq (table.symbols k).name name)
        | inr miss ↦ ground arith
      ]
    ]
