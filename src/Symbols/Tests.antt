-- ===== src/Symbols/Tests.antt =====
-- The symbol table on a few names.
use dez.Base.{◌≡◌, refl, true, none, some, [], ◌∷◌, if◌then◌else◌, Chars, length, same_chars, arith}
use dez.Symbols.Defs.{
  symbol_label, SymbolTable, new_symbol, search, symbol_table_init, symbol_table_find,
  symbol_table_add, symbol_table_define,
}
use dez.Symbols.Find.{IsDistinct, symbol_table_find_lem}
use dez.Symbols.Define.{lookup, lookup-symbol_table_add, symbol_table_add-IsDistinct}

-- "loop", "end"
abbrev loop : Chars
loop = 108 ∷ 111 ∷ 111 ∷ 112 ∷ []

abbrev end : Chars
end = 101 ∷ 110 ∷ 100 ∷ []

init-IsDistinct : IsDistinct symbol_table_init
unfolding symbol_table_init
init-IsDistinct i j hi hj e = absurd (omega arith)

-- "loop" at address 5.
abbrev one_label : SymbolTable
one_label = (symbol_table_define symbol_table_init loop 5 1).1

one_label-IsDistinct : IsDistinct one_label
unfolding symbol_table_define length
one_label-IsDistinct =
    symbol_table_add-IsDistinct symbol_table_init loop symbol_label 5 0 none 1 (omega arith)
      init-IsDistinct

symbol_table_add-IsDistinct_example :
    IsDistinct (symbol_table_add one_label end symbol_label 9 0 none 2).1
unfolding length
symbol_table_add-IsDistinct_example =
    symbol_table_add-IsDistinct one_label end symbol_label 9 0 none 2 (omega arith)
      one_label-IsDistinct

symbol_table_find_lem_example :
    (symbol_table_find one_label loop).0 ≡ search one_label.symbols loop one_label.count
symbol_table_find_lem_example = symbol_table_find_lem one_label loop one_label-IsDistinct

lookup-symbol_table_add_example :
    ((symbol_table_add symbol_table_init loop symbol_label 5 0 none 1).0 ≡ true)
    × (lookup (symbol_table_add symbol_table_init loop symbol_label 5 0 none 1).1 end ≡ (
        if same_chars loop end
        then some (new_symbol loop symbol_label 5 0 none 1)
        else lookup symbol_table_init end))
unfolding length symbol_table_init lookup search
lookup-symbol_table_add_example =
    lookup-symbol_table_add symbol_table_init loop symbol_label 5 0 none 1 end init-IsDistinct
      (omega arith) (omega arith) refl
