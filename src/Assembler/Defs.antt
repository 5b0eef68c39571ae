-- ===== src/Assembler/Defs.antt =====
-- src/assembler/dez_assembler.c: `write_binary_file_with_strings`, as the bytes that it writes to a file
-- that can be opened.
use dez.Base.{
  ℕ, zero, suc, ◌+◌, ◌-◌, ◌*◌, ◌/◌, ◌&&◌, List, [], ◌∷◌, ◌++◌, if◌then◌else◌, Chars, length,
}
use dez.Loader.{ByteOrder}
use dez.Loader.Image.{bytes_of}
use dez.Symbols.{Symbol, SymbolTable, is_string}

-- `n` bytes of zero.
unfoldable pub zeros : ℕ → List ℕ
zeros zero = []
zeros (suc n) = 0 ∷ zeros n

-- The length of a string with its zero byte, up to a whole number of words.
unfoldable pub padded_length : Chars → ℕ
padded_length str = let len : ℕ = length str + 1 in (len + 4 - 1) / 4 * 4

-- A string, its zero byte, and zeros up to the end of the word.
unfoldable pub padded : Chars → List ℕ
padded str = str ++ (0 ∷ zeros (padded_length str - (length str + 1)))

-- The loop over `n` symbols from symbol `i` on.
unfoldable pub string_data : (ℕ → Symbol) → ℕ → ℕ → List ℕ
string_data symbols i zero = []
string_data symbols i (suc n) =
    let rest : List ℕ = string_data symbols (i + 1) n in
    if is_string (symbols i).type && (symbols i).defined
    then padded (symbols i).string_value ++ rest
    else rest

-- `words` is `data`, and `count` its length.
unfoldable pub write_binary_file_with_strings : ByteOrder → List ℕ → SymbolTable → List ℕ
write_binary_file_with_strings order words symbol_table =
    bytes_of order (length words ∷ words) (string_data symbol_table.symbols 0 symbol_table.count)
