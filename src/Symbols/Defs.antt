-- ===== src/Symbols/Defs.antt =====
-- src/assembler/dez_symbol_table.h and dez_symbol_table.c: the symbol table of the assembler, with
-- its hash cache. A pointer to a symbol is its index in the array.
use dez.Base.{
  ℕ, zero, suc, ◌+◌, ◌%◌, Bool, true, false, ◌&&◌, Option, none, some, List, [], ◌∷◌, ltb, leb,
  ◌==◌, if◌then◌else◌, u32, ◌<<◌, add32, Chars, length, take, same_chars, assign,
}

-- `symbol_type_t`
pub data SymbolType : Type 0 where
  symbol_label symbol_string symbol_variable symbol_constant : SymbolType

unfoldable pub is_string : SymbolType → Bool
is_string symbol_string = true
is_string _ = false

-- `symbol_t`
pub record Symbol : Type 0 where
  pub name : Chars
  pub type : SymbolType
  pub address : ℕ
  pub value : ℕ
  pub string_value : Chars
  pub defined : Bool
  pub line : ℕ

-- `symbol_table_t`; `none` is the -1 of an empty entry of the hash table.
pub record SymbolTable : Type 0 where
  pub symbols : ℕ → Symbol
  pub count : ℕ
  pub hash_table : ℕ → Option ℕ
  pub next_string_addr : ℕ
  pub pass : ℕ

-- What the table prints on an error: the table is full; a name and the line that defines it.
pub data Message : Type 0 where
  table_full : Message
  already_defined : Chars → ℕ → Message
  undefined_symbol : Chars → Message

abbrev pub max_symbols : ℕ
max_symbols = 1024

-- A symbol of zero bytes.
abbrev pub blank : Symbol
blank = record {
  name = [];
  type = symbol_label;
  address = 0;
  value = 0;
  string_value = [];
  defined = false;
  line = 0;
}

unfoldable pub symbol_table_init : SymbolTable
symbol_table_init = record {
  symbols = λ i. blank;
  count = 0;
  hash_table = λ h. none;
  next_string_addr = 0x100;
  pass = 1;
}

-- The loop of `symbol_hash`. A byte from 128 on may be negative as a `char`; that changes the sum by a
-- multiple of 256, which the last step removes.
unfoldable pub hash_from : ℕ → Chars → ℕ
hash_from hash [] = hash
hash_from hash (c ∷ name) = hash_from (add32 (add32 (u32 (hash << 5)) hash) c) name

unfoldable pub symbol_hash : Chars → ℕ
symbol_hash name = hash_from 5381 name % 256

-- The linear search, from symbol `n - 1` down.
unfoldable pub search : (ℕ → Symbol) → Chars → ℕ → Option ℕ
search symbols name zero = none
search symbols name (suc i) =
    let rest : Option ℕ = search symbols name i in
    if same_chars (symbols i).name name then some i else rest

-- The linear search, which keeps what it finds in the hash table.
unfoldable pub search_and_cache : SymbolTable → Chars → Option ℕ × SymbolTable
search_and_cache table name = elim (search table.symbols name table.count) [
  | some i ↦
      (some i, record table { hash_table = assign table.hash_table (symbol_hash name) (some i) })
  | none ↦ (none, table)
]

unfoldable pub symbol_table_find : SymbolTable → Chars → Option ℕ × SymbolTable
symbol_table_find table name = elim (table.hash_table (symbol_hash name)) [
  | none ↦ search_and_cache table name
  | some index ↦
      if ltb index table.count && same_chars (table.symbols index).name name
      then (some index, table)
      else search_and_cache table name
]

-- The new symbol of `symbol_table_add`: names are cut to 63 bytes and strings to 255, and a null
-- string is `none`.
unfoldable pub new_symbol : Chars → SymbolType → ℕ → ℕ → Option Chars → ℕ → Symbol
new_symbol name type address value string_value line = record {
  name = take 63 name;
  type = type;
  address = address;
  value = value;
  string_value = elim string_value [ some s ↦ take 255 s | none ↦ [] ];
  defined = true;
  line = line;
}

unfoldable pub symbol_table_add :
    SymbolTable → Chars → SymbolType → ℕ → ℕ → Option Chars → ℕ → Bool × SymbolTable × List Message
symbol_table_add table name type address value string_value line =
    if leb max_symbols table.count
    then (false, table, table_full ∷ [])
    else let (existing, table') = symbol_table_find table name in
      elim existing [
        | some i ↦ (false, table', already_defined name (table'.symbols i).line ∷ [])
        | none ↦ (
          true,
          record table' {
            symbols =
                assign table'.symbols table'.count
                  (new_symbol name type address value string_value line);
            count = table'.count + 1;
          },
          [],
        )
      ]

unfoldable pub symbol_table_define : SymbolTable → Chars → ℕ → ℕ → Bool × SymbolTable × List Message
symbol_table_define table name address line =
    symbol_table_add table name symbol_label address 0 none line

-- The address of a new string, and the table that has moved on behind it and its zero byte.
unfoldable pub symbol_table_allocate_string : SymbolTable → Chars → ℕ × SymbolTable
symbol_table_allocate_string table str = (
  table.next_string_addr,
  record table { next_string_addr = add32 table.next_string_addr (length str + 1) },
)

unfoldable pub symbol_table_define_string :
    SymbolTable → Chars → Chars → ℕ → Bool × SymbolTable × List Message
symbol_table_define_string table name value line =
    let (addr, table') = symbol_table_allocate_string table value in
    symbol_table_add table' name symbol_string addr 0 (some value) line

unfoldable pub symbol_table_define_constant :
    SymbolTable → Chars → ℕ → ℕ → Bool × SymbolTable × List Message
symbol_table_define_constant table name value line =
    symbol_table_add table name symbol_constant value value none line

-- The loop of `symbol_table_get_string` over `n` symbols from symbol `i` on.
unfoldable pub get_string_from : (ℕ → Symbol) → ℕ → ℕ → ℕ → Option Chars
get_string_from symbols address i zero = none
get_string_from symbols address i (suc n) =
    let rest : Option Chars = get_string_from symbols address (i + 1) n in
    if is_string (symbols i).type && (symbols i).address == address
    then some (symbols i).string_value
    else rest

unfoldable pub symbol_table_get_string : SymbolTable → ℕ → Option Chars
symbol_table_get_string table address = get_string_from table.symbols address 0 table.count

-- The loop of `symbol_table_validate` over `n` symbols from symbol `i` on.
unfoldable pub validate_from : (ℕ → Symbol) → ℕ → ℕ → Bool × List Message
validate_from symbols i zero = (true, [])
validate_from symbols i (suc n) =
    let (valid, log) = validate_from symbols (i + 1) n in
    if (symbols i).defined then (valid, log) else (false, undefined_symbol (symbols i).name ∷ log)

unfoldable pub symbol_table_validate : SymbolTable → Bool × List Message
symbol_table_validate table = validate_from table.symbols 0 table.count
