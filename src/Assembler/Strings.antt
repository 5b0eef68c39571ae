-- ===== src/Assembler/Strings.antt =====
-- Where the strings of a written file are, once it is loaded.
use dez.Base.{
  length-append, ℕ, zero, suc, ◌+◌, ◌-◌, ◌%◌, ◌<◌, ◌≤◌, ◌≡◌, ◌≢◌, refl, ◌∙◌, ap, true, some, ◌&&◌,
  List, [], ◌∷◌, ◌++◌, if◌then◌else◌, if_both, ltb, ltb→lt, ltb→le, false, Chars, length,
  Bool-cases, inl, inr, arith,
}
use dez.Memory.{memory_read_byte}
use dez.Memory.Access
use dez.Vm.State.{Vm}
use dez.Vm.Sys.{print_str}
use dez.Vm.Text.{print_str-empty}
use dez.Loader.{ByteOrder, dez_vm_load_program}
use dez.Loader.Image.{nth, AllBelow}
use dez.Loader.Program.{program_file, dez_vm_load_program_lem}
use dez.Symbols.{Symbol, SymbolTable, is_string}
use dez.Assembler.Defs.{zeros, padded, padded_length, string_data, write_binary_file_with_strings}

nth-append_left : (xs ys : List ℕ) (k : ℕ) → k < length xs → nth (xs ++ ys) k ≡ nth xs k
unfolding length nth
nth-append_left [] ys k h = absurd (omega arith)
nth-append_left (x ∷ xs) ys zero h = refl
nth-append_left (x ∷ xs) ys (suc k) h = nth-append_left xs ys k (omega arith)

nth-append_right : (xs ys : List ℕ) (k : ℕ) → nth (xs ++ ys) (length xs + k) ≡ nth ys k
unfolding length nth
nth-append_right [] ys k = ground arith
nth-append_right (x ∷ xs) ys k =
    let e : length (x ∷ xs) + k ≡ suc (length xs + k) = omega arith in
    rw e (nth-append_right xs ys k)

length-zeros : (n : ℕ) → length (zeros n) ≡ n
unfolding zeros length
length-zeros zero = refl
length-zeros (suc n) = ap suc (length-zeros n)

nth-zeros : (n k : ℕ) → nth (zeros n) k ≡ 0
unfolding zeros nth
nth-zeros zero k = refl
nth-zeros (suc n) zero = refl
nth-zeros (suc n) (suc k) = nth-zeros n k

length-padded : (s : Chars) → length (padded s) ≡ padded_length s
unfolding padded padded_length length
length-padded s =
    let tail : ℕ = padded_length s - (length s + 1) in
    omega (arith, length-append s (0 ∷ zeros tail), length-zeros tail)

-- The bytes that a string takes: itself, a zero byte, and zeros up to a multiple of four.
unfoldable pub room_of : Chars → ℕ
room_of s = length s + 4 - length s % 4

-- How far into the string data the string of symbol `i + n` is, from the string of symbol `i` on:
-- as far as the room of the defined strings before it.
unfoldable pub file_offset : (ℕ → Symbol) → ℕ → ℕ → ℕ
file_offset symbols i zero = 0
file_offset symbols i (suc n) =
    let rest : ℕ = file_offset symbols (i + 1) n in
    if is_string (symbols i).type && (symbols i).defined
    then room_of (symbols i).string_value + rest
    else rest

padded_length_lem : (s : Chars) → padded_length s ≡ room_of s
unfolding padded_length room_of
padded_length_lem s = omega arith

length-room : (s : Chars) → length (padded s) ≡ room_of s
length-room s = length-padded s ∙ padded_length_lem s

-- A byte of the string of symbol `j` in the string data.
nth-string_data :
    (symbols : ℕ → Symbol) (i n m k j : ℕ)
    → j ≡ i + n
    → n < m
    → is_string (symbols j).type ≡ true
    → (symbols j).defined ≡ true
    → k < room_of (symbols j).string_value
    → nth (string_data symbols i m) (file_offset symbols i n + k)
      ≡ nth (padded (symbols j).string_value) k
unfolding string_data file_offset
nth-string_data symbols i n zero k j e h s d low = absurd (omega arith)
nth-string_data symbols i zero (suc m) k j e h s d low =
    let here : j ≡ i = omega arith in
    let text : Chars = (symbols i).string_value in
    ground (
      arith,
      ap symbols here,
      nth-append_left (padded text) (string_data symbols (i + 1) m) k,
      length-room text,
    )
nth-string_data symbols i (suc n) (suc m) k j e h s d low =
    let rest : List ℕ = string_data symbols (i + 1) m in
    let offset : ℕ = file_offset symbols (i + 1) n in
    let text : Chars = (symbols i).string_value in
    let there : nth rest (offset + k) ≡ nth (padded (symbols j).string_value) k =
      nth-string_data symbols (i + 1) n m k j (omega arith) (omega arith) s d low in
    elim (Bool-cases (is_string (symbols i).type && (symbols i).defined)) [
      | inl first ↦
          let moved : room_of text + offset + k ≡ length (padded text) + (offset + k) =
            omega (arith, length-room text) in
          rw first (
            ap (nth (padded text ++ rest)) moved
            ∙ nth-append_right (padded text) rest (offset + k)
            ∙ there)
      | inr skipped ↦ rw skipped there
    ]

offset-within :
    (symbols : ℕ → Symbol) (i n m k j : ℕ)
    → j ≡ i + n
    → n < m
    → is_string (symbols j).type ≡ true
    → (symbols j).defined ≡ true
    → k < room_of (symbols j).string_value
    → file_offset symbols i n + k < length (string_data symbols i m)
unfolding string_data file_offset
offset-within symbols i n zero k j e h s d low = absurd (omega arith)
offset-within symbols i zero (suc m) k j e h s d low =
    let here : j ≡ i = omega arith in
    let text : Chars = (symbols i).string_value in
    ground (
      arith,
      ap symbols here,
      length-append (padded text) (string_data symbols (i + 1) m),
      length-room text,
    )
offset-within symbols i (suc n) (suc m) k j e h s d low =
    let text : Chars = (symbols i).string_value in
    let there : file_offset symbols (i + 1) n + k < length (string_data symbols (i + 1) m) =
      offset-within symbols (i + 1) n m k j (omega arith) (omega arith) s d low in
    ground (arith, length-append (padded text) (string_data symbols (i + 1) m), length-room text)

-- The bytes of a padded string: those of the string, and then zeros.
nth-padded : (s : Chars) (k : ℕ) → nth (padded s) k ≡ (if ltb k (length s) then nth s k else 0)
unfolding padded nth zeros
nth-padded s k =
    let tail : ℕ = padded_length s - (length s + 1) in
    elim (Bool-cases (ltb k (length s))) [
      | inl inside ↦ rw inside (nth-append_left s (0 ∷ zeros tail) k (ltb→lt k (length s) inside))
      | inr behind ↦
          let split : k ≡ length s + (k - length s) = omega (arith, ltb→le k (length s) behind) in
          rw behind (
            ap (nth (s ++ 0 ∷ zeros tail)) split
            ∙ nth-append_right s (0 ∷ zeros tail) (k - length s)
            ∙ nth-zeros (suc tail) (k - length s))
    ]

AllBelow-append : (b : ℕ) (xs ys : List ℕ) → AllBelow b xs → AllBelow b ys → AllBelow b (xs ++ ys)
AllBelow-append b [] ys hx hy = hy
AllBelow-append b (x ∷ xs) ys hx hy = (hx.0, AllBelow-append b xs ys hx.1 hy)

AllBelow-zeros : (n : ℕ) → AllBelow 256 (zeros n)
unfolding zeros
AllBelow-zeros zero = tt
AllBelow-zeros (suc n) = (omega arith, AllBelow-zeros n)

AllBelow-padded : (s : Chars) → AllBelow 256 s → AllBelow 256 (padded s)
unfolding padded zeros
AllBelow-padded s small =
    let tail : ℕ = padded_length s - (length s + 1) in
    AllBelow-append 256 s (0 ∷ zeros tail) small (AllBelow-zeros (suc tail))

AllBelow-string_data :
    (symbols : ℕ → Symbol) (i m : ℕ)
    → ((j : ℕ) → i ≤ j → j < i + m → AllBelow 256 (symbols j).string_value)
    → AllBelow 256 (string_data symbols i m)
unfolding string_data
AllBelow-string_data symbols i zero small = tt
AllBelow-string_data symbols i (suc m) small =
    let rest : List ℕ = string_data symbols (i + 1) m in
    let more =
      AllBelow-string_data symbols (i + 1) m (λ j low high. small j (omega arith) (omega arith)) in
    if_both (AllBelow 256) (is_string (symbols i).type && (symbols i).defined)
      (AllBelow-append 256 (padded (symbols i).string_value) rest
        (AllBelow-padded (symbols i).string_value (small i (omega arith) (omega arith))) more)
      more

module _ (order : ByteOrder) (words : List ℕ) (table : SymbolTable) (vm : Vm) where
  -- What `write_binary_file_with_strings` writes.
  abbrev written : List ℕ
  written = write_binary_file_with_strings order words table

  abbrev after : Vm
  after = dez_vm_load_program order (some written) vm

  -- A byte of the string of symbol `j`, once the file is loaded.
  string_byte :
      (j k : ℕ)
      → Access.IsValid vm.memory
      → 1 ≤ length words
      → length words ≤ 1024
      → AllBelow 4294967296 words
      → AllBelow 256 (string_data table.symbols 0 table.count)
      → j < table.count
      → is_string (table.symbols j).type ≡ true
      → (table.symbols j).defined ≡ true
      → k < room_of (table.symbols j).string_value
      → file_offset table.symbols 0 j + k < 0x100
      → (memory_read_byte after.memory (0x100 + (file_offset table.symbols 0 j + k))).0 ≡ (
          if ltb k (length (table.symbols j).string_value)
          then nth (table.symbols j).string_value k
          else 0)
  unfolding write_binary_file_with_strings program_file
  string_byte j k v some_words fits small bytes inside s d low space =
      (dez_vm_load_program_lem order words (string_data table.symbols 0 table.count) vm v some_words
          fits small bytes).5
        (file_offset table.symbols 0 j + k)
        (offset-within table.symbols 0 j table.count k j (omega arith) inside s d low) space
      ∙ nth-string_data table.symbols 0 j table.count k j (omega arith) inside s d low
      ∙ nth-padded (table.symbols j).string_value k

  -- A file of 1 to 1024 words, each of 32 bits, and of the symbols of a table, the characters of
  -- whose strings are bytes, is written, and loaded into a machine with a valid memory. The room of
  -- a string is its length with a zero byte, rounded up to a multiple of four. From byte address
  -- 0x100 and the room of the defined strings before it on, the room of a defined string symbol
  -- holds the characters of the string and then zeros, as far as it is below byte address 0x200.
  pub load-write :
      (j k : ℕ)
      → Access.IsValid vm.memory
      → 1 ≤ length words
      → length words ≤ 1024
      → AllBelow 4294967296 words
      → ((i : ℕ) → i < table.count → AllBelow 256 (table.symbols i).string_value)
      → j < table.count
      → is_string (table.symbols j).type ≡ true
      → (table.symbols j).defined ≡ true
      → k < room_of (table.symbols j).string_value
      → file_offset table.symbols 0 j + k < 0x100
      → (memory_read_byte after.memory (0x100 + (file_offset table.symbols 0 j + k))).0 ≡ (
          if ltb k (length (table.symbols j).string_value)
          then nth (table.symbols j).string_value k
          else 0)
  load-write j k v some_words fits small bytes inside s d low space =
      string_byte j k v some_words fits small
        (AllBelow-string_data table.symbols 0 table.count (λ i low high. bytes i (omega arith)))
        inside s d low space

  -- When the first two symbols are strings, the second at the address that follows the first, and the
  -- first string with its zero byte does not fill whole words, PRINT_STR at the address of the second
  -- string prints nothing: it finds the padding of the first.
  pub print_str-misplaced :
      Access.IsValid vm.memory
      → 1 ≤ length words
      → length words ≤ 1024
      → AllBelow 4294967296 words
      → AllBelow 256 (string_data table.symbols 0 table.count)
      → 2 ≤ table.count
      → is_string (table.symbols 0).type ≡ true
      → (table.symbols 0).defined ≡ true
      → (length (table.symbols 0).string_value + 1) % 4 ≢ 0
      → length (table.symbols 0).string_value + 1 < 0x100
      → (table.symbols 1).address ≡ 0x100 + (length (table.symbols 0).string_value + 1)
      → print_str after.memory (table.symbols 1).address ≡ []
  unfolding file_offset room_of
  print_str-misplaced v some_words fits small bytes two s d uneven space address =
      let first : Chars = (table.symbols 0).string_value in
      let index : 0x100 + (length first + 1) ≡ 0x100 + (0 + (length first + 1)) = omega arith in
      let outside : ltb (length first + 1) (length first) ≡ false = ground arith in
      let found : (memory_read_byte after.memory (0x100 + (length first + 1))).0 ≡ 0 =
        ap (λ b. (memory_read_byte after.memory b).0) index
        ∙ string_byte 0 (length first + 1) v some_words fits small bytes (omega arith) s d
            (omega arith) (omega arith)
        ∙ ap (λ b. if b then nth first (length first + 1) else 0) outside in
      rw address (print_str-empty after.memory (0x100 + (length first + 1)) (omega arith) found)
