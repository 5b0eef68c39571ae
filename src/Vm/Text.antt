-- ===== src/Vm/Text.antt =====
-- PRINT_STR prints the escape sequences of the string in memory, as a recursion on its bytes says.
use dez.Base.{
  ℕ, zero, suc, ◌+◌, ◌-◌, ◌<◌, ◌≤◌, ◌≡◌, refl, ◌∙◌, List, [], ◌∷◌, ltb, ◌==◌, ◌&&◌, ◌||◌, Bool,
  true, false, if◌then◌else◌, ◌⊎◌, inl, inr, Bool-cases, le→ltb, ltb→le, arith,
}
use dez.Event.{Event, print_char}
use dez.Memory.{Memory, memory_read_byte}
use dez.Vm.Sys.{escape, print_str_from, print_str, string_limit}

-- The bytes from address `pos` to the limit, `n` at most.
pub bytes_from : ℕ → Memory → ℕ → List ℕ
bytes_from zero mem pos = []
bytes_from (suc n) mem pos = (memory_read_byte mem pos).0 ∷ bytes_from n mem (pos + 1)

-- The bytes that make an escape sequence with a backslash before them: `n t r \ "`.
unfoldable pub escapes : ℕ → Bool
escapes d = d == 110 || d == 116 || d == 114 || d == 92 || d == 34

-- The character of an escape sequence: a line feed, a tab, a carriage return, a backslash, a quote.
unfoldable pub character : ℕ → ℕ
character d =
    if d == 110
    then 10
    else if d == 116
    then 9
    else if d == 114
    then 13
    else if d == 92
    then 92
    else 34

-- A C string with its escape sequences, as characters: it ends at the zero byte, or with the bytes.
-- A backslash and a byte that escapes are one character; any other backslash stands for itself.
pub unescape : List ℕ → List Event
unescape [] = []
unescape (c ∷ []) = if c == 0 then [] else print_char c ∷ []
unescape (c ∷ d ∷ rest) =
    let plain : List Event = print_char c ∷ unescape (d ∷ rest) in
    let pair : List Event = print_char (character d) ∷ unescape rest in
    if c == 0 then [] else if c == 92 && escapes d then pair else plain

escape-cases :
    (d : ℕ)
    → ((escapes d ≡ true) × ((escape d).0 ≡ character d) × ((escape d).1 ≡ 2))
      ⊎ ((escapes d ≡ false) × ((escape d).0 ≡ 92) × ((escape d).1 ≡ 1))
unfolding escape escapes character
escape-cases d = ground arith

read_byte-silent : (mem : Memory) (pos : ℕ) → pos < string_limit → (memory_read_byte mem pos).1 ≡ []
unfolding memory_read_byte
read_byte-silent mem pos h = ground arith

print_str_from-limit :
    (fuel : ℕ) (mem : Memory) (pos : ℕ) → string_limit ≤ pos → print_str_from fuel mem pos ≡ []
unfolding print_str_from
print_str_from-limit zero mem pos h = refl
print_str_from-limit (suc fuel) mem pos h = rw (le→ltb pos string_limit h)

-- The loop with as much fuel as there are bytes, from `n` bytes before the limit.
print_str_from_lem :
    (fuel n : ℕ) (mem : Memory) (pos : ℕ)
    → n ≤ fuel
    → pos + n ≡ string_limit
    → print_str_from fuel mem pos ≡ unescape (bytes_from n mem pos)
unfolding print_str_from unescape bytes_from
print_str_from_lem fuel zero mem pos enough e = print_str_from-limit fuel mem pos (omega arith)
print_str_from_lem zero (suc n) mem pos enough e = absurd (omega arith)
print_str_from_lem (suc fuel) (suc zero) mem pos enough e =
    ground (arith, read_byte-silent mem pos, print_str_from-limit fuel mem (pos + 1))
print_str_from_lem (suc fuel) (suc (suc n)) mem pos enough e = ground (
  arith,
  read_byte-silent mem pos,
  read_byte-silent mem (pos + 1),
  escape-cases (memory_read_byte mem (pos + 1)).0,
  print_str_from_lem fuel (suc n) mem (pos + 1),
  print_str_from_lem fuel n mem (pos + 1 + 1),
)

nothing_past : (mem : Memory) (addr : ℕ) → string_limit ≤ addr → string_limit - addr ≡ 0
nothing_past mem addr h = omega arith

-- PRINT_STR at any address prints the unescaped string of the bytes from there up to byte address
-- 0x200, and nothing at or past 0x200.
pub print_str_lem :
    (mem : Memory) (addr : ℕ) → print_str mem addr ≡ unescape (bytes_from (0x200 - addr) mem addr)
unfolding print_str unescape bytes_from
print_str_lem mem addr = elim (Bool-cases (ltb addr string_limit)) [
  | inl below ↦
      print_str_from_lem string_limit (string_limit - addr) mem addr (omega arith) (ground arith)
  | inr past ↦
      rw (nothing_past mem addr (ltb→le addr string_limit past))
        (print_str_from-limit string_limit mem addr (ltb→le addr string_limit past))
]

unescape-zero : (c : ℕ) (rest : List ℕ) → c ≡ 0 → unescape (c ∷ rest) ≡ []
unfolding unescape
unescape-zero c [] h = ground arith
unescape-zero c (d ∷ rest) h = ground arith

-- A string that starts with a zero byte prints nothing.
pub print_str-empty :
    (mem : Memory) (addr : ℕ)
    → addr < string_limit
    → (memory_read_byte mem addr).0 ≡ 0
    → print_str mem addr ≡ []
unfolding bytes_from
print_str-empty mem addr h zero_byte =
    let more : string_limit - addr ≡ suc (string_limit - addr - 1) = omega arith in
    print_str_lem mem addr
    ∙ rw more (unescape-zero _ (bytes_from (string_limit - addr - 1) mem (addr + 1)) zero_byte)
