-- ===== src/Assembler/Hex.antt =====
-- src/assembler/dez_assembler.c: the hex file of `write_hex_file`, and a reader of such files.
use dez.Base.{
  ℕ, zero, suc, ◌+◌, ◌*◌, ◌/◌, ◌%◌, ◌^◌, ◌<◌, ◌-◌, ◌≡◌, refl, ap, ◌∙◌, Bool, true, ◌&&◌, ◌||◌, ◌==◌,
  leb, if◌then◌else◌, Option, some, none, List, [], ◌∷◌, Chars, codes, arith,
}
use dez.Loader.Image.{AllBelow}
use dez.Assembler.Driver.{hex_digit, hex_digits, hex_lines, write_hex_file}

-- What is left behind a prefix.
unfoldable behind : Chars → Chars → Option Chars
behind [] text = some text
behind (p ∷ prefix) [] = none
behind (p ∷ prefix) (c ∷ text) =
    let rest : Option Chars = behind prefix text in if p == c then rest else none

-- `0` to `9` and `A` to `F`.
unfoldable is_digit : ℕ → Bool
is_digit c = (leb 48 c && leb c 57) || (leb 65 c && leb c 70)

unfoldable worth : ℕ → ℕ
worth c = if leb c 57 then c - 48 else c - 55

unfoldable are_digits : Chars → Bool
are_digits [] = true
are_digits (c ∷ text) = let rest : Bool = are_digits text in is_digit c && rest

-- The number that hex digits write, behind those of `n`.
unfoldable number : ℕ → Chars → ℕ
number n [] = n
number n (c ∷ text) = number (16 * n + worth c) text

unfoldable with_word : ℕ → Option (List ℕ) → Option (List ℕ)
with_word w none = none
with_word w (some words) = some (w ∷ words)

-- Lines of eight hex digits, each with its line feed.
unfoldable read_lines : Chars → Option (List ℕ)
read_lines [] = some []
read_lines (a ∷ b ∷ c ∷ d ∷ e ∷ f ∷ g ∷ h ∷ feed ∷ text) =
    let more : Option (List ℕ) = read_lines text in
    let digits : Chars = a ∷ b ∷ c ∷ d ∷ e ∷ f ∷ g ∷ h ∷ [] in
    if feed == 10 && are_digits digits then with_word (number 0 digits) more else none
read_lines (_ ∷ _) = none

unfoldable read_behind : Option Chars → Option (List ℕ)
read_behind none = none
read_behind (some text) = read_lines text

-- The words of a hex file: its first line is `v2.0 raw`, the others are words. None for any other
-- text.
pub read_hex_file : Chars → Option (List ℕ)
read_hex_file text = read_behind (behind (codes "v2.0 raw\n") text)

hex_digit_lem : (d : ℕ) → d < 16 → (is_digit (hex_digit d) ≡ true) × (worth (hex_digit d) ≡ d)
unfolding is_digit worth hex_digit
hex_digit_lem d h = ground arith

-- One digit of a number.
digit_at :
    (w k : ℕ)
    → (is_digit (hex_digit (w / k % 16)) ≡ true) × (worth (hex_digit (w / k % 16)) ≡ w / k % 16)
digit_at w k = hex_digit_lem (w / k % 16) (omega arith)

are_digits-hex_digits : (n w : ℕ) → are_digits (hex_digits n w) ≡ true
unfolding are_digits hex_digits
are_digits-hex_digits zero w = refl
are_digits-hex_digits (suc n) w = rw ((digit_at w (16 ^ n)).0, are_digits-hex_digits n w) refl

number-hex_digits : (w : ℕ) → w < 2 ^ 32 → number 0 (hex_digits 8 w) ≡ w
unfolding number hex_digits
number-hex_digits w h = omega (
  arith,
  (digit_at w 0x10000000).1,
  (digit_at w 0x1000000).1,
  (digit_at w 0x100000).1,
  (digit_at w 0x10000).1,
  (digit_at w 0x1000).1,
  (digit_at w 0x100).1,
  (digit_at w 0x10).1,
  (digit_at w 1).1,
)

read_lines-hex_lines :
    (words : List ℕ) → AllBelow 4294967296 words → read_lines (hex_lines words) ≡ some words
unfolding read_lines hex_lines hex_digits with_word
read_lines-hex_lines [] small = refl
read_lines-hex_lines (w ∷ words) small =
    ap
      (λ b.
        if b then with_word (number 0 (hex_digits 8 w)) (read_lines (hex_lines words)) else none)
      (are_digits-hex_digits 8 w)
    ∙ ap (λ n. with_word n (read_lines (hex_lines words))) (number-hex_digits w small.0)
    ∙ ap (with_word w) (read_lines-hex_lines words small.1)

-- The hex file of a list of 32-bit words is read as those words, in their order: it has the first
-- line of such a file and a line of eight upper-case hex digits for each word.
pub read_hex_file-write_hex_file :
    (words : List ℕ) → AllBelow 4294967296 words → read_hex_file (write_hex_file words) ≡ some words
unfolding read_hex_file write_hex_file read_behind behind
read_hex_file-write_hex_file words small = read_lines-hex_lines words small
