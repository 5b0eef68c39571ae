-- ===== src/Parser/Length.antt =====
-- The rounds of a pass over the text of a program: at most half as many items as characters.
use dez.Base.{
  ◌≡◌, ◌+◌, ◌*◌, ◌<◌, ◌≤◌, ◌≢◌, refl, List, [], ◌∷◌, Chars, length, length-append, arith,
}
use dez.Parser.Spelling.{spelled}
use dez.Parser.Source.{name_of, count_of, operands_text, statement_text}
use dez.Parser.Program.{Item, mark, code, item_text, program_text, AllWritten, spoken}

some_more : (cs : Chars) → cs ≢ [] → 0 < length cs
unfolding length
some_more [] h = absurd (h refl)
some_more (c ∷ cs) h = omega arith

length-newline : (cs : Chars) → length (b'\n' ∷ cs) ≡ length cs + 1
unfolding length
length-newline cs = omega arith

item_text-more : (item : Item) → 0 < length (item_text item)
unfolding item_text statement_text length
item_text-more (mark name) = omega (arith, length-append name (b':' ∷ []), length-newline [])
item_text-more (code s op) = omega (
  arith,
  length-append (name_of (spelled op s).type)
      (operands_text (spelled op s).operands 0 (count_of (spelled op s).type)),
  some_more (name_of (spelled op s).type) (spoken s op),
)

-- Each line has at least two characters, so that the rounds of a pass are enough.
pub program_text-long :
    (items : List Item) → AllWritten items → 2 * length items ≤ length (program_text items)
unfolding program_text length
program_text-long [] written = omega arith
program_text-long (item ∷ items) (here, written) = omega (
  arith,
  program_text-long items written,
  item_text-more item,
  length-append (item_text item) (b'\n' ∷ program_text items),
  length-newline (program_text items),
)
