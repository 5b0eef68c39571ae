-- ===== src/Parser/Plain.antt =====
-- The text of a statement has no colon, no comment and no end of line, so that its line is not taken
-- for the definition of a label.
use dez.Base.{
  ℕ, zero, suc, ◌+◌, ◌<◌, ◌^◌, ◌≡◌, ◌≢◌, refl, ap, ap₂, ◌∙◌, Bool, true, false, not, ◌||◌, Option,
  none, [], ◌∷◌, ◌++◌, Chars, ◌==◌, ltb, Bool-cases, inl, inr, arith, codes, same_chars,
}
use dez.Isa.Instruction.{InstructionType}
use dez.Lexer.{lexer_is_alnum, lexer_is_alpha, lexer_is_digit, alpha_table, Lexer}
use dez.Lexer.Reads.{All}
use dez.Lexer.Words.{IsName}
use dez.Lexer.Registers.{register_name}
use dez.Lexer.Decimal.{decimal, decimal-All}
use dez.Parser.Operands.{Operand, register, immediate, memory, memory_label, label, string}
use dez.Parser.Lines.{up_to_line_end, solid_with, last_solid, is_colon, line_ends_with_colon}
use dez.Parser.Source.{operand_text, operands_text, IsWritable, name_of, count_of, statement_text}
use dez.Parser.Mnemonics.{find_mnemonic-name_of}
use dez.Parser.StatementText.{AllWritable}

-- Neither a colon nor the end of the line nor the start of a comment.
unfoldable pub is_plain : ℕ → Bool
is_plain c = not (c == b'\n' || (c == b';' || c == b':'))

alnum-plain : (c : ℕ) → lexer_is_alnum c ≡ true → is_plain c ≡ true
unfolding lexer_is_alnum lexer_is_alpha lexer_is_digit alpha_table is_plain
alnum-plain c h = ground (arith, h)

All-map :
    {test other : ℕ → Bool}
    → ((c : ℕ) → test c ≡ true → other c ≡ true)
    → (text : Chars) → All test text
    → All other text
All-map go [] all = tt
All-map go (c ∷ text) all = (go c all.0, All-map go text all.1)

pub All-append : (test : ℕ → Bool) (xs ys : Chars) → All test xs → All test ys → All test (xs ++ ys)
All-append test [] ys hx hy = hy
All-append test (x ∷ xs) ys hx hy = (hx.0, All-append test xs ys hx.1 hy)

pub name-plain : (name : Chars) → IsName name → All is_plain name
name-plain [] named = absurd named
name-plain (c ∷ word) (letter, all, short, free) =
    (alnum-plain c (unfold lexer_is_alnum in rw letter), All-map alnum-plain word all)

digit-plain : (c : ℕ) → lexer_is_digit c ≡ true → is_plain c ≡ true
unfolding lexer_is_digit is_plain
digit-plain c h = ground (arith, h)

number-plain : (n : ℕ) → n < 2 ^ 32 → All is_plain (decimal n)
number-plain n small = All-map digit-plain (decimal n) (decimal-All n small)

register-plain : (r : ℕ) → r < 16 → All is_plain (register_name r)
unfolding register_name is_plain
register-plain r small = elim (Bool-cases (ltb r 10)) [
  | inl short ↦ rw short (refl, (ground arith, tt))
  | inr long ↦ rw long (refl, (refl, (ground arith, tt)))
]

operand-plain : (op : Operand) → IsWritable op → All is_plain (operand_text op)
unfolding operand_text is_plain
operand-plain (register r) small = register-plain r small
operand-plain (immediate n) small = number-plain n small
operand-plain (memory n) small =
    (refl, All-append is_plain (decimal n) (93 ∷ []) (number-plain n small) (refl, tt))
operand-plain (memory_label name) named =
    (refl, All-append is_plain name (93 ∷ []) (name-plain name named) (refl, tt))
operand-plain (label name) (named, free) = name-plain name named
operand-plain (string s) never = absurd never

pub operands-plain :
    (operands : ℕ → Operand) (i n : ℕ)
    → ((j : ℕ) → j < i + n → IsWritable (operands j))
    → All is_plain (operands_text operands i n)
unfolding operands_text is_plain
operands-plain operands i zero writable = tt
operands-plain operands zero (suc n) writable = (
  refl,
  All-append _ (operand_text (operands zero)) _
      (operand-plain (operands zero) (writable zero (omega arith)))
      (operands-plain operands 1 n (λ j h. writable j (omega arith))),
)
operands-plain operands (suc i) (suc n) writable = (
  refl,
  (
    refl,
    All-append _ (operand_text (operands (suc i))) _
        (operand-plain (operands (suc i)) (writable (suc i) (omega arith)))
        (operands-plain operands (suc i + 1) n (λ j h. writable j (omega arith))),
  ),
)

pub statement-plain :
    (type : InstructionType) (operands : ℕ → Operand)
    → name_of type ≢ []
    → AllWritable type operands
    → All is_plain (statement_text type operands)
unfolding statement_text
statement-plain type operands spoken writable =
    All-append is_plain (name_of type) (operands_text operands 0 (count_of type))
      (name-plain (name_of type) (find_mnemonic-name_of type spoken).0)
      (operands-plain operands 0 (count_of type) (λ j h. writable j (omega arith)))

-- The line ends where the plain text does.
up_to_line_end-plain :
    (text rest : Chars) → All is_plain text → up_to_line_end (text ++ b'\n' ∷ rest) ≡ text
unfolding up_to_line_end is_plain
up_to_line_end-plain [] rest all = refl
up_to_line_end-plain (c ∷ text) rest all =
    ground (arith, all.0, up_to_line_end-plain text rest all.1)

pub last_solid-append :
    (last : Option ℕ) (xs ys : Chars)
    → last_solid last (xs ++ ys) ≡ last_solid (last_solid last xs) ys
unfolding last_solid
last_solid-append last [] ys = refl
last_solid-append last (x ∷ xs) ys = last_solid-append (solid_with last x) xs ys

solid_with-plain :
    (last : Option ℕ) (c : ℕ)
    → is_colon last ≡ false
    → is_plain c ≡ true
    → is_colon (solid_with last c) ≡ false
unfolding solid_with is_colon is_plain
solid_with-plain last c h plain = ground (arith, h, plain)

-- In a plain text no colon is met.
last_solid-plain :
    (last : Option ℕ) (text : Chars)
    → is_colon last ≡ false
    → All is_plain text
    → is_colon (last_solid last text) ≡ false
unfolding last_solid
last_solid-plain last [] h all = h
last_solid-plain last (c ∷ text) h all =
    last_solid-plain (solid_with last c) text (solid_with-plain last c h all.0) all.1

-- A lexer in a line of plain text, at the start of which no character counts: the line is no label.
pub line-plain :
    (lexer : Lexer) (passed before after rest : Chars)
    → lexer.passed ≡ passed ++ before
    → lexer.rest ≡ after ++ b'\n' ∷ rest
    → last_solid none passed ≡ none
    → All is_plain before
    → All is_plain after
    → line_ends_with_colon lexer ≡ false
unfolding line_ends_with_colon
line-plain lexer passed before after rest here left start h1 h2 =
    ap is_colon (
      ap₂ (λ xs ys. last_solid none (xs ++ ys)) here
        (ap up_to_line_end left ∙ up_to_line_end-plain after rest h2)
      ∙ last_solid-append none (passed ++ before) after
      ∙ ap (λ l. last_solid l after)
          (last_solid-append none passed before ∙ ap (λ l. last_solid l before) start))
    ∙ last_solid-plain _ after (last_solid-plain none before (unfold is_colon in refl) h1) h2

-- The first words are no constant definitions.
pub name_of-equ : (type : InstructionType) → same_chars (name_of type) (codes "EQU") ≡ false
unfolding same_chars name_of
name_of-equ InstructionType.mov = refl
name_of-equ _ = refl
