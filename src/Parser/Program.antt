-- ===== src/Parser/Program.antt =====
-- A program as its author sees it: labels and statements, their text, and what the labels stand for.
use dez.Base.{
  ℕ, suc, ◌+◌, ◌≡◌, ◌≢◌, Option, some, none, List, [], ◌∷◌, ◌++◌, Chars, same_chars, if◌then◌else◌,
}
use dez.Isa.Statement.{
  Statement, ArithmeticOp, BitOp, Condition, arithmetic_type, bit_type, jump_type, encode,
}
use dez.Lexer.Words.{IsName}
use dez.Parser.Operands.{Operand, label}
use dez.Parser.Spelling.{literal, spelled}
use dez.Parser.Source.{name_of, statement_text}
use dez.Parser.StatementText.{AllWritable}

-- A label, or a statement with the operand that stands for its number or address.
pub data Item : Type 0 where
  mark : Chars → Item
  code : Statement → Operand → Item

unfoldable pub item_text : Item → Chars
item_text (mark name) = name ++ b':' ∷ []
item_text (code s op) = statement_text (spelled op s).type (spelled op s).operands

-- One line for each item.
unfoldable pub program_text : List Item → Chars
program_text [] = []
program_text (item ∷ items) = item_text item ++ b'\n' ∷ program_text items

abbrev pub IsWritten : Item → Type 0
IsWritten (mark name) = IsName name
IsWritten (code s op) = AllWritable (spelled op s).type (spelled op s).operands

abbrev pub AllWritten : List Item → Type 0
AllWritten [] = Unit
AllWritten (item ∷ items) = IsWritten item × AllWritten items

-- The index of the statement that a label stands before, where `n` statements have gone before.
unfoldable pub label_index : ℕ → List Item → Chars → Option ℕ
label_index n [] name = none
label_index n (mark other ∷ items) name =
    let rest : Option ℕ = label_index n items name in if same_chars other name then some n else rest
label_index n (code s op ∷ items) name = label_index (n + 1) items name

-- No label is defined twice.
abbrev pub AllDifferent : List Item → Type 0
AllDifferent [] = Unit
AllDifferent (mark name ∷ items) = (label_index 0 items name ≡ none) × AllDifferent items
AllDifferent (code s op ∷ items) = AllDifferent items

unfoldable pub label_count : List Item → ℕ
label_count [] = 0
label_count (mark name ∷ items) = suc (label_count items)
label_count (code s op ∷ items) = label_count items

-- The words of the statements.
unfoldable pub words : List Item → List ℕ
words [] = []
words (mark name ∷ items) = words items
words (code s op ∷ items) = encode s ∷ words items

-- The number of an operand, its label being that of a statement of the program.
unfoldable pub resolved : (Chars → Option ℕ) → Operand → Option ℕ
resolved find (label name) = find name
resolved find op = literal op

-- The operand is that of the statement: for MOV, LOAD, the jumps and CALL it may be a label, for STORE
-- and SYS it may not.
abbrev pub Suits : (Chars → Option ℕ) → Operand → Statement → Type 0
Suits find op (Statement.move r n) = resolved find op ≡ some n
Suits find op (Statement.load_from r a) = resolved find op ≡ some a
Suits find op (Statement.store_to r a) = literal op ≡ some a
Suits find op (Statement.system r n) = literal op ≡ some n
Suits find op (Statement.jump c a) = resolved find op ≡ some a
Suits find op (Statement.call_to a) = resolved find op ≡ some a
Suits find op _ = Unit

abbrev pub AllSuit : (Chars → Option ℕ) → List Item → Type 0
AllSuit find [] = Unit
AllSuit find (mark name ∷ items) = AllSuit find items
AllSuit find (code s op ∷ items) = Suits find op s × AllSuit find items

arithmetic_spoken : (o : ArithmeticOp) → name_of (arithmetic_type o) ≢ []
unfolding name_of arithmetic_type
arithmetic_spoken ArithmeticOp.plus h = cc
arithmetic_spoken _ h = cc

bit_spoken : (o : BitOp) → name_of (bit_type o) ≢ []
unfolding name_of bit_type
bit_spoken BitOp.both h = cc
bit_spoken _ h = cc

jump_spoken : (c : Condition) → name_of (jump_type c) ≢ []
unfolding name_of jump_type
jump_spoken Condition.always h = cc
jump_spoken _ h = cc

-- Every statement has a mnemonic.
pub spoken : (s : Statement) (op : Operand) → name_of (spelled op s).type ≢ []
unfolding name_of spelled
spoken (Statement.arithmetic o r1 r2 r3) op h = arithmetic_spoken o h
spoken (Statement.arithmetic_value o r1 r2 n) op h = arithmetic_spoken o h
spoken (Statement.bits o r1 r2 r3) op h = bit_spoken o h
spoken (Statement.jump c a) op h = jump_spoken c h
spoken _ op h = cc
