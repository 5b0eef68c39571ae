-- ===== src/Parser/Resolved.antt =====
-- The operands of a program: labels that stand for indices, and operands that a statement lacks.
use dez.Base.{ℕ, ◌≡◌, refl, Option, some, List, Chars}
use dez.Isa.Statement.{
  Statement, ArithmeticOp, BitOp, Condition, arithmetic_type, bit_type, jump_type,
}
use dez.Symbols.{SymbolTable, Message}
use dez.Parser.Operands.{Operand, register, label, parser_encode_instruction}
use dez.Parser.Spelling.{literal, resolve, spelled, Gives}
use dez.Parser.StatementText.{parsed}
use dez.Parser.Source.{count_of}
use dez.Parser.Program.{resolved, Suits}
use dez.Parser.Defined.{address_in}

-- What the program's labels stand for, they stand for in the table.
abbrev pub Knows : SymbolTable → (Chars → Option ℕ) → Type 0
Knows table find = (name : Chars) (k : ℕ) → find name ≡ some k → address_in table name ≡ some k

resolved-resolve :
    (table : SymbolTable) (find : Chars → Option ℕ) (op : Operand) (n : ℕ)
    → Knows table find
    → resolved find op ≡ some n
    → resolve table op ≡ some n
unfolding resolved resolve literal
resolved-resolve table find (label name) n knows h = unfold resolve in knows name n h
resolved-resolve table find (register r) n knows h = h
resolved-resolve table find _ n knows h = h

pub Suits-Gives :
    (table : SymbolTable) (find : Chars → Option ℕ) (op : Operand) (s : Statement)
    → Knows table find
    → Suits find op s
    → Gives table op s
Suits-Gives table find op (Statement.move r n) knows h = resolved-resolve table find op n knows h
Suits-Gives table find op (Statement.load_from r a) knows h =
    resolved-resolve table find op a knows h
Suits-Gives table find op (Statement.store_to r a) knows h = h
Suits-Gives table find op (Statement.system r n) knows h = h
Suits-Gives table find op (Statement.jump c a) knows h = resolved-resolve table find op a knows h
Suits-Gives table find op (Statement.call_to a) knows h = resolved-resolve table find op a knows h
Suits-Gives table find op _ knows h = tt

-- The operands that a statement does not have do not matter.
module _ (union : Operand → ℕ) (unset : ℕ → Operand) (table : SymbolTable) (op : Operand) where
  abbrev of_parsed : Statement → ℕ × SymbolTable × List Message
  of_parsed s =
      parser_encode_instruction union table
        (parsed unset (spelled op s).type (spelled op s).operands)

  abbrev of_spelled : Statement → ℕ × SymbolTable × List Message
  of_spelled s = parser_encode_instruction union table (spelled op s)

  arithmetic_same :
      (o : ArithmeticOp) (r1 r2 r3 : ℕ)
      → (of_parsed (Statement.arithmetic o r1 r2 r3) ≡ of_spelled (Statement.arithmetic o r1 r2 r3))
        × (of_parsed (Statement.arithmetic_value o r1 r2 r3)
            ≡ of_spelled (Statement.arithmetic_value o r1 r2 r3))
  unfolding parser_encode_instruction spelled arithmetic_type count_of
  arithmetic_same ArithmeticOp.plus r1 r2 r3 = (refl, refl)
  arithmetic_same _ r1 r2 r3 = (refl, refl)

  bits_same :
      (o : BitOp) (r1 r2 r3 : ℕ)
      → of_parsed (Statement.bits o r1 r2 r3) ≡ of_spelled (Statement.bits o r1 r2 r3)
  unfolding parser_encode_instruction spelled bit_type count_of
  bits_same BitOp.both r1 r2 r3 = refl
  bits_same _ r1 r2 r3 = refl

  jump_same :
      (c : Condition) (a : ℕ) → of_parsed (Statement.jump c a) ≡ of_spelled (Statement.jump c a)
  unfolding parser_encode_instruction spelled jump_type count_of
  jump_same Condition.always a = refl
  jump_same _ a = refl

  pub parsed-spelled : (s : Statement) → of_parsed s ≡ of_spelled s
  unfolding parser_encode_instruction spelled count_of
  parsed-spelled (Statement.arithmetic o r1 r2 r3) = (arithmetic_same o r1 r2 r3).0
  parsed-spelled (Statement.arithmetic_value o r1 r2 r3) = (arithmetic_same o r1 r2 r3).1
  parsed-spelled (Statement.bits o r1 r2 r3) = bits_same o r1 r2 r3
  parsed-spelled (Statement.jump c a) = jump_same c a
  parsed-spelled _ = refl
