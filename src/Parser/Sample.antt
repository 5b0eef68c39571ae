-- ===== src/Parser/Sample.antt =====
-- A small program for the tests.
use dez.Base.{ℕ, suc, refl, zero, List, [], ◌∷◌, Chars, codes, length, take, same_chars, arith}
use dez.Isa.Statement.{Statement, Condition, jump_type}
use dez.Lexer.{
  lexer_is_alpha, lexer_is_alnum, lexer_is_digit, alpha_table, is_register_token, TokenType,
}
use dez.Lexer.Words.{IsName, is_name, is_name-IsName}
use dez.Parser.Operands.{Operand, label, immediate}
use dez.Parser.Spelling.{spelled}
use dez.Parser.Statements.{named_operand}
use dez.Parser.Source.{count_of, IsWritable}
use dez.Parser.StatementText.{AllWritable}
use dez.Parser.Program.{Item, mark, code, AllWritten, AllDifferent, AllSuit, label_index, resolved}

abbrev pub no_union : Operand → ℕ
no_union op = 0

abbrev pub unset : ℕ → Operand
unset i = immediate 0

abbrev pub loop : Chars
loop = codes "loop"

-- loop:
-- JMP loop
-- HALT
abbrev pub endless : List Item
endless =
    mark loop
    ∷ code (Statement.jump Condition.always 0) (label loop)
    ∷ code Statement.stop (immediate 0)
    ∷ []

loop-IsName : IsName loop
unfolding is_name lexer_is_alpha alpha_table dez.Lexer.Words.all lexer_is_alnum length
    is_register_token
loop-IsName = is_name-IsName loop refl

pub loop-IsWritable : IsWritable (label loop)
unfolding named_operand same_chars take
loop-IsWritable = (loop-IsName, refl)

pub jump_to_loop :
    AllWritable
      (spelled (label loop) (Statement.jump Condition.always 0)).type
      (spelled (label loop) (Statement.jump Condition.always 0)).operands
unfolding spelled jump_type count_of
jump_to_loop zero h = loop-IsWritable
jump_to_loop (suc j) h = absurd (omega arith)

halting :
    AllWritable
      (spelled (immediate 0) Statement.stop).type
      (spelled (immediate 0) Statement.stop).operands
unfolding spelled count_of
halting j h = absurd (omega arith)

pub endless-AllWritten : AllWritten endless
endless-AllWritten = (loop-IsName, (jump_to_loop, (halting, tt)))

pub endless-AllDifferent : AllDifferent endless
unfolding label_index
endless-AllDifferent = (refl, tt)

pub endless-AllSuit : AllSuit (label_index 0 endless) endless
unfolding label_index resolved same_chars
endless-AllSuit = (refl, (tt, tt))
