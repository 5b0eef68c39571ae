-- ===== src/Parser/Source.antt =====
-- The text of operands and statements, as a program is written.
use dez.Base.{ℕ, zero, suc, ◌+◌, ◌<◌, ◌^◌, ◌≡◌, [], ◌∷◌, ◌++◌, Chars, codes}
use dez.Isa.Instruction.{InstructionType}
use dez.Lexer.Registers.{register_name}
use dez.Lexer.Words.{IsName}
use dez.Lexer.Decimal.{decimal}
use dez.Parser.Operands.{Operand, register, immediate, memory, memory_label, label, string}
use dez.Parser.Statements.{named_operand}

-- An operand as text. Strings are not written here.
unfoldable pub operand_text : Operand → Chars
operand_text (register r) = register_name r
operand_text (immediate n) = decimal n
operand_text (memory n) = b'[' ∷ (decimal n ++ b']' ∷ [])
operand_text (memory_label name) = b'[' ∷ (name ++ b']' ∷ [])
operand_text (label name) = name
operand_text (string s) = []

-- Registers that exist, 32-bit numbers, and names of at most 63 bytes that are neither registers nor
-- system calls.
abbrev pub IsWritable : Operand → Type 0
IsWritable (register r) = r < 16
IsWritable (immediate n) = n < 2 ^ 32
IsWritable (memory n) = n < 2 ^ 32
IsWritable (memory_label name) = IsName name
IsWritable (label name) = IsName name × (named_operand name ≡ label name)
IsWritable (string s) = ⊥

-- `n` operands from operand `i` on, each behind a space, and with a comma before all but the first.
unfoldable pub operands_text : (ℕ → Operand) → ℕ → ℕ → Chars
operands_text operands i zero = []
operands_text operands zero (suc n) =
    32 ∷ (operand_text (operands zero) ++ operands_text operands 1 n)
operands_text operands (suc i) (suc n) =
    b',' ∷ 32 ∷ (operand_text (operands (suc i)) ++ operands_text operands (suc i + 1) n)

-- The name of a type of instruction in a program; the types that no program can name have none.
unfoldable pub name_of : InstructionType → Chars
name_of InstructionType.mov = codes "MOV"
name_of InstructionType.load = codes "LOAD"
name_of InstructionType.store = codes "STORE"
name_of InstructionType.add = codes "ADD"
name_of InstructionType.sub = codes "SUB"
name_of InstructionType.mul = codes "MUL"
name_of InstructionType.div = codes "DIV"
name_of InstructionType.jmp = codes "JMP"
name_of InstructionType.jz = codes "JZ"
name_of InstructionType.jnz = codes "JNZ"
name_of InstructionType.jl = codes "JL"
name_of InstructionType.jg = codes "JG"
name_of InstructionType.jle = codes "JLE"
name_of InstructionType.jge = codes "JGE"
name_of InstructionType.push = codes "PUSH"
name_of InstructionType.pop = codes "POP"
name_of InstructionType.cmp = codes "CMP"
name_of InstructionType.sys = codes "SYS"
name_of InstructionType.and = codes "AND"
name_of InstructionType.or = codes "OR"
name_of InstructionType.xor = codes "XOR"
name_of InstructionType.not = codes "NOT"
name_of InstructionType.shl = codes "SHL"
name_of InstructionType.shr = codes "SHR"
name_of InstructionType.call = codes "CALL"
name_of InstructionType.ret = codes "RET"
name_of InstructionType.halt = codes "HALT"
name_of InstructionType.inc = codes "INC"
name_of InstructionType.dec = codes "DEC"
name_of InstructionType.load_indirect = codes "LOAD_INDIRECT"
name_of InstructionType.store_indirect = codes "STORE_INDIRECT"
name_of InstructionType.load_indexed = codes "LOAD_INDEXED"
name_of InstructionType.store_indexed = codes "STORE_INDEXED"
name_of InstructionType.nop = codes "NOP"
name_of _ = []

-- How many operands follow it.
unfoldable pub count_of : InstructionType → ℕ
count_of InstructionType.add = 3
count_of InstructionType.sub = 3
count_of InstructionType.mul = 3
count_of InstructionType.div = 3
count_of InstructionType.and = 3
count_of InstructionType.or = 3
count_of InstructionType.xor = 3
count_of InstructionType.shl = 3
count_of InstructionType.shr = 3
count_of InstructionType.load_indexed = 3
count_of InstructionType.store_indexed = 3
count_of InstructionType.jmp = 1
count_of InstructionType.jz = 1
count_of InstructionType.jnz = 1
count_of InstructionType.jl = 1
count_of InstructionType.jg = 1
count_of InstructionType.jle = 1
count_of InstructionType.jge = 1
count_of InstructionType.push = 1
count_of InstructionType.pop = 1
count_of InstructionType.call = 1
count_of InstructionType.inc = 1
count_of InstructionType.dec = 1
count_of InstructionType.ret = 0
count_of InstructionType.halt = 0
count_of InstructionType.nop = 0
count_of _ = 2

unfoldable pub statement_text : InstructionType → (ℕ → Operand) → Chars
statement_text type operands = name_of type ++ operands_text operands 0 (count_of type)
