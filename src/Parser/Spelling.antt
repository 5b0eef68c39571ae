-- ===== src/Parser/Spelling.antt =====
-- How the parser's operands spell a statement, and the number that an operand stands for.
use dez.Base.{ℕ, zero, suc, ◌≡◌, Option, none, some}
use dez.Isa.Instruction.{InstructionType}
use dez.Isa.Statement.{Statement, arithmetic_type, bit_type, jump_type}
use dez.Symbols.{SymbolTable}
use dez.Symbols.Define.{lookup}
use dez.Parser.Operands.{Operand, register, immediate, memory, label, ParsedInstruction}

-- The number of an operand that is written out.
unfoldable pub literal : Operand → Option ℕ
literal (immediate n) = some n
literal (memory n) = some n
literal _ = none

-- The number of an operand that is written out or a label.
unfoldable pub resolve : SymbolTable → Operand → Option ℕ
resolve table (label name) = elim (lookup table name) [ some s ↦ some s.address | none ↦ none ]
resolve table op = literal op

abbrev pub instruction : InstructionType → Operand → Operand → Operand → ParsedInstruction
instruction type op0 op1 op2 = record {
  type = type;
  operands = λ i. elim i [ zero ↦ op0 | suc zero ↦ op1 | _ ↦ op2 ];
}

-- The parsed instruction of a statement, in which `op` stands for its number or address. An operand
-- that is not read is `op` too.
unfoldable pub spelled : Operand → Statement → ParsedInstruction
unfolding arithmetic_type bit_type jump_type
spelled op (Statement.move r n) = instruction InstructionType.mov (register r) op op
spelled op (Statement.load_from r a) = instruction InstructionType.load (register r) op op
spelled op (Statement.store_to r a) = instruction InstructionType.store (register r) op op
spelled op (Statement.system r n) = instruction InstructionType.sys (register r) op op
spelled op (Statement.arithmetic o r1 r2 r3) =
    instruction (arithmetic_type o) (register r1) (register r2) (register r3)
spelled op (Statement.arithmetic_value o r1 r2 n) =
    instruction (arithmetic_type o) (register r1) (register r2) (immediate n)
spelled op (Statement.bits o r1 r2 r3) =
    instruction (bit_type o) (register r1) (register r2) (register r3)
spelled op (Statement.complement r1 r2) =
    instruction InstructionType.not (register r1) (register r2) op
spelled op (Statement.compare r1 r2) =
    instruction InstructionType.cmp (register r1) (register r2) op
spelled op (Statement.compare_value r n) =
    instruction InstructionType.cmp (register r) (immediate n) op
spelled op (Statement.jump c a) = instruction (jump_type c) op op op
spelled op (Statement.push r) = instruction InstructionType.push (register r) op op
spelled op (Statement.pop r) = instruction InstructionType.pop (register r) op op
spelled op (Statement.increment r) = instruction InstructionType.inc (register r) op op
spelled op (Statement.decrement r) = instruction InstructionType.dec (register r) op op
spelled op (Statement.call_to a) = instruction InstructionType.call op op op
spelled op (Statement.load_at r s) =
    instruction InstructionType.load_indirect (register r) (register s) op
spelled op (Statement.store_at r s) =
    instruction InstructionType.store_indirect (register r) (register s) op
spelled op (Statement.load_sum r s i) =
    instruction InstructionType.load_indexed (register r) (register s) (register i)
spelled op (Statement.store_sum r s i) =
    instruction InstructionType.store_indexed (register r) (register s) (register i)
spelled op Statement.return = instruction InstructionType.ret op op op
spelled op Statement.stop = instruction InstructionType.halt op op op
spelled op Statement.nothing = instruction InstructionType.nop op op op

-- The operand `op` gives the number or address of the statement: for MOV, LOAD, the jumps and CALL it
-- may be a label, for STORE and SYS it may not.
abbrev pub Gives : SymbolTable → Operand → Statement → Type 0
Gives table op (Statement.move r n) = resolve table op ≡ some n
Gives table op (Statement.load_from r a) = resolve table op ≡ some a
Gives table op (Statement.store_to r a) = literal op ≡ some a
Gives table op (Statement.system r n) = literal op ≡ some n
Gives table op (Statement.jump c a) = resolve table op ≡ some a
Gives table op (Statement.call_to a) = resolve table op ≡ some a
Gives table op _ = Unit
