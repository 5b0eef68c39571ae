-- ===== src/Disasm/Text.antt =====
-- The text that a statement has in the output of the disassembler.
use dez.Base.{ℕ, Bool, true, false, List, [], ◌∷◌, String}
use dez.Isa.Statement.{Statement, ArithmeticOp, BitOp, Condition, encode}
use dez.Disasm.Defs.{Piece, text, decimal, hex}
use dez.Disasm.Names.{register_name, system_name}

abbrev pub reg : ℕ → Piece
reg r = text (register_name r)

-- The mnemonic of an arithmetic statement.
unfoldable pub arithmetic_name : ArithmeticOp → String
arithmetic_name ArithmeticOp.plus = "ADD"
arithmetic_name ArithmeticOp.minus = "SUB"
arithmetic_name ArithmeticOp.times = "MUL"
arithmetic_name ArithmeticOp.over = "DIV"

-- A statement whose mnemonic is not known: its opcode and its word.
abbrev pub unknown : ℕ → Statement → List Piece
unknown op s = text "UNKNOWN" ∷ text " " ∷ hex 2 op ∷ text " (" ∷ hex 8 (encode s) ∷ text ")" ∷ []

-- The text of a statement: its mnemonic and its operands, a number behind `#`, an address of STORE in
-- brackets; JZ and JNZ have R0 before their address. The immediate forms have none.
unfoldable pub listing : Statement → List Piece
listing (Statement.move r n) = text "MOV" ∷ text " " ∷ reg r ∷ text ", #" ∷ decimal n ∷ []
listing (Statement.load_from r a) = text "LOAD" ∷ text " " ∷ reg r ∷ text ", #" ∷ decimal a ∷ []
listing (Statement.store_to r a) =
    text "STORE" ∷ text " " ∷ reg r ∷ text ", [" ∷ decimal a ∷ text "]" ∷ []
listing (Statement.system r n) =
    text "SYS" ∷ text " " ∷ reg r ∷ text ", " ∷ text (system_name n) ∷ []
listing (Statement.arithmetic op r1 r2 r3) =
    text (arithmetic_name op) ∷ text " " ∷ reg r1 ∷ text ", " ∷ reg r2 ∷ text ", " ∷ reg r3 ∷ []
listing (Statement.compare r1 r2) = text "CMP" ∷ text " " ∷ reg r1 ∷ text ", " ∷ reg r2 ∷ []
listing (Statement.jump Condition.always a) = text "JMP" ∷ text " #" ∷ decimal a ∷ []
listing (Statement.jump Condition.if_zero a) =
    text "JZ" ∷ text " " ∷ reg 0 ∷ text ", #" ∷ decimal a ∷ []
listing (Statement.jump Condition.if_not_zero a) =
    text "JNZ" ∷ text " " ∷ reg 0 ∷ text ", #" ∷ decimal a ∷ []
listing (Statement.increment r) = text "INC" ∷ text " " ∷ reg r ∷ []
listing (Statement.decrement r) = text "DEC" ∷ text " " ∷ reg r ∷ []
listing (Statement.load_at r s) =
    text "LOAD_INDIRECT" ∷ text " " ∷ reg r ∷ text ", [" ∷ reg s ∷ text "]" ∷ []
listing (Statement.store_at r s) =
    text "STORE_INDIRECT" ∷ text " " ∷ reg r ∷ text ", [" ∷ reg s ∷ text "]" ∷ []
listing (Statement.load_sum r s i) =
    text "LOAD_INDEXED" ∷ text " " ∷ reg r ∷ text ", [" ∷ reg s ∷ text " + " ∷ reg i ∷ text "]" ∷ []
listing (Statement.store_sum r s i) =
    text "STORE_INDEXED"
    ∷ text " "
    ∷ reg r
    ∷ text ", ["
    ∷ reg s
    ∷ text " + "
    ∷ reg i
    ∷ text "]"
    ∷ []
listing Statement.stop = text "HALT" ∷ []
listing Statement.nothing = text "NOP" ∷ []
listing (Statement.jump Condition.if_less a) = unknown 0x19 (Statement.jump Condition.if_less a)
listing (Statement.jump Condition.if_greater a) =
    unknown 0x1A (Statement.jump Condition.if_greater a)
listing (Statement.jump Condition.if_less_equal a) =
    unknown 0x1B (Statement.jump Condition.if_less_equal a)
listing (Statement.jump Condition.if_greater_equal a) =
    unknown 0x1C (Statement.jump Condition.if_greater_equal a)
listing (Statement.bits BitOp.both r1 r2 r3) = unknown 0x13 (Statement.bits BitOp.both r1 r2 r3)
listing (Statement.bits BitOp.either r1 r2 r3) = unknown 0x14 (Statement.bits BitOp.either r1 r2 r3)
listing (Statement.bits BitOp.differ r1 r2 r3) = unknown 0x15 (Statement.bits BitOp.differ r1 r2 r3)
listing (Statement.bits BitOp.left r1 r2 r3) = unknown 0x17 (Statement.bits BitOp.left r1 r2 r3)
listing (Statement.bits BitOp.right r1 r2 r3) = unknown 0x18 (Statement.bits BitOp.right r1 r2 r3)
listing (Statement.complement r1 r2) = unknown 0x16 (Statement.complement r1 r2)
listing (Statement.push r) = unknown 0x0B (Statement.push r)
listing (Statement.pop r) = unknown 0x0C (Statement.pop r)
listing (Statement.call_to a) = unknown 0x0F (Statement.call_to a)
listing Statement.return = unknown 0x11 Statement.return
listing (Statement.arithmetic_value op r1 r2 n) = []
listing (Statement.compare_value r n) = []

-- The immediate forms of CMP and of the arithmetic operations, whose number is not shown.
unfoldable pub is_immediate : Statement → Bool
is_immediate (Statement.arithmetic_value op r1 r2 n) = true
is_immediate (Statement.compare_value r n) = true
is_immediate _ = false
