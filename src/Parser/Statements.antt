-- ===== src/Parser/Statements.antt =====
-- src/assembler/dez_parser.c: `parser_parse_operand` and `parser_parse_instruction`. A function that
-- fills in a result and returns whether it could gives the result or `none`.
use dez.Base.{
  ℕ, zero, suc, ◌+◌, Bool, true, false, Option, none, some, List, [], ◌∷◌, if◌then◌else◌, Chars,
  codes, take, same_chars, assign,
}
use dez.Isa.Instruction.{InstructionType}
use dez.Lexer.{TokenType, Token, register_name_to_number}
use dez.Parser.Operands.{
  Operand, register, immediate, memory, memory_label, label, string, ParsedInstruction,
}
use dez.Parser.State.{
  Parser, parser_current_token, parser_advance, parser_consume_token, parser_error, parser_expected,
}

-- A word as an operand: the name of a system call, or a label of at most 63 bytes.
unfoldable pub named_operand : Chars → Operand
named_operand value =
    if same_chars value (codes "PRINT")
    then immediate 1
    else if same_chars value (codes "PRINT_STR")
    then immediate 2
    else if same_chars value (codes "PRINT_CHAR")
    then immediate 3
    else if same_chars value (codes "EXIT")
    then immediate 6
    else label (take 63 value)

-- Behind the address of a memory operand.
unfoldable pub close_bracket : Operand → Parser → Option Operand × Parser
close_bracket operand parser =
    let (closed, parser') = parser_consume_token TokenType.rbracket parser in
    if closed then (some operand, parser') else (none, parser_expected (codes "]") parser')

-- Behind '[', by the token.
unfoldable pub address_operand : TokenType → Token → Parser → Option Operand × Parser
address_operand TokenType.number token parser =
    close_bracket (memory token.num_value) (parser_advance parser)
address_operand TokenType.identifier token parser =
    close_bracket (memory_label (take 63 token.value)) (parser_advance parser)
address_operand _ token parser = (none, parser_expected (codes "number or label") parser)

unfoldable pub memory_operand : Parser → Option Operand × Parser
memory_operand parser =
    let (token, parser') = parser_current_token parser in address_operand token.type token parser'

-- Behind '#', by the token. What is neither a number nor a word is looked at once more, where only '['
-- is left.
unfoldable pub number_operand : TokenType → Token → Parser → Option Operand × Parser
number_operand TokenType.number token parser =
    (some (immediate token.num_value), parser_advance parser)
number_operand TokenType.identifier token parser =
    (some (named_operand token.value), parser_advance parser)
number_operand TokenType.lbracket token parser = memory_operand (parser_advance parser)
number_operand _ token parser = (none, parser_expected (codes "operand") parser)

unfoldable pub hash_operand : Parser → Option Operand × Parser
hash_operand parser =
    let (token, parser') = parser_current_token parser in number_operand token.type token parser'

-- `parser_parse_operand` by its first token.
unfoldable pub operand_by : TokenType → Token → Parser → Option Operand × Parser
operand_by TokenType.register token parser =
    (some (register (register_name_to_number token.value)), parser_advance parser)
operand_by TokenType.string token parser =
    (some (string (take 255 token.value)), parser_advance parser)
operand_by TokenType.number token parser = (some (immediate token.num_value), parser_advance parser)
operand_by TokenType.hash token parser = hash_operand (parser_advance parser)
operand_by TokenType.lbracket token parser = memory_operand (parser_advance parser)
operand_by TokenType.identifier token parser =
    (some (named_operand token.value), parser_advance parser)
operand_by _ token parser = (none, parser_expected (codes "operand") parser)

unfoldable pub parser_parse_operand : Parser → Option Operand × Parser
parser_parse_operand parser =
    let (token, parser') = parser_current_token parser in operand_by token.type token parser'

-- A line of the chain of tests: a name, its type, and the number of its operands.
pub record Mnemonic : Type 0 where
  pub name : Chars
  pub type : InstructionType
  pub num_operands : ℕ

abbrev mnemonic : Chars → InstructionType → ℕ → Mnemonic
mnemonic name type num_operands = record { name = name; type = type; num_operands = num_operands }

-- The chain of tests of `parser_parse_instruction`, in its order.
unfoldable pub mnemonics : List Mnemonic
mnemonics =
    mnemonic (codes "MOV") InstructionType.mov 2
    ∷ mnemonic (codes "LOAD") InstructionType.load 2
    ∷ mnemonic (codes "STORE") InstructionType.store 2
    ∷ mnemonic (codes "ADD") InstructionType.add 3
    ∷ mnemonic (codes "SUB") InstructionType.sub 3
    ∷ mnemonic (codes "MUL") InstructionType.mul 3
    ∷ mnemonic (codes "DIV") InstructionType.div 3
    ∷ mnemonic (codes "JMP") InstructionType.jmp 1
    ∷ mnemonic (codes "JZ") InstructionType.jz 1
    ∷ mnemonic (codes "JNZ") InstructionType.jnz 1
    ∷ mnemonic (codes "JL") InstructionType.jl 1
    ∷ mnemonic (codes "JG") InstructionType.jg 1
    ∷ mnemonic (codes "JLE") InstructionType.jle 1
    ∷ mnemonic (codes "JGE") InstructionType.jge 1
    ∷ mnemonic (codes "PUSH") InstructionType.push 1
    ∷ mnemonic (codes "POP") InstructionType.pop 1
    ∷ mnemonic (codes "CMP") InstructionType.cmp 2
    ∷ mnemonic (codes "SYS") InstructionType.sys 2
    ∷ mnemonic (codes "AND") InstructionType.and 3
    ∷ mnemonic (codes "OR") InstructionType.or 3
    ∷ mnemonic (codes "XOR") InstructionType.xor 3
    ∷ mnemonic (codes "NOT") InstructionType.not 2
    ∷ mnemonic (codes "SHL") InstructionType.shl 3
    ∷ mnemonic (codes "SHR") InstructionType.shr 3
    ∷ mnemonic (codes "CALL") InstructionType.call 1
    ∷ mnemonic (codes "RET") InstructionType.ret 0
    ∷ mnemonic (codes "HALT") InstructionType.halt 0
    ∷ mnemonic (codes "INC") InstructionType.inc 1
    ∷ mnemonic (codes "DEC") InstructionType.dec 1
    ∷ mnemonic (codes "LOAD_INDIRECT") InstructionType.load_indirect 2
    ∷ mnemonic (codes "STORE_INDIRECT") InstructionType.store_indirect 2
    ∷ mnemonic (codes "LOAD_INDEXED") InstructionType.load_indexed 3
    ∷ mnemonic (codes "STORE_INDEXED") InstructionType.store_indexed 3
    ∷ mnemonic (codes "NOP") InstructionType.nop 0
    ∷ []

unfoldable pub find_mnemonic : List Mnemonic → Chars → Option Mnemonic
find_mnemonic [] value = none
find_mnemonic (m ∷ ms) value =
    let rest : Option Mnemonic = find_mnemonic ms value in
    if same_chars value m.name then some m else rest

-- The comma in front of operand `i`.
unfoldable pub separator : ℕ → Parser → Bool × Parser
separator zero parser = (true, parser)
separator (suc i) parser = parser_consume_token TokenType.comma parser

-- The loop over `n` operands from operand `i` on.
unfoldable pub parse_operands : (ℕ → Operand) → ℕ → ℕ → Parser → Option (ℕ → Operand) × Parser
parse_operands operands i zero parser = (some operands, parser)
parse_operands operands i (suc n) parser =
    let (separated, parser1) = separator i parser in
    let (parsed, parser2) = parser_parse_operand parser1 in
    elim separated [
      | true ↦ elim parsed [
        | some operand ↦ parse_operands (assign operands i operand) (i + 1) n parser2
        | none ↦ (none, parser2)
      ]
      | false ↦ (none, parser_expected (codes "comma") parser1)
    ]

-- The instruction of its operands.
unfoldable pub with_operands : InstructionType → Option (ℕ → Operand) → Option ParsedInstruction
with_operands type none = none
with_operands type (some operands) = some (record { type = type; operands = operands })

-- Behind the test of the mnemonic; `unset` is what the operands hold before.
unfoldable pub parse_known :
    (ℕ → Operand) → Option Mnemonic → Parser → Option ParsedInstruction × Parser
parse_known unset (some m) parser =
    let (parsed, parser') = parse_operands unset 0 m.num_operands (parser_advance parser) in
    (with_operands m.type parsed, parser')
parse_known unset none parser = (none, parser_error (codes "Unknown instruction") parser)

-- `parser_parse_instruction` by its first token.
unfoldable pub instruction_by :
    (ℕ → Operand) → TokenType → Token → Parser → Option ParsedInstruction × Parser
instruction_by unset TokenType.identifier token parser =
    parse_known unset (find_mnemonic mnemonics token.value) parser
instruction_by unset _ token parser = (none, parser)

unfoldable pub parser_parse_instruction : (ℕ → Operand) → Parser → Option ParsedInstruction × Parser
parser_parse_instruction unset parser =
    let (token, parser') = parser_current_token parser in
    instruction_by unset token.type token parser'
