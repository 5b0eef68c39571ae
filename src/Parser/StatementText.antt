-- ===== src/Parser/StatementText.antt =====
-- The parser reads a statement back from its text.
use dez.Base.{
  ℕ, zero, suc, ◌+◌, ◌<◌, ◌≡◌, ◌≢◌, refl, ap, ◌∙◌, Bool, true, false, some, none, [], ◌∷◌, ◌++◌,
  Chars, Option, assign, codes, arith,
}
use dez.Isa.Instruction.{InstructionType}
use dez.Lexer.{TokenType, lexer_is_alnum, lexer_is_alpha, lexer_is_digit, alpha_table}
use dez.Lexer.Words.{name-Reads}
use dez.Lexer.Decimal.{Apart}
use dez.Lexer.Signs.{comma-Reads}
use dez.Parser.Operands.{Operand, ParsedInstruction}
use dez.Parser.State.{Parser, parser_expected, parser_consume_token}
use dez.Parser.Statements.{
  mnemonics, find_mnemonic, separator, parser_parse_operand, parse_operands, with_operands,
  parse_known, instruction_by, parser_parse_instruction,
}
use dez.Parser.Reads.{at, Parses, one_then, nothing-Parses, after_token, consume-Parses}
use dez.Parser.Source.{operand_text, operands_text, IsWritable, name_of, count_of, statement_text}
use dez.Parser.OperandText.{operand-Parses}
use dez.Parser.Mnemonics.{find_mnemonic-name_of}

-- The operands that the parser has filled in: `n` of them from operand `i` on.
abbrev pub filled : (ℕ → Operand) → (ℕ → Operand) → ℕ → ℕ → ℕ → Operand
filled unset operands i zero = unset
filled unset operands i (suc n) = filled (assign unset i (operands i)) operands (i + 1) n

-- Behind an operand stands neither a letter nor a digit.
pub operands_text-Apart :
    (operands : ℕ → Operand) (i n : ℕ) (rest : Chars)
    → Apart rest
    → Apart (operands_text operands i n ++ rest)
unfolding operands_text lexer_is_alnum lexer_is_alpha lexer_is_digit alpha_table
operands_text-Apart operands i zero rest apart = apart
operands_text-Apart operands zero (suc n) rest apart = refl
operands_text-Apart operands (suc i) (suc n) rest apart = refl

-- What follows an operand's comma.
behind_comma : (ℕ → Operand) → ℕ → ℕ → Option Operand → Parser → Option (ℕ → Operand) × Parser
behind_comma unset i n (some operand) parser =
    parse_operands (assign unset i operand) (i + 1) n parser
behind_comma unset i n none parser = (none, parser)

separated : (ℕ → Operand) → ℕ → ℕ → Bool → Parser → Option (ℕ → Operand) × Parser
separated unset i n true parser =
    behind_comma unset i n (parser_parse_operand parser).0 (parser_parse_operand parser).1
separated unset i n false parser = (none, parser_expected (codes "comma") parser)

operands-step :
    (unset : ℕ → Operand) (i n : ℕ) (parser : Parser)
    → parse_operands unset i (suc n) parser
      ≡ separated unset i n (separator i parser).0 (separator i parser).1
unfolding parse_operands separated behind_comma
operands-step unset i n parser = ground arith

-- The same function, written in another way.
along {ℓ} :
    {A : Type ℓ} {f g : Parser → A × Parser} {a : A} {Next : Chars → Type 0} {over : Chars}
    → ((parser : Parser) → f parser ≡ g parser)
    → Parses g a Next over
    → Parses f a Next over
along same parses parser passed rest line column next =
    let (line', column', run) = parses parser passed rest line column next in
    (line', column', same _ ∙ run)

-- An operand in front of those that follow it.
operand_then :
    (operands unset : ℕ → Operand) (i n : ℕ) {result : Option (ℕ → Operand)}
    → IsWritable (operands i)
    → Parses
        (parse_operands (assign unset i (operands i)) (i + 1) n)
        result
        Apart
        (operands_text operands (i + 1) n)
    → Parses
        (separated unset i n true)
        result
        Apart
        (32 ∷ (operand_text (operands i) ++ operands_text operands (i + 1) n))
unfolding separated behind_comma
operand_then operands unset i n writable rest =
    one_then parser_parse_operand (behind_comma unset i n) (operand-Parses (operands i) writable)
      rest (operands_text-Apart operands (i + 1) n)

operands-Parses :
    (operands unset : ℕ → Operand) (i n : ℕ)
    → ((j : ℕ) → j < i + n → IsWritable (operands j))
    → Parses
        (parse_operands unset i n)
        (some (filled unset operands i n))
        Apart
        (operands_text operands i n)
unfolding operands_text separator parse_operands
operands-Parses operands unset i zero writable = nothing-Parses _ Apart
operands-Parses operands unset zero (suc n) writable = along (operands-step unset zero n) (
    operand_then operands unset zero n (writable zero (omega arith)) (
      operands-Parses operands (assign unset zero (operands zero)) 1 n
        (λ j h. writable j (omega arith))))
operands-Parses operands unset (suc i) (suc n) writable = along (operands-step unset (suc i) n) (
    one_then (parser_consume_token TokenType.comma) (separated unset (suc i) n)
      (consume-Parses TokenType.comma comma-Reads)
      (operand_then operands unset (suc i) n (writable (suc i) (omega arith)) (
        operands-Parses operands (assign unset (suc i) (operands (suc i))) (suc i + 1) n
          (λ j h. writable j (omega arith))))
      (λ rest apart. tt))

-- What is done with a result, behind the same text.
mapped {ℓ κ} :
    {A : Type ℓ} {B : Type κ} {a : A} {Next : Chars → Type 0} {over : Chars}
    (f : Parser → A × Parser) (h : A → B)
    → Parses f a Next over
    → Parses (λ parser. (h (f parser).0, (f parser).1)) (h a) Next over
mapped {A = A} f h parses parser passed rest line column next =
    let (line', column', run) = parses parser passed rest line column next in
    (line', column', ap (λ (r : A × Parser). (h r.0, r.1)) run)

-- The parsed instruction of a statement; `unset` is what its other operands hold.
abbrev pub parsed : (ℕ → Operand) → InstructionType → (ℕ → Operand) → ParsedInstruction
parsed unset type operands = record {
  type = type;
  operands = filled unset operands 0 (count_of type);
}

abbrev pub AllWritable : InstructionType → (ℕ → Operand) → Type 0
AllWritable type operands = (j : ℕ) → j < count_of type → IsWritable (operands j)

-- The text of a statement, with neither a letter nor a digit behind it, is parsed as that statement.
pub instruction-Parses :
    (unset : ℕ → Operand) (type : InstructionType) (operands : ℕ → Operand)
    → name_of type ≢ []
    → AllWritable type operands
    → Parses
        (parser_parse_instruction unset)
        (some (parsed unset type operands))
        Apart
        (statement_text type operands)
unfolding parser_parse_instruction statement_text
instruction-Parses unset type operands spoken writable =
    let (named, known) = find_mnemonic-name_of type spoken in
    after_token (λ t parser. instruction_by unset t.type t parser)
      (λ parser. (
        with_operands type (parse_operands unset 0 (count_of type) parser).0,
        (parse_operands unset 0 (count_of type) parser).1,
      ))
      (name-Reads (name_of type) named).0
      (λ t parser h v m.
        ap (λ k. instruction_by unset k t parser) h
        ∙ (unfold instruction_by parse_known in
            ap (λ value. parse_known unset (find_mnemonic mnemonics value) parser) v
            ∙ ap (λ m. parse_known unset m parser) known))
      (unfold with_operands in
        mapped (parse_operands unset 0 (count_of type)) (with_operands type)
          (operands-Parses operands unset 0 (count_of type) (λ j h. writable j (omega arith))))
      (operands_text-Apart operands 0 (count_of type))

-- Wherever the parser stands in front of the text of a statement that has a mnemonic, with operands that
-- can be written, and behind which stands neither a letter nor a digit, `parser_parse_instruction`
-- gives the type of the statement and its operands, and the parser stands behind the text, with
-- nothing else changed than the line and the column.
pub parse_instruction-statement_text :
    (unset : ℕ → Operand) (type : InstructionType) (operands : ℕ → Operand) (parser : Parser)
    (passed rest : Chars) (line column : ℕ)
    → name_of type ≢ []
    → AllWritable type operands
    → Apart rest
    → (line' : ℕ) × (column' : ℕ) × (parser_parse_instruction unset
          (at parser passed (statement_text type operands ++ rest) line column)
        ≡ (
          some (parsed unset type operands),
          at parser (passed ++ statement_text type operands) rest line' column',
        ))
parse_instruction-statement_text unset type operands parser passed rest line column spoken writable
      apart =
    instruction-Parses unset type operands spoken writable parser passed rest line column apart
