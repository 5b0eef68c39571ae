-- ===== src/Parser/Executed.antt =====
-- From the text of one statement to what the machine does when its word is executed.
use dez.Base.{
  ℕ, ◌≡◌, refl, ap, ◌∙◌, some, ◌++◌, Chars, ◌==◌, if◌then◌else◌, Bool-cases, inl, inr, ==→eq, u8,
  ◌>>◌, arith,
}
use dez.Isa.Statement.{Statement, encode, IsEncodable, Fits}
use dez.Lexer.Decimal.{Apart}
use dez.Symbols.{SymbolTable}
use dez.Symbols.Find.{IsDistinct}
use dez.Parser.Operands.{Operand, ParsedInstruction, parser_encode_instruction}
use dez.Parser.Spelling.{spelled, Gives}
use dez.Parser.Encoding.{parser_encode_instruction_lem}
use dez.Parser.State.{Parser}
use dez.Parser.Statements.{parser_parse_instruction}
use dez.Parser.Source.{statement_text}
use dez.Parser.Reads.{at}
use dez.Parser.StatementText.{parsed, AllWritable, parse_instruction-statement_text}
use dez.Parser.Resolved.{parsed-spelled}
use dez.Parser.Program.{spoken}
use dez.Vm.State.{Vm}
use dez.Vm.Table.{get_instruction_info}
use dez.Vm.Meaning.{meaning}
use dez.Vm.Correct.{execute-encode}
use dez.Vm.Corner.{same_word}

-- The statement that the machine carries out: CMP of a register with R0 is CMP with the number 0.
unfoldable pub as_run : Statement → Statement
as_run (Statement.compare r1 r2) =
    if r2 == 0 then Statement.compare_value r1 0 else Statement.compare r1 r2
as_run s = s

as_run-word : (s : Statement) → Fits s → IsEncodable (as_run s) × (encode s ≡ encode (as_run s))
unfolding as_run
as_run-word (Statement.compare r1 r2) h = elim (Bool-cases (r2 == 0)) [
  | inl is_zero ↦ rw is_zero (
    (h.0, omega arith),
    ap (λ r. encode (Statement.compare r1 r)) (==→eq r2 0 is_zero) ∙ same_word r1 h.0,
  )
  | inr other ↦ rw other ((h.0, h.1, λ e. ground (arith, e, other)), refl)
]
as_run-word _ h = (h, refl)

execute-word :
    (s : Statement) (word : ℕ) (vm : Vm)
    → Fits s
    → word ≡ encode s
    → (get_instruction_info (u8 (word >> 24))).execute word vm ≡ meaning (as_run s) vm
execute-word s word vm fits is =
    let (encodable, same) = as_run-word s fits in
    ap (λ w. (get_instruction_info (u8 (w >> 24))).execute w vm) (is ∙ same)
    ∙ execute-encode (as_run s) vm encodable

-- The parser stands in front of the text of a statement, behind which stands neither a letter nor a
-- digit. The operands can be written, `op` gives the number or address of the statement, by the
-- symbol table when it is a label, no two symbols of the table have the same name, and the operands
-- fit their fields. `parser_parse_instruction` uses up the text and gives an instruction, and
-- executing the word that `parser_encode_instruction` makes of it does to any machine what the
-- statement means, except that CMP of a register with R0 is CMP of the register with the number 0.
pub execute-parser_parse_instruction :
    (union : Operand → ℕ) (unset : ℕ → Operand) (parser : Parser) (passed rest : Chars)
    (line column : ℕ) (op : Operand) (s : Statement) (vm : Vm)
    → AllWritable (spelled op s).type (spelled op s).operands
    → Apart rest
    → IsDistinct parser.symbol_table
    → Gives parser.symbol_table op s
    → Fits s
    → let over : Chars = statement_text (spelled op s).type (spelled op s).operands in
      (inst : ParsedInstruction) × (line' : ℕ) × (column' : ℕ) × (parser_parse_instruction unset
          (at parser passed (over ++ rest) line column)
        ≡ (some inst, at parser (passed ++ over) rest line' column'))
      × (let word : ℕ = (parser_encode_instruction union parser.symbol_table inst).0 in
          (get_instruction_info (u8 (word >> 24))).execute word vm ≡ meaning (as_run s) vm)
execute-parser_parse_instruction union unset parser passed rest line column op s vm written apart
      distinct gives fits =
    let inst : ParsedInstruction = parsed unset (spelled op s).type (spelled op s).operands in
    let (line', column', run) =
      parse_instruction-statement_text unset (spelled op s).type (spelled op s).operands parser
        passed rest line column (spoken s op) written apart in
    let word : (parser_encode_instruction union parser.symbol_table inst).0 ≡ encode s =
      ap (λ (r : ℕ × SymbolTable × _). r.0) (parsed-spelled union unset parser.symbol_table op s)
      ∙ (parser_encode_instruction_lem union parser.symbol_table op s distinct gives).0 in
    (inst, line', column', run, execute-word s _ vm fits word)
