-- ===== src/Parser/TextTests.antt =====
-- The front end of the parser on the text of small programs.
use dez.Base.{ℕ, ◌<◌, ◌≤◌, ◌≡◌, refl, true, not, some, [], ◌++◌, codes, length, arith}
use dez.Isa.Instruction.{InstructionType}
use dez.Isa.Statement.{Statement, Condition}
use dez.Loader.Image.{nth}
use dez.Symbols.{symbol_table_init}
use dez.Lexer.{lexer_is_alpha, lexer_is_alnum, lexer_is_digit, alpha_table}
use dez.Parser.Operands.{label}
use dez.Parser.Spelling.{spelled}
use dez.Parser.State.{Parser, parser_init}
use dez.Parser.Statements.{parser_parse_instruction}
use dez.Parser.Passes.{parser_parse}
use dez.Parser.Source.{statement_text}
use dez.Parser.Reads.{at}
use dez.Parser.StatementText.{parsed, parse_instruction-statement_text}
use dez.Parser.Program.{program_text, label_count, words, spoken}
use dez.Parser.Total.{parser_parse-total}
use dez.Parser.Assembled.{parser_parse-program}
use dez.Parser.Sample.{
  no_union, unset, loop, endless, loop-IsWritable, endless-AllWritten, endless-AllDifferent,
  endless-AllSuit,
}

parser_parse-program_example :
    (parser : Parser) × (parser_parse no_union unset
        (parser_init (program_text endless) symbol_table_init (λ i. 0) 16)
      ≡ some (true, parser))
    × (parser.output_size ≡ length (words endless))
    × ((i : ℕ) → i < length (words endless) → parser.output i ≡ nth (words endless) i)
unfolding length words label_count
parser_parse-program_example =
    parser_parse-program no_union unset endless (λ i. 0) 16 endless-AllWritten endless-AllDifferent
      endless-AllSuit (omega arith) (omega arith) (omega arith)

-- A line that is no instruction.
parser_parse-total_example :
    (parser : Parser) × (parser_parse no_union unset
        (parser_init (codes "ADD [") symbol_table_init (λ i. 7) 2)
      ≡ some (not parser.error, parser))
    × (parser.output_size ≤ 2)
    × ((i : ℕ) → 2 ≤ i → parser.output i ≡ 7)
parser_parse-total_example =
    parser_parse-total no_union unset (codes "ADD [") symbol_table_init (λ i. 7) 2

-- "JMP loop" in front of a new line.
parse_instruction-statement_text_example :
    (line' : ℕ) × (column' : ℕ) × (parser_parse_instruction unset (
        at
          (parser_init [] symbol_table_init (λ i. 0) 16)
          []
          (statement_text InstructionType.jmp (λ i. label loop) ++ codes "\n")
          1
          1)
      ≡ (
        some (parsed unset InstructionType.jmp (λ i. label loop)),
        at
            (parser_init [] symbol_table_init (λ i. 0) 16)
            ([] ++ statement_text InstructionType.jmp (λ i. label loop))
            (codes "\n")
            line'
            column',
      ))
unfolding lexer_is_alnum lexer_is_alpha alpha_table lexer_is_digit spelled
parse_instruction-statement_text_example =
    parse_instruction-statement_text unset InstructionType.jmp (λ i. label loop)
      (parser_init [] symbol_table_init (λ i. 0) 16) [] (codes "\n") 1 1
      (spoken (Statement.jump Condition.always 0) (label loop)) (λ j h. loop-IsWritable) refl
