-- ===== src/Parser/LineText.antt =====
-- A line with the text of a statement: the parser reaches the statement, and then the end of the line.
use dez.Base.{
  arith, ℕ, ◌≡◌, ◌≢◌, refl, sym, subst, ap, ◌∙◌, Bool, false, Option, some, none, [], ◌∷◌, ◌++◌,
  append_assoc, Chars, ◌==◌, ◌&&◌, codes, same_chars, if◌then◌else◌,
}
use dez.Isa.Instruction.{InstructionType}
use dez.Lexer.{lexer_is_alnum, lexer_is_alpha, lexer_is_digit, alpha_table, TokenType, Token}
use dez.Lexer.Words.{name-Reads}
use dez.Lexer.Decimal.{Apart}
use dez.Parser.Operands.{Operand, ParsedInstruction}
use dez.Parser.State.{Parser, type_code, parser_current_token, parser_peek_token}
use dez.Parser.Statements.{instruction_by, parser_parse_instruction}
use dez.Parser.Lines.{
  last_solid, line_ends_with_colon, label_line, parser_parse_constant, finish, instruction_line,
  constant_or_instruction, labelled_line, parser_parse_line_with_labels,
}
use dez.Parser.Reads.{at, looking, current-Reads, looking-current}
use dez.Parser.Source.{name_of, count_of, operands_text, statement_text}
use dez.Parser.Mnemonics.{find_mnemonic-name_of}
use dez.Parser.StatementText.{parsed, AllWritable, instruction-Parses, operands_text-Apart}
use dez.Parser.Plain.{line-plain, name_of-equ, name-plain, operands-plain}

-- Both helpers look at the same token.
peek-current : (parser : Parser) → parser_peek_token parser ≡ parser_current_token parser
unfolding parser_peek_token parser_current_token
peek-current parser = refl

newline-Apart : (rest : Chars) → Apart (b'\n' ∷ rest)
unfolding lexer_is_alnum lexer_is_alpha lexer_is_digit alpha_table
newline-Apart rest = refl

module _ (union : Operand → ℕ) (unset : ℕ → Operand) (type : InstructionType)
    (operands : ℕ → Operand) (spoken : name_of type ≢ []) (writable : AllWritable type operands)
    (parser : Parser) (passed rest : Chars) (line column : ℕ)
    (start : last_solid none passed ≡ none) where
  -- The parser in front of the line.
  abbrev before : Parser
  before = at parser passed (statement_text type operands ++ b'\n' ∷ rest) line column

  -- The same with its first token looked at.
  abbrev first : Token × Parser
  first = parser_current_token before

  abbrev after_name : Chars
  after_name = operands_text operands 0 (count_of type) ++ b'\n' ∷ rest

  first_token :
      (token : Token) × (line' : ℕ) × (column' : ℕ) × (token.type ≡ TokenType.identifier)
      × (token.value ≡ name_of type)
      × (first ≡ (token, looking parser token (passed ++ name_of type) after_name line' column'))
  unfolding statement_text
  first_token =
      let r =
        (name-Reads (name_of type) (find_mnemonic-name_of type spoken).0).0 passed after_name line
          column
          (operands_text-Apart operands 0 (count_of type) (b'\n' ∷ rest) (newline-Apart rest)) in
      (
        r.token,
        r.line',
        r.column',
        r.token_type,
        r.token_value,
        ap (λ text. parser_current_token (at parser passed text line column))
              (append_assoc (name_of type) (operands_text operands 0 (count_of type))
                (b'\n' ∷ rest))
            ∙ current-Reads parser r,
      )

  -- Looking again at the first token changes nothing.
  again : parser_current_token first.1 ≡ first
  again =
      let (token, line', column', typed, named, seen) = first_token in
      subst (λ (l : Token × Parser). parser_current_token l.1 ≡ l) (sym seen)
        (looking-current parser token (passed ++ name_of type) after_name line' column')

  no_label : line_ends_with_colon first.1.lexer ≡ false
  no_label =
      let (token, line', column', typed, named, seen) = first_token in
      line-plain first.1.lexer passed (name_of type) (operands_text operands 0 (count_of type)) rest
        (ap (λ (l : Token × Parser). l.1.lexer.passed) seen)
        (ap (λ (l : Token × Parser). l.1.lexer.rest) seen) start
        (name-plain (name_of type) (find_mnemonic-name_of type spoken).0)
        (operands-plain operands 0 (count_of type) (λ j h. writable j (omega arith)))

  -- The statement is parsed from there.
  statement_parsed :
      (line' : ℕ) × (column' : ℕ) × (parser_parse_instruction unset first.1 ≡ (
        some (parsed unset type operands),
        at parser (passed ++ statement_text type operands) (b'\n' ∷ rest) line' column',
      ))
  unfolding parser_parse_instruction
  statement_parsed =
      let (line', column', run) =
        instruction-Parses unset type operands spoken writable parser passed (b'\n' ∷ rest) line
          column (newline-Apart rest) in
      (
        line',
        column',
        ap (λ (l : Token × Parser). instruction_by unset l.0.type l.0 l.1) again ∙ run,
      )

  no_constant : constant_or_instruction union unset first.1 ≡ instruction_line union unset first.1
  unfolding constant_or_instruction instruction_line type_code
  no_constant =
      let (token, line', column', typed, named, seen) = first_token in
      let test : TokenType → Bool → Bool × Parser = λ t b.
        if type_code t == type_code TokenType.identifier && b
        then parser_parse_constant first.1
        else instruction_line union unset first.1 in
      ap
        (λ (l : Token × Parser).
          if type_code l.0.type == type_code TokenType.identifier
            && same_chars l.0.value (codes "EQU")
          then parser_parse_constant l.1
          else instruction_line union unset l.1)
        (peek-current first.1 ∙ again)
      ∙ ap (λ t. test t (same_chars first.0.value (codes "EQU")))
          (ap (λ (l : Token × Parser). l.0.type) seen ∙ typed)
      ∙ ap (λ v. test TokenType.identifier (same_chars v (codes "EQU")))
          (ap (λ (l : Token × Parser). l.0.value) seen ∙ named)
      ∙ ap (test TokenType.identifier) (name_of-equ type)

  -- The line is done when the statement is.
  pub line_lem :
      (line' : ℕ) × (column' : ℕ) × (first.0.type ≡ TokenType.identifier)
      × (parser_parse_line_with_labels union unset first.1
          ≡ some (
              finish union
                (some (parsed unset type operands))
                (at parser (passed ++ statement_text type operands) (b'\n' ∷ rest) line' column')))
  unfolding parser_parse_line_with_labels labelled_line instruction_line
  line_lem =
      let (token, line1, column1, typed, named, seen) = first_token in
      let (line', column', run) = statement_parsed in
      let is_word : first.0.type ≡ TokenType.identifier =
        ap (λ (l : Token × Parser). l.0.type) seen ∙ typed in
      (
        line',
        column',
        is_word,
        ap (λ (l : Token × Parser). labelled_line union unset l.0.type l.0 l.1) again
            ∙ ap (λ t. labelled_line union unset t first.0 first.1) is_word
            ∙ ap
                (λ b.
                  if b
                  then label_line first.0 first.1
                  else some (constant_or_instruction union unset first.1))
                no_label
            ∙ ap some no_constant
            ∙ ap (λ (r : Option ParsedInstruction × Parser). some (finish union r.0 r.1)) run,
      )
