-- ===== src/Parser/OperandText.antt =====
-- The parser reads an operand back from its text.
use dez.Base.{
  codes, if◌then◌else◌, ℕ, ◌≡◌, refl, ap, ◌∙◌, Bool, some, none, [], ◌∷◌, ◌++◌, Chars, take,
  take-all,
}
use dez.Lexer.{
  TokenType, Token, lexer_is_alnum, lexer_is_alpha, lexer_is_digit, alpha_table,
  register_name_to_number,
}
use dez.Lexer.Registers.{register_names}
use dez.Lexer.Reads.{Reads}
use dez.Lexer.Decimal.{decimal, decimal-Reads, Apart}
use dez.Lexer.Signs.{lbracket-Reads, rbracket-Reads}
use dez.Parser.Operands.{Operand, register, immediate, memory, memory_label, label, string}
use dez.Parser.State.{Parser, parser_advance, parser_expected}
use dez.Parser.Statements.{
  close_bracket, address_operand, memory_operand, named_operand, operand_by, parser_parse_operand,
}
use dez.Parser.Reads.{looking, Parses, current-Reads, looking-advance, consume-Parses, after_token}
use dez.Lexer.Words.{name-Reads, register-Reads, IsName-short}
use dez.Parser.Source.{operand_text, IsWritable}

-- An operand of one token.
one_token :
    (type : TokenType) {value over : Chars} {n : ℕ} (op : Operand)
    → Reads Apart type value n over
    → ((token : Token) (parser : Parser)
        → token.value ≡ value
        → token.num_value ≡ n
        → operand_by type token parser ≡ (some op, parser_advance parser))
    → Parses parser_parse_operand (some op) Apart over
unfolding parser_parse_operand
one_token type {value} {over} {n} op reads by parser passed rest line column apart =
    let r = reads passed rest line column apart in
    (
      r.line',
      r.column',
      ap (λ (l : Token × Parser). operand_by l.0.type l.0 l.1) (current-Reads parser r)
          ∙ ap
              (λ t.
                operand_by t r.token
                  (looking parser r.token (passed ++ over) rest r.line' r.column'))
              r.token_type
          ∙ by r.token _ r.token_value r.token_num_value
          ∙ ap (λ p. (some op, p))
              (looking-advance parser r.token (passed ++ over) rest r.line' r.column'),
    )

close-Parses : (op : Operand) → Parses (close_bracket op) (some op) Apart (93 ∷ [])
unfolding close_bracket
close-Parses op parser passed rest line column apart =
    let (line', column', run) =
      consume-Parses TokenType.rbracket rbracket-Reads parser passed rest line column tt in
    (
      line',
      column',
      ap
          (λ (r : Bool × Parser).
            if r.0 then (some op, r.1) else (none, parser_expected (codes "]") r.1))
          run,
    )

-- An operand in brackets.
bracketed :
    (op : Operand) (type : TokenType) (text : Chars) (n : ℕ)
    → Reads Apart type text n text
    → ((token : Token) (parser : Parser)
        → token.value ≡ text
        → token.num_value ≡ n
        → address_operand type token parser ≡ close_bracket op (parser_advance parser))
    → Parses parser_parse_operand (some op) Apart (32 ∷ 91 ∷ (text ++ 93 ∷ []))
unfolding parser_parse_operand memory_operand operand_by
bracketed op type text n reads by =
    after_token (λ t parser. operand_by t.type t parser) memory_operand lbracket-Reads
      (λ t parser h v m. ap (λ k. operand_by k t parser) h)
      (after_token (λ t parser. address_operand t.type t parser) (close_bracket op) reads
        (λ t parser h v m. ap (λ k. address_operand k t parser) h ∙ by t parser v m)
        (close-Parses op)
        (λ rest apart. unfold lexer_is_alnum lexer_is_alpha alpha_table lexer_is_digit in refl))
      (λ rest apart. tt)

pub operand-Parses :
    (op : Operand)
    → IsWritable op
    → Parses parser_parse_operand (some op) Apart (32 ∷ operand_text op)
unfolding operand_text operand_by
operand-Parses (register r) small =
    one_token TokenType.register (register r) (register-Reads r small) (λ token parser v n.
      ap (λ i. (some (register i), parser_advance parser))
        (ap register_name_to_number v ∙ (register_names.0 r small).1))
operand-Parses (immediate n) small =
    one_token TokenType.number (immediate n) (decimal-Reads n small).1
      (λ token parser v m. ap (λ i. (some (immediate i), parser_advance parser)) m)
operand-Parses (label name) (named, free) =
    one_token TokenType.identifier (label name) (name-Reads name named).1
      (λ token parser v n. ap (λ o. (some o, parser_advance parser)) (ap named_operand v ∙ free))
operand-Parses (memory n) small =
    bracketed (memory n) TokenType.number (decimal n) n (decimal-Reads n small).0
      (λ token parser v m.
        unfold address_operand in ap (λ i. close_bracket (memory i) (parser_advance parser)) m)
operand-Parses (memory_label name) named =
    bracketed (memory_label name) TokenType.identifier name 0 (name-Reads name named).0
      (λ token parser v n.
        unfold address_operand in
        ap (λ text. close_bracket (memory_label text) (parser_advance parser))
          (ap (take 63) v ∙ take-all 63 name (IsName-short name named)))
operand-Parses (string s) never = absurd never
