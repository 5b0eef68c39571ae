-- ===== src/Parser/Emitted.antt =====
-- The second pass over the text of a program, one line at a time: what it knows before and behind a line.
use dez.Base.{
  ℕ, zero, suc, ◌+◌, ◌<◌, ◌≤◌, ◌≡◌, refl, sym, subst, ap, ◌∙◌, false, true, Option, some, none,
  List, ◌∷◌, ◌++◌, Bool, Chars, length, ltb, lt→ltb, ◌==◌, assign, add32, if◌then◌else◌, arith,
}
use dez.Isa.Statement.{Statement, encode}
use dez.Loader.Image.{nth}
use dez.Symbols.{Symbol, SymbolTable}
use dez.Symbols.Find.{IsDistinct, SameSymbols}
use dez.Symbols.Define.{SameSymbols-trans, lookup-SameSymbols, SameSymbols-IsDistinct}
use dez.Parser.Operands.{Operand, ParsedInstruction, parser_encode_instruction}
use dez.Parser.Spelling.{resolve, spelled}
use dez.Parser.Encoding.{parser_encode_instruction_lem}
use dez.Parser.State.{Parser}
use dez.Parser.Lines.{finish, emit, table_reports}
use dez.Parser.Reads.{at}
use dez.Parser.StatementText.{parsed}
use dez.Parser.Program.{Item, mark, code, words, AllSuit}
use dez.Parser.Defined.{address_in}
use dez.Parser.Resolved.{Knows, Suits-Gives, parsed-spelled}

-- Before the rest of a program: the table knows its labels, and there is room for its words.
pub record Loaded (find : Chars → Option ℕ) (parser : Parser) (items : List Item) : Type 0 where
  pub fine : parser.error ≡ false
  pub second : parser.pass ≡ 2
  pub distinct : IsDistinct parser.symbol_table
  pub knows : Knows parser.symbol_table find
  pub suit : AllSuit find items
  pub room : parser.output_size + length (words items) ≤ parser.output_capacity

-- Behind it: its words stand behind those that were there.
pub record Written (parser parser' : Parser) (items : List Item) : Type 0 where
  pub fine : parser'.error ≡ false
  pub same : SameSymbols parser.symbol_table parser'.symbol_table
  pub size : parser'.output_size ≡ parser.output_size + length (words items)
  pub earlier : (i : ℕ) → i < parser.output_size → parser'.output i ≡ parser.output i
  pub later :
      (i : ℕ)
      → i < length (words items)
      → parser'.output (parser.output_size + i) ≡ nth (words items) i

-- The parser behind a statement, in the second pass.
abbrev pub emitted : (Operand → ℕ) → ParsedInstruction → Parser → Parser
emitted union inst parser =
    let (encoded, table, log) = parser_encode_instruction union parser.symbol_table inst in
    record parser {
      symbol_table = table;
      printed = parser.printed ++ table_reports log;
      output = assign parser.output parser.output_size encoded;
      output_size = parser.output_size + 1;
      current_address = add32 parser.current_address 1;
    }

if_true {ℓ} : {A : Type ℓ} (test : Bool) (x y : A) → test ≡ true → (if test then x else y) ≡ x
if_true true x y h = refl
if_true false x y h = absurd (ground (arith, h))

pub finish-second :
    (union : Operand → ℕ) (inst : ParsedInstruction) (parser : Parser) (passed rest : Chars)
    (line column : ℕ)
    → parser.pass ≡ 2
    → parser.output_size < parser.output_capacity
    → finish union (some inst) (at parser passed rest line column)
      ≡ (true, at (emitted union inst parser) passed rest line column)
unfolding finish emit
finish-second union inst parser passed rest line column second room =
    ap
      (λ p. if p == 2 then emit union inst (at parser passed rest line column) else (
        true,
        record (at parser passed rest line column) {
          current_address = add32 parser.current_address 1;
        },
      ))
      second
    ∙ if_true (ltb parser.output_size parser.output_capacity) _ _
        (lt→ltb parser.output_size parser.output_capacity room)

address-SameSymbols :
    {s t : SymbolTable} (name : Chars) → SameSymbols s t → address_in t name ≡ address_in s name
unfolding resolve
address-SameSymbols name same =
    ap (λ (o : Option Symbol). elim o as (λ _. Option ℕ) [ some s ↦ some s.address | none ↦ none ])
      (lookup-SameSymbols name same)

assign-there : (f : ℕ → ℕ) (i v : ℕ) → assign f i v i ≡ v
assign-there f i v = ground arith

module _ (union : Operand → ℕ) (unset : ℕ → Operand) (find : Chars → Option ℕ) (parser : Parser)
    (s : Statement) (op : Operand) (items : List Item)
    (ready : Loaded find parser (code s op ∷ items)) where
  abbrev pub after : Parser
  after = emitted union (parsed unset (spelled op s).type (spelled op s).operands) parser

  encoded_lem :
      ((parser_encode_instruction union parser.symbol_table
          (parsed unset (spelled op s).type (spelled op s).operands)).0
        ≡ encode s)
      × SameSymbols parser.symbol_table after.symbol_table
  encoded_lem =
      let (word, same, silent) =
        parser_encode_instruction_lem union parser.symbol_table op s ready.distinct
          (Suits-Gives parser.symbol_table find op s ready.knows ready.suit.0) in
      let e = parsed-spelled union unset parser.symbol_table op s in
      (
        ap (λ (r : ℕ × SymbolTable × _). r.0) e ∙ word,
        subst (SameSymbols parser.symbol_table) (sym (ap (λ (r : ℕ × SymbolTable × _). r.1) e))
            same,
      )

  pub room_for_one : parser.output_size < parser.output_capacity
  unfolding words length
  room_for_one = omega (arith, ready.room)

  pub emitted-Loaded : Loaded find after items
  unfolding words length
  emitted-Loaded = record {
    fine = ready.fine;
    second = ready.second;
    distinct = SameSymbols-IsDistinct encoded_lem.1 ready.distinct;
    knows = λ name k h. address-SameSymbols name encoded_lem.1 ∙ ready.knows name k h;
    suit = ready.suit.1;
    room = omega (arith, ready.room);
  }

  pub emitted-Written :
      {parser' : Parser} → Written after parser' items → Written parser parser' (code s op ∷ items)
  unfolding words length nth
  emitted-Written {parser'} rest = record {
    fine = rest.fine;
    same = SameSymbols-trans encoded_lem.1 rest.same;
    size = omega (arith, rest.size);
    earlier = λ i h. rest.earlier i (omega arith) ∙ ground arith;
    later = λ i.
        elim i
          as (λ k.
            k < suc (length (words items))
            → parser'.output (parser.output_size + k) ≡ nth (encode s ∷ words items) k) [
              | zero ↦ λ h.
                  ap parser'.output (omega arith)
                  ∙ rest.earlier parser.output_size (omega arith)
                  ∙ assign-there parser.output parser.output_size _
                  ∙ encoded_lem.0
              | suc j ↦ λ h. ap parser'.output (omega arith) ∙ rest.later j (omega arith)
            ];
  }

pub mark-Loaded :
    {find : Chars → Option ℕ} (parser : Parser) (name : Chars) (items : List Item)
    → Loaded find parser (mark name ∷ items)
    → Loaded find parser items
unfolding words
mark-Loaded parser name items ready = record {
  fine = ready.fine;
  second = ready.second;
  distinct = ready.distinct;
  knows = ready.knows;
  suit = ready.suit;
  room = ready.room;
}

pub mark-Written :
    (parser parser' : Parser) (name : Chars) (items : List Item)
    → Written parser parser' items
    → Written parser parser' (mark name ∷ items)
unfolding words
mark-Written parser parser' name items done = record {
  fine = done.fine;
  same = done.same;
  size = done.size;
  earlier = done.earlier;
  later = done.later;
}
