-- ===== src/Parser/Collected.antt =====
-- The first pass over the text of a program, one line at a time: what it knows before and behind a line.
use dez.Base.{
  ℕ, ◌+◌, ◌<◌, ◌≡◌, sym, subst, ap, ◌∙◌, true, Option, some, none, List, ◌∷◌, Chars, length, ◌⊎◌,
  ◌==◌, if◌then◌else◌, add32, same_chars, same_chars_refl, same_chars-eq, Bool-cases, inl, inr,
  arith,
}
use dez.Isa.Statement.{Statement}
use dez.Lexer.Words.{IsName, IsName-short}
use dez.Symbols.{SymbolTable, symbol_table_define, max_symbols}
use dez.Symbols.Labels.{HasNoStrings, symbol_table_define-HasNoStrings}
use dez.Symbols.Find.{IsDistinct}
use dez.Parser.Operands.{Operand, ParsedInstruction}
use dez.Parser.State.{Parser}
use dez.Parser.Lines.{define_label, emit, finish}
use dez.Parser.Reads.{at}
use dez.Parser.LabelText.{marked, marked-error}
use dez.Parser.Program.{Item, mark, code, label_index, label_count, words}
use dez.Parser.Defined.{
  address_in, label_index-none, defined-IsDistinct, defined-count, defined-address, Prepared,
}

-- The parser behind a statement, in the first pass.
abbrev pub counted : Parser → Parser
counted parser = record parser { current_address = add32 parser.current_address 1 }

pub finish-first :
    (union : Operand → ℕ) (inst : ParsedInstruction) (parser : Parser) (passed rest : Chars)
    (line column : ℕ)
    → parser.pass ≡ 1
    → finish union (some inst) (at parser passed rest line column)
      ≡ (true, at (counted parser) passed rest line column)
unfolding finish
finish-first union inst parser passed rest line column first =
    ap
      (λ p.
        if p == 2
        then emit union inst (at parser passed rest line column)
        else (true, at (counted parser) passed rest line column))
      first

-- What is known behind a statement.
pub counted-Prepared :
    (parser : Parser) (n : ℕ) (s : Statement) (op : Operand) (items : List Item)
    → Prepared parser n (code s op ∷ items)
    → Prepared (counted parser) (n + 1) items
unfolding label_index label_count words length
counted-Prepared parser n s op items ready = record {
  fine = ready.fine;
  first = ready.first;
  here = ap (λ a. add32 a 1) ready.here ∙ omega (arith, ready.small);
  distinct = ready.distinct;
  no_strings = ready.no_strings;
  room = ready.room;
  new = λ name. elim (ready.new name) [
    | inl absent ↦ inl absent
    | inr none_left ↦ inr (label_index-none 1 0 items name none_left)
  ];
  small = omega (arith, ready.small);
}

pub marked-first :
    (name : Chars) (line n : ℕ) (parser : Parser)
    → parser.pass ≡ 1
    → parser.current_address ≡ n
    → ((marked name line parser).symbol_table
        ≡ (symbol_table_define parser.symbol_table name n line).1)
      × ((marked name line parser).pass ≡ 1)
      × ((marked name line parser).current_address ≡ n)
marked-first name line n parser first here =
    let e : marked name line parser ≡ define_label name line parser =
      ap (λ p. if p == 1 then define_label name line parser else parser) first in
    unfold define_label in
    (
      ap (λ (q : Parser). q.symbol_table) e
          ∙ ap (λ a. (symbol_table_define parser.symbol_table name a line).1) here,
      ap (λ (q : Parser). q.pass) e ∙ first,
      ap (λ (q : Parser). q.current_address) e ∙ here,
    )

-- A name that is not another label of the rest.
still_new :
    (name other : Chars) (n : ℕ) (items : List Item) (before after : Option ℕ)
    → label_index 0 items name ≡ none
    → after ≡ (if same_chars name other then some n else before)
    → (before ≡ none) ⊎ (label_index 0 (mark name ∷ items) other ≡ none)
    → (after ≡ none) ⊎ (label_index 0 items other ≡ none)
unfolding label_index
still_new name other n items before after single there new =
    elim (Bool-cases (same_chars name other)) [
      | inl same ↦
          inr (subst (λ x. label_index 0 items x ≡ none) (same_chars-eq name other same) single)
      | inr differ ↦ elim new [
        | inl absent ↦ inl (there ∙ rw differ absent)
        | inr gone ↦ inr (rw differ at gone)
      ]
    ]

-- What is known behind a label.
module _ (parser : Parser) (n line : ℕ) (name : Chars) (items : List Item) (named : IsName name)
    (ready : Prepared parser n (mark name ∷ items)) where
  abbrev after : Parser
  after = marked name line parser

  absent : address_in parser.symbol_table name ≡ none
  unfolding label_index
  absent = elim (ready.new name) [
    | inl new ↦ new
    | inr other ↦ ground (arith, other, same_chars_refl name)
  ]

  room : parser.symbol_table.count < max_symbols
  unfolding label_count
  room = omega (arith, ready.room)

  pub marked-address :
      (other : Chars)
      → address_in after.symbol_table other
        ≡ (if same_chars name other then some n else address_in parser.symbol_table other)
  marked-address other =
      ap (λ (t : SymbolTable). address_in t other)
        (marked-first name line n parser ready.first ready.here).0
      ∙ defined-address parser.symbol_table name n line other (IsName-short name named)
          ready.distinct room absent

  pub marked-Prepared : label_index 0 items name ≡ none → Prepared after n items
  unfolding label_count words
  marked-Prepared single =
      let (table, pass, address) = marked-first name line n parser ready.first ready.here in
      record {
        fine = marked-error name line parser ∙ ready.fine;
        first = pass;
        here = address;
        distinct = subst IsDistinct (sym table) (
            defined-IsDistinct parser.symbol_table name n line (IsName-short name named)
              ready.distinct);
        no_strings =
            subst HasNoStrings (sym table)
              (symbol_table_define-HasNoStrings parser.symbol_table name n line ready.no_strings);
        room = omega (
          arith,
          ap (λ (t : SymbolTable). t.count) table,
          defined-count parser.symbol_table name n line ready.distinct room absent,
          ready.room,
        );
        new = λ other.
            still_new name other n items (address_in parser.symbol_table other)
              (address_in after.symbol_table other) single (marked-address other) (ready.new other);
        small = ready.small;
      }
