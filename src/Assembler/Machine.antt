-- ===== src/Assembler/Machine.antt =====
-- From the text of a program to its run: the file that is assembled, loaded into the machine, and a step.
use dez.Base.{
  ℕ, zero, suc, ◌<◌, ◌≤◌, ◌≡◌, refl, ap, ◌∙◌, subst, sym, Bool, true, false, Option, some, none,
  List, [], ◌∷◌, Chars, codes, length, arith,
}
use dez.Isa.Range.{encode-IsWord}
use dez.Isa.Statement.{Statement, encode, IsEncodable}
use dez.Memory.Access
use dez.Vm.State.{Cpu, Vm, is_running, set_pc}
use dez.Vm.Step.{dez_vm_step}
use dez.Vm.Meaning.{meaning}
use dez.Vm.Fetch.{At}
use dez.Vm.Counter.{next_pc, step-encode}
use dez.Loader.{ByteOrder, dez_vm_load_program}
use dez.Loader.Image.{nth, AllBelow}
use dez.Loader.Program.{program_file, load_program-words}
use dez.Symbols.{max_symbols}
use dez.Parser.{Operand}
use dez.Parser.Program.{
  Item, mark, code, program_text, AllWritten, AllDifferent, AllSuit, label_index, label_count,
  words,
}
use dez.Assembler.Driver.{Assembler, Notice, assembler_init, contains, assembler_assemble_file}
use dez.Assembler.Composed.{assembler_assemble_file-program}

-- Statement `i` of a program.
unfoldable pub statement_at : List Item → ℕ → Option Statement
statement_at [] i = none
statement_at (mark name ∷ items) i = statement_at items i
statement_at (code s op ∷ items) zero = some s
statement_at (code s op ∷ items) (suc i) = statement_at items i

-- Every statement of a program can be encoded.
abbrev pub AllEncodable : List Item → Type 0
AllEncodable [] = Unit
AllEncodable (mark name ∷ items) = AllEncodable items
AllEncodable (code s op ∷ items) = IsEncodable s × AllEncodable items

words-AllBelow : (items : List Item) → AllEncodable items → AllBelow 4294967296 (words items)
unfolding words
words-AllBelow [] h = tt
words-AllBelow (mark name ∷ items) h = words-AllBelow items h
words-AllBelow (code s op ∷ items) (here, rest) = (encode-IsWord s here, words-AllBelow items rest)

same_statement : (s t : Statement) → some s ≡ some t → s ≡ t
same_statement s t e =
    ap (λ (o : Option Statement). elim o as (λ _. Statement) [ some x ↦ x | none ↦ s ]) e

word_at :
    (items : List Item) (i : ℕ) (s : Statement)
    → statement_at items i ≡ some s
    → AllEncodable items
    → (i < length (words items)) × (nth (words items) i ≡ encode s) × IsEncodable s
unfolding statement_at words length nth
word_at [] i s h all = absurd (ground arith)
word_at (mark name ∷ items) i s h all = word_at items i s h all
word_at (code t op ∷ items) zero s h all =
    (omega arith, ap encode (same_statement t s h), subst IsEncodable (same_statement t s h) all.0)
word_at (code t op ∷ items) (suc i) s h all =
    let (low, there, encodable) = word_at items i s h all.1 in
    (omega (arith, low), there, encodable)

-- The machine that has loaded a program stands at one of its statements.
loaded-At :
    (order : ByteOrder) (items : List Item) (vm : Vm) (s : Statement)
    → Access.IsValid vm.memory
    → length (words items) ≤ 1024
    → AllEncodable items
    → statement_at items vm.cpu.pc ≡ some s
    → is_running vm.cpu.state ≡ true
    → vm.debug_mode ≡ false
    → At s (dez_vm_load_program order (some (program_file order (words items) [])) vm)
      × ((dez_vm_load_program order (some (program_file order (words items) [])) vm).cpu ≡ vm.cpu)
loaded-At order items vm s valid fits all here runs quiet =
    let (low, word, encodable) = word_at items vm.cpu.pc s here all in
    let (cpu, debug, there) =
      load_program-words order (words items) [] vm valid (omega (arith, low)) fits
        (words-AllBelow items all) vm.cpu.pc low refl in
    (
      record {
        encodable = encodable;
        runs = ap (λ c. is_running c.state) cpu ∙ runs;
        within = subst (λ (c : Cpu). c.pc < 4096) (sym cpu) (omega (arith, low, fits));
        word =
            ap
              (λ (c : Cpu).
                (dez_vm_load_program order (some (program_file order (words items) []))
                    vm).memory.memory
                  c.pc)
              cpu
            ∙ there
            ∙ word;
        quiet = debug ∙ quiet;
      },
      cpu,
    )

-- The text of a program as `parser_parse-program` has it: its labels all different, at most 1024 of
-- them, its operands written so that they give the numbers of the statements. It has 1 to 1024
-- statements, no more than the buffer holds, and each can be encoded: its operands fit and it is no
-- CMP of a register with R0. Assembled into an output file that can be opened and whose name has no
-- ".hex" in it, it gives a file. A running machine with a valid memory and not in debug mode loads
-- that file; where its program counter is the index of a statement, its step does what the
-- statement means and leaves the program counter at `next_pc` of the statement.
pub step-assembled :
    (order : ByteOrder) (union : Operand → ℕ) (unset : ℕ → Operand) (items : List Item)
    (buffer : ℕ → ℕ) (capacity : ℕ) (verbose : Bool) (input_file output_file : Chars) (vm : Vm)
    (s : Statement)
    → contains (codes ".hex") output_file ≡ false
    → AllWritten items
    → AllDifferent items
    → AllSuit (label_index 0 items) items
    → label_count items ≤ max_symbols
    → length (words items) ≤ 1024
    → length (words items) ≤ capacity
    → AllEncodable items
    → Access.IsValid vm.memory
    → is_running vm.cpu.state ≡ true
    → vm.debug_mode ≡ false
    → statement_at items vm.cpu.pc ≡ some s
    → (file : List ℕ) × (after : Assembler) × (log : List Notice) × (assembler_assemble_file order
          union unset true input_file output_file
          (some (program_text items))
          (assembler_init buffer capacity verbose)
        ≡ some (true, after, some file, log))
      × (dez_vm_step (dez_vm_load_program order (some file) vm)
          ≡ set_pc
              (next_pc s (dez_vm_load_program order (some file) vm))
              (meaning s (dez_vm_load_program order (some file) vm)))
step-assembled order union unset items buffer capacity verbose input_file output_file vm s binary
      written different suit room fits enough all valid runs quiet here =
    let (after, log, made) =
      assembler_assemble_file-program order union unset items buffer capacity verbose input_file
        output_file binary written different suit room (omega (arith, fits)) enough in
    let (at, cpu) = loaded-At order items vm s valid fits all here runs quiet in
    let loaded : Vm = dez_vm_load_program order (some (program_file order (words items) [])) vm in
    (program_file order (words items) [], after, log, made, step-encode s loaded at)
