-- ===== src/Assembler/Tests.antt =====
-- A program without strings, assembled, loaded and run; and a program with the strings "hi" and "yo", written and loaded.
use dez.Base.{
  zero, suc, ◌<◌, ltb, if◌then◌else◌, true, false, codes, ℕ, ◌+◌, ◌*◌, ◌/◌, ◌%◌, ◌≡◌, refl, some,
  List, [], ◌∷◌, Chars, length, same_chars, take, IsWord, arith,
}
use dez.Memory.{memory_read_byte}
use dez.Memory.Access
use dez.Vm.State.{Vm}
use dez.Vm.Sample.{machine}
use dez.Vm.Sys.{print_str}
use dez.Loader.{ByteOrder, dez_vm_load_program}
use dez.Loader.Image.{nth, AllBelow}
use dez.Symbols.{
  SymbolTable, symbol_table_init, symbol_table_define_string, symbol_table_allocate_string,
  symbol_table_add, symbol_table_find, search_and_cache, search, symbol_hash, hash_from, new_symbol,
  is_string,
}
use dez.Assembler.Defs.{write_binary_file_with_strings, padded, padded_length, string_data, zeros}
use dez.Isa.Statement.{Statement, Condition}
use dez.Vm.State.{is_running, set_pc}
use dez.Vm.Step.{dez_vm_step}
use dez.Vm.Meaning.{meaning}
use dez.Vm.Counter.{next_pc}
use dez.Loader.Program.{program_file}
use dez.Parser.Program.{program_text, words, label_count}
use dez.Parser.Sample.{
  no_union, unset, endless, endless-AllWritten, endless-AllDifferent, endless-AllSuit,
}
use dez.Assembler.Driver.{
  Assembler, Notice, assembler_init, contains, begins, write_hex_file, assembler_assemble_file,
}
use dez.Assembler.Hex.{read_hex_file, read_hex_file-write_hex_file}
use dez.Assembler.Composed.{assembler_assemble_file-program}
use dez.Assembler.Machine.{statement_at, step-assembled}
use dez.Assembler.Strings.{room_of, file_offset, load-write, print_str-misplaced}

join : ℕ → ℕ → ℕ → ℕ → ℕ
join a b c d = a * 16777216 + b * 65536 + c * 256 + d

join-bytes :
    (w : ℕ) → IsWord w → join (w / 16777216) (w / 65536 % 256) (w / 256 % 256) (w % 256) ≡ w
unfolding join
join-bytes w h = omega arith

abbrev big_endian : ByteOrder
big_endian = record {
  join = join;
  byte0 = λ w. w / 16777216;
  byte1 = λ w. w / 65536 % 256;
  byte2 = λ w. w / 256 % 256;
  byte3 = λ w. w % 256;
  join-split = join-bytes;
}

abbrev ready : Vm
ready = machine (λ a. 0) (λ r. 0) 0

ready-IsValid : Access.IsValid ready.memory
ready-IsValid = record { words = λ a. omega arith; code_start = refl; code_end = refl }

abbrev hi : Chars
hi = 104 ∷ 105 ∷ []

abbrev yo : Chars
yo = 121 ∷ 111 ∷ []

-- The table after both strings are defined.
abbrev greetings : SymbolTable
greetings =
    (symbol_table_define_string (symbol_table_define_string symbol_table_init hi hi 0).1 yo yo 0).1

-- MOV R0, 0x103; HALT
abbrev code : List ℕ
code = 0x10000103 ∷ 0 ∷ []

greetings-AllBelow : (i : ℕ) → i < greetings.count → AllBelow 256 (greetings.symbols i).string_value
unfolding length symbol_table_init symbol_table_define_string symbol_table_allocate_string
    symbol_table_add symbol_table_find search_and_cache search symbol_hash hash_from new_symbol
    is_string same_chars take
greetings-AllBelow zero h = (omega arith, (omega arith, tt))
greetings-AllBelow (suc zero) h = (omega arith, (omega arith, tt))
greetings-AllBelow (suc (suc i)) h = absurd (omega (arith, h))

load-write_example :
    (memory_read_byte
      (dez_vm_load_program big_endian
        (some (write_binary_file_with_strings big_endian code greetings))
        ready).memory
      (0x100 + (file_offset greetings.symbols 0 1 + 1))).0
    ≡ (if ltb 1 (length (greetings.symbols 1).string_value)
        then nth (greetings.symbols 1).string_value 1
        else 0)
unfolding length symbol_table_init symbol_table_define_string symbol_table_allocate_string
    symbol_table_add symbol_table_find search_and_cache search symbol_hash hash_from new_symbol
    is_string same_chars take file_offset room_of
load-write_example =
    load-write big_endian code greetings ready 1 1 ready-IsValid (omega arith) (omega arith)
      (omega arith, (omega arith, tt)) greetings-AllBelow (omega arith) refl refl (omega arith)
      (omega arith)

print_str-misplaced_example :
    print_str
      (dez_vm_load_program big_endian
        (some (write_binary_file_with_strings big_endian code greetings))
        ready).memory
      (greetings.symbols 1).address
    ≡ []
unfolding length symbol_table_init symbol_table_define_string symbol_table_allocate_string
    symbol_table_add symbol_table_find search_and_cache search symbol_hash hash_from new_symbol
    is_string same_chars take string_data padded padded_length zeros
print_str-misplaced_example =
    print_str-misplaced big_endian code greetings ready ready-IsValid (omega arith) (omega arith)
      (omega arith, (omega arith, tt))
      (
        omega arith,
        (
          omega arith,
          (
            omega arith,
            (omega arith, (omega arith, (omega arith, (omega arith, (omega arith, tt))))),
          ),
        ),
      )
      (omega arith) refl refl (λ e. omega arith) (omega arith) refl

read_hex_file-write_hex_file_example :
    read_hex_file (write_hex_file (0xDE20001F ∷ 3 ∷ [])) ≡ some (0xDE20001F ∷ 3 ∷ [])
read_hex_file-write_hex_file_example =
    read_hex_file-write_hex_file (0xDE20001F ∷ 3 ∷ []) (omega arith, (omega arith, tt))

-- A loop without end, assembled into "a.dez" with room for 16 words.
assembler_assemble_file-program_example :
    (after : Assembler) × (log : List Notice) × (assembler_assemble_file big_endian no_union unset
        true
        (codes "a.asm")
        (codes "a.dez")
        (some (program_text endless))
        (assembler_init (λ i. 0) 16 false)
      ≡ some (true, after, some (program_file big_endian (words endless) []), log))
unfolding length words label_count contains begins
assembler_assemble_file-program_example =
    assembler_assemble_file-program big_endian no_union unset endless (λ i. 0) 16 false
      (codes "a.asm") (codes "a.dez") refl endless-AllWritten endless-AllDifferent endless-AllSuit
      (omega arith) (omega arith) (omega arith)

-- The jump back to its own label, loaded into an idle machine.
step-assembled_example :
    (file : List ℕ) × (after : Assembler) × (log : List Notice) × (assembler_assemble_file
        big_endian no_union unset true
        (codes "a.asm")
        (codes "a.dez")
        (some (program_text endless))
        (assembler_init (λ i. 0) 16 false)
      ≡ some (true, after, some file, log))
    × (dez_vm_step (dez_vm_load_program big_endian (some file) ready)
        ≡ set_pc
            (next_pc
              (Statement.jump Condition.always 0)
              (dez_vm_load_program big_endian (some file) ready))
            (meaning
              (Statement.jump Condition.always 0)
              (dez_vm_load_program big_endian (some file) ready)))
unfolding length words label_count contains begins statement_at is_running
step-assembled_example =
    step-assembled big_endian no_union unset endless (λ i. 0) 16 false (codes "a.asm")
      (codes "a.dez") ready (Statement.jump Condition.always 0) refl endless-AllWritten
      endless-AllDifferent endless-AllSuit (omega arith) (omega arith) (omega arith)
      (omega arith, (tt, tt)) ready-IsValid refl refl refl
