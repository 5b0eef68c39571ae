-- ===== src/Loader/Program.antt =====
-- The machine after loading a whole program file.
use dez.Base.{
  ℕ, ◌+◌, ◌-◌, ◌*◌, ◌<◌, ◌≤◌, ◌≡◌, ◌⊎◌, refl, ap, true, false, some, List, [], ◌∷◌, leb, ltb, ◌&&◌,
  if◌then◌else◌, length, u32, arith,
}
use dez.Memory.{Memory, memory_set_protection, memory_read_byte}
use dez.Memory.Access.{IsValid}
use dez.Vm.State.{Vm}
use dez.Loader.Defs.{
  ByteOrder, loaded, read_uint32, load_instructions, load_strings, strings_end, finish_loading,
  dez_vm_load_program,
}
use dez.Loader.Image.{nth, AllBelow, bytes_of, IsOpen, load_instructions_lem, load_strings_lem}

-- A program file: the number of instructions, the instructions, the string data.
unfoldable pub program_file : ByteOrder → List ℕ → List ℕ → List ℕ
program_file order words strings = bytes_of order (length words ∷ words) strings

bytes_of-length :
    (order : ByteOrder) (words rest : List ℕ)
    → length (bytes_of order words rest) ≡ length words * 4 + length rest
unfolding bytes_of length
bytes_of-length order [] rest = omega arith
bytes_of-length order (w ∷ words) rest = omega (arith, bytes_of-length order words rest)

-- With or without string data, the end of the loader stores the string data and protects the code.
finish_loading_lem :
    (size : ℕ) (strings : List ℕ) (m : Memory)
    → size ≤ 1024
    → finish_loading (4 + (size * 4 + length strings)) size strings m
      ≡ memory_set_protection (load_strings strings 0x100 m) 0 true
unfolding finish_loading length load_strings
finish_loading_lem size [] m h = ground arith
finish_loading_lem size (c ∷ strings) m h =
    let more : ltb (u32 (4 + u32 (size * 4))) (4 + (size * 4 + length (c ∷ strings))) ≡ true =
      ground arith in
    rw more refl

read_size :
    (order : ByteOrder) (words strings : List ℕ)
    → length words ≤ 1024
    → read_uint32 order (program_file order words strings)
      ≡ some (length words, bytes_of order words strings)
unfolding read_uint32 program_file bytes_of
read_size order words strings h =
    ap (λ size. some (size, bytes_of order words strings))
      (order.join-split (length words) (omega arith))

program_file-length :
    (order : ByteOrder) (words strings : List ℕ)
    → length (program_file order words strings) ≡ 4 + (length words * 4 + length strings)
unfolding program_file length
program_file-length order words strings =
    omega (arith, bytes_of-length order (length words ∷ words) strings)

-- The byte of string data at one address.
string_byte :
    (strings : List ℕ) (n : Memory) (k : ℕ)
    → k < length strings
    → k < 0x100
    → (memory_read_byte (load_strings strings 0x100 n) (0x100 + k)).0 ≡ (
        if leb 0x100 (0x100 + k)
          && (ltb (0x100 + k) (0x100 + length strings) && ltb (0x100 + k) strings_end)
        then nth strings (0x100 + k - 0x100)
        else (memory_read_byte n (0x100 + k)).0)
    → (memory_read_byte (load_strings strings 0x100 n) (0x100 + k)).0 ≡ nth strings k
string_byte strings n k h low spec =
    let e : 0x100 + k - 0x100 ≡ k = omega arith in ground (arith, spec, ap (nth strings) e)

module _ (order : ByteOrder) (words strings : List ℕ) (vm : Vm) where
  -- The memory that the instructions are loaded into.
  abbrev unprotected : Memory
  unprotected = memory_set_protection vm.memory 0 false

  unprotected-IsOpen : IsValid vm.memory → IsOpen unprotected
  unfolding memory_set_protection
  unprotected-IsOpen v = record {
    valid = record { words = v.words; code_start = v.code_start; code_end = v.code_end };
    unprotected = refl;
  }

  program-loaded :
      (n : Memory)
      → 1 ≤ length words
      → length words ≤ 1024
      → load_instructions order (length words) 0 (bytes_of order words strings) unprotected
        ≡ loaded n strings
      → dez_vm_load_program order (some (program_file order words strings)) vm ≡ record vm {
        program_size = length words;
        memory = memory_set_protection (load_strings strings 0x100 n) 0 true;
      }
  unfolding dez_vm_load_program
  program-loaded n some_words fits e = ground (
    arith,
    read_size order words strings fits,
    e,
    program_file-length order words strings,
    finish_loading_lem (length words) strings n fits,
  )

  -- A program file with 1 to 1024 instructions, in the assembler's format, is loaded without a message
  -- and without a change to the processor: each instruction outside words 0x40 to 0x7F, which string
  -- data may overwrite, stands at its index, each of the first 256 bytes of string data stands at its
  -- byte address from 0x100 on, and the code is protected.
  pub dez_vm_load_program_lem :
      IsValid vm.memory
      → 1 ≤ length words
      → length words ≤ 1024
      → AllBelow 4294967296 words
      → AllBelow 256 strings
      → let after : Vm = dez_vm_load_program order (some (program_file order words strings)) vm in
        (after.cpu ≡ vm.cpu)
        × (after.stdout ≡ vm.stdout)
        × (after.program_size ≡ length words)
        × (after.memory.code_readonly ≡ true)
        × ((i : ℕ)
            → i < length words
            → (i < 0x40) ⊎ (0x80 ≤ i)
            → after.memory.memory i ≡ nth words i)
        × ((k : ℕ)
            → k < length strings
            → k < 0x100
            → (memory_read_byte after.memory (0x100 + k)).0 ≡ nth strings k)
  unfolding memory_set_protection memory_read_byte
  dez_vm_load_program_lem v some_words fits small_words small_bytes =
      let (n, e, words_spec, opened) =
        load_instructions_lem order words strings 0 unprotected (unprotected-IsOpen v) small_words
          (omega arith) in
      let there : _ = program-loaded n some_words fits e in
      let (bytes_spec, kept, still) =
        load_strings_lem strings 0x100 n opened small_bytes (omega arith) in
      rw there (
        refl,
        refl,
        refl,
        refl,
        λ i h out. ground (arith, kept i out, words_spec i),
        λ k h low. string_byte strings n k h low (bytes_spec (0x100 + k)),
      )

  -- Without string data, every instruction stands at its index; the processor and the debug mode stay.
  pub load_program-words :
      IsValid vm.memory
      → 1 ≤ length words
      → length words ≤ 1024
      → AllBelow 4294967296 words
      → (i : ℕ) → i < length words
      → strings ≡ []
      → let after : Vm = dez_vm_load_program order (some (program_file order words strings)) vm in
        (after.cpu ≡ vm.cpu)
        × (after.debug_mode ≡ vm.debug_mode)
        × (after.memory.memory i ≡ nth words i)
  unfolding memory_set_protection load_strings
  load_program-words v some_words fits small i h none_left =
      let (n, e, words_spec, opened) =
        load_instructions_lem order words strings 0 unprotected (unprotected-IsOpen v) small
          (omega arith) in
      let there : _ = program-loaded n some_words fits e in
      let still : load_strings strings 0x100 n ≡ n =
        ap (λ bytes. load_strings bytes 0x100 n) none_left in
      rw (there, still) (refl, refl, ground (arith, words_spec i))
