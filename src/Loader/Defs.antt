-- ===== src/Loader/Defs.antt =====
-- src/core/dez_vm.c: `dez_vm_load_program`, on a file that is the list of its bytes, or `none` when it
-- cannot be opened.
use dez.Base.{
  ℕ, zero, suc, ◌+◌, ◌*◌, ◌≡◌, true, false, ◌||◌, Option, none, some, List, [], ◌∷◌, ltb, ◌==◌,
  if◌then◌else◌, IsWord, length, u32,
}
use dez.Event.{
  Event, cannot_open_file, cannot_read_size, invalid_program_size, cannot_read_instruction,
  cannot_write_instruction,
}
use dez.Memory.{
  Memory, success, failure, memory_set_protection, memory_write_word, memory_write_byte,
}
use dez.Vm.State.{Vm, print_all, fail}

-- The four bytes of a word in the order of the host, which both the assembler's `fwrite` and the
-- machine's `fread` use.
pub record ByteOrder : Type 0 where
  pub join : ℕ → ℕ → ℕ → ℕ → ℕ
  pub byte0 : ℕ → ℕ
  pub byte1 : ℕ → ℕ
  pub byte2 : ℕ → ℕ
  pub byte3 : ℕ → ℕ
  pub join-split : (w : ℕ) → IsWord w → join (byte0 w) (byte1 w) (byte2 w) (byte3 w) ≡ w

-- What the loop over the instructions ends with: the memory and the bytes that are left; or the index
-- of the instruction that could not be read; or of the one that could not be written, with what
-- was printed.
pub data Loading : Type 0 where
  loaded : Memory → List ℕ → Loading
  unreadable : ℕ → Memory → Loading
  unwritable : ℕ → Memory → List Event → Loading

abbrev pub max_program_size : ℕ
max_program_size = 1024

-- The byte addresses at which the strings start and end.
abbrev pub strings_start : ℕ
strings_start = 0x100

abbrev pub strings_end : ℕ
strings_end = 0x200

module _ (order : ByteOrder) where
  -- `fread(&word, sizeof(uint32_t), 1, file)`; `none` is a return value other than 1.
  unfoldable pub read_uint32 : List ℕ → Option (ℕ × List ℕ)
  read_uint32 (a ∷ b ∷ c ∷ d ∷ rest) = some (order.join a b c d, rest)
  read_uint32 _ = none

  -- The loop over the instructions: `n` of them from index `i` on.
  unfoldable pub load_instructions : ℕ → ℕ → List ℕ → Memory → Loading
  load_instructions zero i bytes mem = loaded mem bytes
  load_instructions (suc n) i bytes mem = elim (read_uint32 bytes) [
    | none ↦ unreadable i mem
    | some next ↦
        let (status, mem', log) = memory_write_word mem i next.0 in
        elim status [
          | success ↦ load_instructions n (i + 1) next.1 mem'
          | failure ↦ unwritable i mem' log
        ]
  ]

-- The loop over the string data from byte address `addr` on. Its writes print nothing: they are in
-- bounds, and the code is not protected at the time.
unfoldable pub load_strings : List ℕ → ℕ → Memory → Memory
load_strings [] addr mem = mem
load_strings (c ∷ bytes) addr mem =
    let rest : Memory = load_strings bytes (addr + 1) (memory_write_byte mem addr c).1 in
    if ltb addr strings_end then rest else mem

-- The end of the function: string data behind the instructions, and the protection put back.
unfoldable pub finish_loading : ℕ → ℕ → List ℕ → Memory → Memory
finish_loading file_size program_size rest mem =
    let mem' : Memory =
      if ltb (u32 (4 + u32 (program_size * 4))) file_size
      then load_strings rest strings_start mem
      else mem in
    memory_set_protection mem' 0 true

-- A machine with this memory.
abbrev pub with_memory : Memory → Vm → Vm
with_memory mem vm = record vm { memory = mem }

module _ (order : ByteOrder) where
  unfoldable pub dez_vm_load_program : Option (List ℕ) → Vm → Vm
  dez_vm_load_program none vm = fail cannot_open_file vm
  dez_vm_load_program (some bytes) vm = elim (read_uint32 order bytes) [
    | none ↦ fail cannot_read_size vm
    | some head ↦
        let size : ℕ = head.0 in
        let vm' : Vm = record vm { program_size = size } in
        if size == 0 || ltb max_program_size size
        then fail (invalid_program_size size) vm'
        else elim (load_instructions order size 0 head.1
            (memory_set_protection vm'.memory 0 false)) [
              | loaded mem rest ↦ with_memory (finish_loading (length bytes) size rest mem) vm'
              | unreadable i mem ↦ fail (cannot_read_instruction i) (with_memory mem vm')
              | unwritable i mem log ↦
                  fail (cannot_write_instruction i) (print_all log (with_memory mem vm'))
            ]
  ]
