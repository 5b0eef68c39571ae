-- ===== src/Loader/Tests.antt =====
-- Loading a small program on a little-endian host.
use dez.Base.{
  ℕ, ◌+◌, ◌*◌, ◌/◌, ◌%◌, ◌<◌, ◌≤◌, ◌≡◌, ◌⊎◌, refl, true, some, List, [], ◌∷◌, length, IsWord, arith,
}
use dez.Memory.{memory_read_byte}
use dez.Memory.Access
use dez.Vm.State.{Vm}
use dez.Vm.Sample.{machine}
use dez.Loader.Defs.{ByteOrder, dez_vm_load_program}
use dez.Loader.Image.{nth}
use dez.Loader.Program.{program_file, dez_vm_load_program_lem}
use dez.Loader.Errors.{LoadedOrStopped, dez_vm_load_program-outcome}

join : ℕ → ℕ → ℕ → ℕ → ℕ
join a b c d = a + b * 256 + c * 65536 + d * 16777216

join-bytes :
    (w : ℕ) → IsWord w → join (w % 256) (w / 256 % 256) (w / 65536 % 256) (w / 16777216) ≡ w
unfolding join
join-bytes w h = omega arith

abbrev little_endian : ByteOrder
little_endian = record {
  join = join;
  byte0 = λ w. w % 256;
  byte1 = λ w. w / 256 % 256;
  byte2 = λ w. w / 65536 % 256;
  byte3 = λ w. w / 16777216;
  join-split = join-bytes;
}

abbrev ready : Vm
ready = machine (λ a. 0) (λ r. 0) 0

ready-IsValid : Access.IsValid ready.memory
ready-IsValid = record { words = λ a. omega arith; code_start = refl; code_end = refl }

-- MOV R0, 0x100; HALT; and the string "hi".
abbrev code : List ℕ
code = 0x10000100 ∷ 0 ∷ []

abbrev text : List ℕ
text = 104 ∷ 105 ∷ 0 ∷ 0 ∷ []

dez_vm_load_program_lem_example :
    let after : Vm =
      dez_vm_load_program little_endian (some (program_file little_endian code text)) ready in
    (after.cpu ≡ ready.cpu)
    × (after.stdout ≡ ready.stdout)
    × (after.program_size ≡ length code)
    × (after.memory.code_readonly ≡ true)
    × ((i : ℕ) → i < length code → (i < 0x40) ⊎ (0x80 ≤ i) → after.memory.memory i ≡ nth code i)
    × ((k : ℕ)
        → k < length text
        → k < 0x100
        → (memory_read_byte after.memory (0x100 + k)).0 ≡ nth text k)
unfolding length
dez_vm_load_program_lem_example =
    dez_vm_load_program_lem little_endian code text ready ready-IsValid (omega arith) (omega arith)
      (omega arith, (omega arith, tt))
      (omega arith, (omega arith, (omega arith, (omega arith, tt))))

dez_vm_load_program-outcome_example :
    LoadedOrStopped ready (dez_vm_load_program little_endian (some (1 ∷ 0 ∷ [])) ready)
dez_vm_load_program-outcome_example =
    dez_vm_load_program-outcome little_endian (some (1 ∷ 0 ∷ [])) ready
