-- ===== src/Vm/State.antt =====
-- src/core/dez_vm.h: `cpu_t` and `dez_vm_t`; src/core/dez_instruction_table.h: the validation
-- macros, with the rest of the function as what runs when the test passes.
use dez.Base.{
  ℕ, ◌-◌, Bool, true, false, List, [], ◌∷◌, ◌++◌, ltb, leb, if◌then◌else◌, String, Words, update,
}
use dez.Event.{Event, invalid_register, address_out_of_bounds, stack_overflow, stack_underflow}
use dez.Isa.Decode.{max_register_index}
use dez.Memory.{
  Memory, memory_size_words, stack_start, stack_end, memory_init, memory_read_word,
  memory_write_word,
}

-- `dez_vm_state_t`
pub data VmState : Type 0 where
  running halted error debug : VmState

unfoldable pub is_running : VmState → Bool
is_running running = true
is_running _ = false

-- `cpu_t`
pub record Cpu : Type 0 where
  pub regs : Words
  pub pc : ℕ
  pub sp : ℕ
  pub flags : ℕ
  pub state : VmState

-- `dez_vm_t`, with what has been printed so far, oldest first. `wide_shift v n` is what a shift of
-- `v` by `n ≥ 32` gives, which C leaves undefined: a parameter, constant through a run.
pub record Vm : Type 0 where
  pub cpu : Cpu
  pub memory : Memory
  pub program_size : ℕ
  pub debug_mode : Bool
  pub stdout : List Event
  pub wide_shift : ℕ → ℕ → ℕ

-- `dez_vm_init`
unfoldable pub dez_vm_init : Vm → Vm
dez_vm_init vm = record vm {
  cpu = record { regs = λ _. 0; pc = 0; sp = memory_size_words - 1; flags = 0; state = running };
  memory = memory_init vm.memory;
  program_size = 0;
  debug_mode = false;
}

unfoldable pub print_all : List Event → Vm → Vm
print_all log vm = record vm { stdout = vm.stdout ++ log }

unfoldable pub print : Event → Vm → Vm
unfolding print_all
print e vm = print_all (e ∷ []) vm

unfoldable pub set_state : VmState → Vm → Vm
set_state s vm = record vm { cpu = record (vm.cpu) { state = s } }

-- Print an error, and stop in the error state.
unfoldable pub fail : Event → Vm → Vm
unfolding print set_state
fail e vm = set_state error (print e vm)

unfoldable pub set_reg : ℕ → ℕ → Vm → Vm
set_reg r v vm = record vm { cpu = record (vm.cpu) { regs = update vm.cpu.regs r v } }

unfoldable pub set_pc : ℕ → Vm → Vm
set_pc pc vm = record vm { cpu = record (vm.cpu) { pc = pc } }

unfoldable pub set_sp : ℕ → Vm → Vm
set_sp sp vm = record vm { cpu = record (vm.cpu) { sp = sp } }

unfoldable pub set_flags : ℕ → Vm → Vm
set_flags flags vm = record vm { cpu = record (vm.cpu) { flags = flags } }

-- `memory_read_word(&vm->memory, address)`: the value, and the machine with its statistics kept.
unfoldable pub read_word : ℕ → Vm → ℕ × Vm
read_word address vm =
    let (value, memory, log) = memory_read_word vm.memory address in
    (value, record vm { memory = memory; stdout = vm.stdout ++ log })

-- `memory_write_word(&vm->memory, address, value)`, called for its effect: no caller among the
-- instructions reads the status.
unfoldable pub write_word : ℕ → ℕ → Vm → Vm
write_word address value vm =
    let (status, memory, log) = memory_write_word vm.memory address value in
    record vm { memory = memory; stdout = vm.stdout ++ log }

-- `DEZ_VALIDATE_REGISTER`
unfoldable pub validate_register : ℕ → String → (Vm → Vm) → Vm → Vm
validate_register reg name rest vm =
    if ltb max_register_index reg then fail (invalid_register reg name) vm else rest vm

-- `DEZ_VALIDATE_MEMORY_ADDRESS`
unfoldable pub validate_memory_address : ℕ → String → (Vm → Vm) → Vm → Vm
validate_memory_address addr name rest vm =
    if leb memory_size_words addr then fail (address_out_of_bounds addr name) vm else rest vm

-- `DEZ_VALIDATE_STACK_OVERFLOW`
unfoldable pub validate_stack_overflow : String → (Vm → Vm) → Vm → Vm
validate_stack_overflow name rest vm =
    if ltb vm.cpu.sp stack_start then fail (stack_overflow name) vm else rest vm

-- `DEZ_VALIDATE_STACK_UNDERFLOW`
unfoldable pub validate_stack_underflow : String → (Vm → Vm) → Vm → Vm
validate_stack_underflow name rest vm =
    if leb stack_end vm.cpu.sp then fail (stack_underflow name) vm else rest vm
