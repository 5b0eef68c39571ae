-- ===== src/Event.antt =====
-- What the machine prints on its standard output, one event for each `printf` that a run can reach.
use dez.Base.{ℕ, String}

pub data Event : Type 0 where
  -- src/core/dez_memory.c
  read_out_of_bounds write_out_of_bounds write_read_only : ℕ → Event
  -- the validation macros of src/core/dez_instruction_table.h: the operand and the mnemonic
  invalid_register address_out_of_bounds : ℕ → String → Event
  stack_overflow stack_underflow : String → Event
  -- src/core/dez_instruction_table.c: a register and its value, a character, a number
  print_register : ℕ → ℕ → Event
  print_char : ℕ → Event
  unknown_system_call exited : ℕ → Event
  division_by_zero program_halted : Event
  unknown_instruction : ℕ → ℕ → Event
  -- src/core/dez_vm.c
  pc_out_of_bounds : Event
  trace : ℕ → ℕ → Event
  too_many_steps : ℕ → Event
  cannot_open_file cannot_read_size : Event
  invalid_program_size cannot_read_instruction cannot_write_instruction : ℕ → Event
