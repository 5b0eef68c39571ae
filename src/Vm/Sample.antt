-- ===== src/Vm/Sample.antt =====
-- A machine for the tests.
use dez.Base.{ℕ, true, false, [], Words}
use dez.Vm.State.{Vm, running}

-- A machine with these words, registers and program counter, as after loading.
abbrev pub machine : Words → Words → ℕ → Vm
machine words regs pc = record {
  cpu = record { regs = regs; pc = pc; sp = 0xFFF; flags = 9; state = running };
  memory = record {
    memory = words;
    code_start = 0;
    code_end = 0x3FF;
    data_start = 0x400;
    data_end = 0x7FF;
    stack_start = 0x800;
    stack_end = 0xFFF;
    code_readonly = true;
    data_writable = true;
    stack_writable = true;
    code_usage = 0;
    data_usage = 0;
    stack_usage = 0;
    max_stack_usage = 0;
    access_count = 0;
    read_count = 0;
    write_count = 0;
    debug_memory_stats = false;
  };
  program_size = 1;
  debug_mode = false;
  stdout = [];
  wide_shift = λ v n. 0;
}
