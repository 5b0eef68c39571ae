-- ===== src/Vm/Invariant.antt =====
-- The machine's invariant holds from `dez_vm_init` through every step and run.
use dez.Base.{◌+◌, ◌≡◌, true, false, some, arith}
use dez.Memory.{memory_init}
use dez.Vm.State.{Vm, is_running, dez_vm_init}
use dez.Vm.Step.{dez_vm_step, dez_vm_run, max_steps}
use dez.Vm.Valid.{
  IsValid, print_all-IsValid, set_state-IsValid, set_reg-IsValid, set_pc-IsValid, set_sp-IsValid,
  set_flags-IsValid, read_word-IsValid, write_word-IsValid, poke-IsValid,
}
use dez.Vm.Keeps.Primitive.{Keeps}
use dez.Vm.Keeps.Run.{step-keeps, run_loop-keeps}

pub IsValid-Keeps : Keeps IsValid
IsValid-Keeps = record {
  valid = λ v. v;
  by_print_all = λ log v. print_all-IsValid log v;
  by_set_state = λ s v. set_state-IsValid s v;
  by_set_reg = λ r n _ w v. set_reg-IsValid r n w v;
  by_set_pc = λ n w v. set_pc-IsValid n w v;
  by_set_sp = λ n w v. set_sp-IsValid n w v;
  by_set_flags = λ n w v. set_flags-IsValid n w v;
  by_read_word = read_word-IsValid;
  by_write_word = write_word-IsValid;
}

-- A step of a valid machine, whatever the word at the program counter, leaves it valid: the
-- registers, the program counter and the memory words below 2 ^ 32, the stack pointer from 0x7FF to
-- 0xFFF, the flags those of one comparison or none.
pub step-IsValid : (vm : Vm) → IsValid vm → IsValid (dez_vm_step vm)
step-IsValid vm v = step-keeps IsValid-Keeps vm (λ _ w a n _ word u. poke-IsValid a n w word u) v

-- `dez_vm_init` makes a valid, running machine with protected code of any memory.
init-IsValid :
    (vm : Vm)
    → IsValid (dez_vm_init vm)
      × (is_running (dez_vm_init vm).cpu.state ≡ true)
      × ((dez_vm_init vm).memory.code_readonly ≡ true)
unfolding dez_vm_init memory_init is_running
init-IsValid vm = ground arith

-- `dez_vm_run` on a valid machine returns, whatever the program: the machine that it returns is
-- valid and no longer running.
pub run-total :
    (vm : Vm)
    → IsValid vm
    → (end : Vm) × (dez_vm_run vm ≡ some end) × (is_running end.cpu.state ≡ false) × IsValid end
unfolding dez_vm_run
run-total vm v =
    run_loop-keeps IsValid-Keeps (max_steps vm + 2) (max_steps vm) 0 vm (omega arith) (omega arith)
      step-IsValid v
