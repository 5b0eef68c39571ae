-- ===== src/Loader/Errors.antt =====
-- What the loader leaves behind on each of its ways out.
use dez.Base.{ℕ, ◌≡◌, ◌⊎◌, refl, true, false, Option, none, some, List, inr, arith}
use dez.Memory.{memory_set_protection}
use dez.Vm.State.{Vm, is_running, fail, print, print_all, set_state}
use dez.Loader.Defs.{ByteOrder, finish_loading, dez_vm_load_program}

-- Loaded, with the processor untouched and the code protected; or stopped in the error state with a message.
abbrev pub LoadedOrStopped : Vm → Vm → Type 0
LoadedOrStopped before after =
    ((after.cpu ≡ before.cpu)
      × (after.stdout ≡ before.stdout)
      × (after.memory.code_readonly ≡ true))
    ⊎ ((is_running after.cpu.state ≡ false)
        × (after.cpu.regs ≡ before.cpu.regs)
        × (after.cpu.pc ≡ before.cpu.pc))

-- Whatever the file holds, the loader ends in one of two ways: the processor and the output are as
-- before and the code is protected, or the machine is stopped with its registers and program
-- counter as before. A machine that runs after loading has its code protected.
pub dez_vm_load_program-outcome :
    (order : ByteOrder) (file : Option (List ℕ)) (vm : Vm)
    → LoadedOrStopped vm (dez_vm_load_program order file vm)
unfolding dez_vm_load_program fail print print_all set_state is_running finish_loading
    memory_set_protection
dez_vm_load_program-outcome order none vm = inr (refl, refl, refl)
dez_vm_load_program-outcome order (some bytes) vm = ground arith
