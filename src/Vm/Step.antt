-- ===== src/Vm/Step.antt =====
-- src/core/dez_vm.c: `dez_vm_step` and `dez_vm_run`.
use dez.Base.{ℕ, zero, suc, ◌+◌, Option, none, some, ltb, leb, ◌==◌, if◌then◌else◌, u8, add32, ◌>>◌}
use dez.Event.{pc_out_of_bounds, trace, too_many_steps}
use dez.Memory.{memory_size_words}
use dez.Vm.State.{Vm, is_running, print, fail, set_pc}
use dez.Vm.Table.{InstructionInfo, get_instruction_info}

-- The end of a step: the program counter moves on unless the instruction has changed it.
unfoldable pub advance : ℕ → ℕ → Vm → Vm
advance old_pc pc_increment vm =
    if vm.cpu.pc == old_pc then set_pc (add32 vm.cpu.pc pc_increment) vm else vm

-- `info->execute(vm, instruction)` and the end of the step.
unfoldable pub dispatch : InstructionInfo → ℕ → Vm → Vm
dispatch info instruction vm = advance vm.cpu.pc info.pc_increment (info.execute instruction vm)

unfoldable pub dez_vm_step : Vm → Vm
dez_vm_step vm =
    if is_running vm.cpu.state
    then (if leb memory_size_words vm.cpu.pc
        then fail pc_out_of_bounds vm
        else let instruction : ℕ = vm.memory.memory vm.cpu.pc in
          let vm' : Vm = if vm.debug_mode then print (trace vm.cpu.pc instruction) vm else vm in
          dispatch (get_instruction_info (u8 (instruction >> 24))) instruction vm')
    else vm

-- The loop of `dez_vm_run`, with fuel for its rounds; `none` is out of fuel.
unfoldable pub run_loop : ℕ → ℕ → ℕ → Vm → Option Vm
run_loop zero max_steps step_count vm = none
run_loop (suc fuel) max_steps step_count vm =
    let vm' : Vm = dez_vm_step vm in
    let step_count' : ℕ = step_count + 1 in
    let rest : Option Vm = run_loop fuel max_steps step_count' vm' in
    if is_running vm.cpu.state
    then (if ltb max_steps step_count' then some (fail (too_many_steps step_count') vm') else rest)
    else some vm

unfoldable pub max_steps : Vm → ℕ
max_steps vm = if vm.debug_mode then 10000 else 100000

-- One round more than `max_steps` lets the loop make.
unfoldable pub dez_vm_run : Vm → Option Vm
dez_vm_run vm = run_loop (max_steps vm + 2) (max_steps vm) 0 vm
