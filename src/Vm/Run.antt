-- ===== src/Vm/Run.antt =====
-- What `dez_vm_run` computes, by the number of steps to the end.
use dez.Base.{ℕ, zero, suc, ◌+◌, ◌<◌, ◌≤◌, ◌≡◌, true, false, some, lt→ltb, le→ltb, arith}
use dez.Event.{too_many_steps}
use dez.Vm.State.{Vm, is_running, fail}
use dez.Vm.Step.{dez_vm_step, run_loop, max_steps, dez_vm_run}

-- `n` steps.
unfoldable pub steps : ℕ → Vm → Vm
steps zero vm = vm
steps (suc n) vm = steps n (dez_vm_step vm)

-- Running at each of the first `n` machines.
abbrev pub RunsFor : ℕ → Vm → Type 0
RunsFor zero vm = Unit
RunsFor (suc n) vm = (is_running vm.cpu.state ≡ true) × RunsFor n (dez_vm_step vm)

run_loop-halts :
    (n fuel limit count : ℕ) (vm : Vm)
    → n < fuel
    → n + count ≤ limit
    → RunsFor n vm
    → is_running (steps n vm).cpu.state ≡ false
    → run_loop fuel limit count vm ≡ some (steps n vm)
unfolding run_loop steps
run_loop-halts n zero limit count vm enough within runs stops = absurd (omega arith)
run_loop-halts zero (suc fuel) limit count vm enough within runs stops = rw stops
run_loop-halts (suc n) (suc fuel) limit count vm enough within runs stops =
    rw (runs.0, le→ltb limit (count + 1) (omega arith))
      (run_loop-halts n fuel limit (count + 1) (dez_vm_step vm) (omega arith) (omega arith) runs.1
        stops)

run_loop-gives_up :
    (n fuel limit count : ℕ) (vm : Vm)
    → n < fuel
    → n + count ≡ limit
    → RunsFor (suc n) vm
    → run_loop fuel limit count vm ≡ some (fail (too_many_steps (limit + 1)) (steps (suc n) vm))
unfolding run_loop steps
run_loop-gives_up n zero limit count vm enough within runs = absurd (omega arith)
run_loop-gives_up zero (suc fuel) limit count vm enough within runs =
    let same : count ≡ limit = omega arith in
    rw (runs.0, same, lt→ltb limit (limit + 1) (omega arith))
run_loop-gives_up (suc n) (suc fuel) limit count vm enough within runs =
    rw (runs.0, le→ltb limit (count + 1) (omega arith))
      (run_loop-gives_up n fuel limit (count + 1) (dez_vm_step vm) (omega arith) (omega arith)
        runs.1)

-- A program that stops running after `n` steps, and not before, `n` at most the limit, is run to
-- exactly that machine.
pub run-halts :
    (n : ℕ) (vm : Vm)
    → n ≤ max_steps vm
    → RunsFor n vm
    → is_running (steps n vm).cpu.state ≡ false
    → dez_vm_run vm ≡ some (steps n vm)
unfolding dez_vm_run
run-halts n vm within runs stops =
    run_loop-halts n (max_steps vm + 2) (max_steps vm) 0 vm (omega arith) (omega arith) runs stops

-- A program that is still running after as many steps as the limit allows is stopped one step later,
-- with an error.
pub run-gives_up :
    (vm : Vm)
    → RunsFor (suc (max_steps vm)) vm
    → dez_vm_run vm
      ≡ some (fail (too_many_steps (max_steps vm + 1)) (steps (suc (max_steps vm)) vm))
unfolding dez_vm_run
run-gives_up vm runs =
    run_loop-gives_up (max_steps vm) (max_steps vm + 2) (max_steps vm) 0 vm (omega arith)
      (omega arith) runs
