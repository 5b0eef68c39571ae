-- ===== src/Vm/Slide.antt =====
-- A run over instructions that do nothing: it reaches the HALT behind them.
use dez.Base.{
  ℕ, zero, suc, ◌+◌, ◌<◌, ◌≡◌, refl, sym, subst, ap, ◌∙◌, true, false, some, ==-refl, add32,
  if◌then◌else◌, arith,
}
use dez.Event.{program_halted}
use dez.Isa.Statement.{Statement, encode}
use dez.Vm.State.{Vm, is_running, print, set_pc, set_state, halted}
use dez.Vm.Step.{advance, dez_vm_step, max_steps, dez_vm_run}
use dez.Vm.Meaning.{meaning}
use dez.Vm.Fetch.{type_of, increment, step-advance}
use dez.Vm.Run.{steps, RunsFor, run-halts}

-- The machine runs, not in debug mode, and from its program counter on there are `n` NOPs and a HALT.
pub record Slides (n : ℕ) (vm : Vm) : Type 0 where
  pub runs : is_running vm.cpu.state ≡ true
  pub quiet : vm.debug_mode ≡ false
  pub within : vm.cpu.pc + n < 4096
  pub nothings : (i : ℕ) → i < n → vm.memory.memory (vm.cpu.pc + i) ≡ encode Statement.nothing
  pub stop : vm.memory.memory (vm.cpu.pc + n) ≡ encode Statement.stop

-- The machine at the HALT, halted.
abbrev pub halted_at : ℕ → Vm → Vm
halted_at pc vm = print program_halted (set_state halted (set_pc pc vm))

advanced :
    (k : ℕ) (vm : Vm) → vm.cpu.pc + k < 4096 → advance vm.cpu.pc k vm ≡ set_pc (vm.cpu.pc + k) vm
unfolding advance
advanced k vm low =
    ap (λ b. if b then set_pc (add32 vm.cpu.pc k) vm else vm) (==-refl vm.cpu.pc)
    ∙ ap (λ p. set_pc p vm) (omega (arith, low))

nop_step : (n : ℕ) (vm : Vm) → Slides (suc n) vm → dez_vm_step vm ≡ set_pc (vm.cpu.pc + 1) vm
unfolding advance meaning increment type_of set_pc
nop_step n vm s =
    step-advance Statement.nothing vm (record {
      encodable = tt;
      runs = s.runs;
      within = omega (arith, s.within);
      word = ap vm.memory.memory (omega arith) ∙ s.nothings 0 (omega arith);
      quiet = s.quiet;
    })
    ∙ advanced 1 vm (omega (arith, s.within))

halt_step : (vm : Vm) → Slides 0 vm → dez_vm_step vm ≡ halted_at (vm.cpu.pc + 0) vm
unfolding advance meaning increment type_of set_pc set_state print
halt_step vm s =
    step-advance Statement.stop vm (record {
      encodable = tt;
      runs = s.runs;
      within = omega (arith, s.within);
      word = ap vm.memory.memory (omega arith) ∙ s.stop;
      quiet = s.quiet;
    })
    ∙ advanced 0 (print program_halted (set_state halted vm)) s.within

-- Behind the first NOP.
slid : (n : ℕ) (vm : Vm) → Slides (suc n) vm → Slides n (set_pc (vm.cpu.pc + 1) vm)
unfolding set_pc
slid n vm s = record {
  runs = s.runs;
  quiet = s.quiet;
  within = omega (arith, s.within);
  nothings = λ i low. ap vm.memory.memory (omega arith) ∙ s.nothings (suc i) (omega arith);
  stop = ap vm.memory.memory (omega arith) ∙ s.stop;
}

slides :
    (n : ℕ) (vm : Vm)
    → Slides n vm
    → RunsFor (suc n) vm × (steps (suc n) vm ≡ halted_at (vm.cpu.pc + n) vm)
unfolding steps
slides zero vm s = ((s.runs, tt), halt_step vm s)
slides (suc n) vm s =
    let (runs, end) = slides n (set_pc (vm.cpu.pc + 1) vm) (slid n vm s) in
    (
      (s.runs, subst (RunsFor (suc n)) (sym (nop_step n vm s)) runs),
      ap (steps (suc n)) (nop_step n vm s)
          ∙ end
          ∙ (unfold set_pc in ap (λ pc. halted_at pc vm) (omega arith)),
    )

-- A running machine that is not in debug mode, with `n` NOPs and then a HALT from its program counter on, all
-- within the memory: `dez_vm_run` ends with the machine halted at the HALT, with the message of
-- HALT printed and nothing else changed.
pub run-Slides :
    (n : ℕ) (vm : Vm) → Slides n vm → dez_vm_run vm ≡ some (halted_at (vm.cpu.pc + n) vm)
unfolding max_steps
run-Slides n vm s =
    let (runs, end) = slides n vm s in
    run-halts (suc n) vm (ground (arith, s.within)) runs (
      ap (λ (m : Vm). is_running m.cpu.state) end
      ∙ (unfold is_running print set_state set_pc in refl))
    ∙ ap some end
