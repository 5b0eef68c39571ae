-- ===== src/Vm/Counter.antt =====
-- Where the program counter stands after a step, statement by statement.
use dez.Base.{
  ℕ, ◌+◌, ◌^◌, ◌<◌, ◌≡◌, refl, sym, ap, Bool-cases, inl, inr, ◌∙◌, Bool, true, false, ◌==◌, ltb,
  add32, ==-refl, ==→eq, if◌then◌else◌, if_both, if_cases, arith,
}
use dez.Isa.Statement.{Statement, ArithmeticOp, BitOp, Condition, arithmetic_type, bit_type}
use dez.Vm.State.{
  Vm, set_pc, set_reg, set_flags, set_sp, set_state, fail, print, print_all, read_word, write_word,
}
use dez.Vm.Transfer.{load_word, poke}
use dez.Vm.Stack.{push_word, pop_word}
use dez.Vm.Step.{advance, dez_vm_step}
use dez.Vm.Meaning.{
  meaning, holds, arithmetic_meaning, system_meaning, within, with_room, with_item,
}
use dez.Vm.Fetch.{At, type_of, increment, step-advance}

-- A jump that is taken goes to its address, CALL to its address when the stack has room, RET to the
-- address that it takes from the stack; HALT, and a CALL or RET that fails, stay; everything else
-- goes on to the next word. A conditional jump that is taken to its own address goes on too.
unfoldable pub next_pc : Statement → Vm → ℕ
next_pc (Statement.jump Condition.always a) vm = a
next_pc (Statement.jump c a) vm =
    if holds c vm.cpu.flags then (if a == vm.cpu.pc then vm.cpu.pc + 1 else a) else vm.cpu.pc + 1
next_pc (Statement.call_to a) vm = if ltb vm.cpu.sp 0x800 then vm.cpu.pc else a
next_pc Statement.return vm = if ltb vm.cpu.sp 0xFFF then (pop_word vm).0 else vm.cpu.pc
next_pc Statement.stop vm = vm.cpu.pc
next_pc _ vm = vm.cpu.pc + 1

-- The end of a step that has not moved the program counter.
moved_on :
    (k pc : ℕ) (vm : Vm) → vm.cpu.pc ≡ pc → pc + k < 2 ^ 32 → advance pc k vm ≡ set_pc (pc + k) vm
unfolding advance
moved_on k pc vm same low =
    ap (λ p. if p == pc then set_pc (add32 p k) vm else vm) same
    ∙ ap (λ b. if b then set_pc (add32 pc k) vm else vm) (==-refl pc)
    ∙ ap (λ p. set_pc p vm) (omega (arith, low))

-- Without an increment the step ends where the instruction has left it.
stayed : (pc : ℕ) (vm : Vm) → pc < 4096 → advance pc 0 vm ≡ vm
unfolding advance set_pc
stayed pc vm low =
    if_cases (λ (w : Vm). w ≡ vm) (vm.cpu.pc == pc)
      (λ same. ap (λ p. set_pc p vm) (omega (arith, low, ==→eq vm.cpu.pc pc same))) (λ differ. refl)

-- The statements that leave the program counter alone: all but the jumps, CALL, RET and HALT.
arithmetic-pc :
    (op : ArithmeticOp) (r a b : ℕ) (vm : Vm) → (arithmetic_meaning op r a b vm).cpu.pc ≡ vm.cpu.pc
unfolding arithmetic_meaning set_reg fail set_state print print_all
arithmetic-pc ArithmeticOp.over r a b vm =
    if_both (λ (w : Vm). w.cpu.pc ≡ vm.cpu.pc) (b == 0) refl refl
arithmetic-pc ArithmeticOp.plus r a b vm = refl
arithmetic-pc ArithmeticOp.minus r a b vm = refl
arithmetic-pc ArithmeticOp.times r a b vm = refl

system-pc : (r n : ℕ) (vm : Vm) → (system_meaning r n vm).cpu.pc ≡ vm.cpu.pc
unfolding system_meaning print print_all set_state
system-pc r n vm =
    let P : Vm → Type 0 = λ w. w.cpu.pc ≡ vm.cpu.pc in
    if_both P (n == 1) refl
      (if_both P (n == 2) refl (if_both P (n == 3) refl (if_both P (n == 6) refl refl)))

within-pc :
    (a : ℕ) (name : _) (access : Vm → Vm) (vm : Vm)
    → (access vm).cpu.pc ≡ vm.cpu.pc
    → (within a name access vm).cpu.pc ≡ vm.cpu.pc
unfolding within fail set_state print print_all
within-pc a name access vm same = if_both (λ (w : Vm). w.cpu.pc ≡ vm.cpu.pc) (ltb a 4096) same refl

-- One plus the counter, where the statement's increment is one.
arithmetic-one : (op : ArithmeticOp) → increment (arithmetic_type op) ≡ 1
unfolding increment arithmetic_type
arithmetic-one ArithmeticOp.plus = refl
arithmetic-one _ = refl

bit-one : (op : BitOp) → increment (bit_type op) ≡ 1
unfolding increment bit_type
bit-one BitOp.both = refl
bit-one _ = refl

-- A conditional jump, by whether it is taken.
jumped :
    (taken : Bool) (a : ℕ) (vm : Vm)
    → vm.cpu.pc < 4096
    → advance vm.cpu.pc 1 (if taken then set_pc a vm else vm)
      ≡ set_pc
          (if taken then (if a == vm.cpu.pc then vm.cpu.pc + 1 else a) else vm.cpu.pc + 1)
          (if taken then set_pc a vm else vm)
unfolding advance set_pc
jumped true a vm low = elim (Bool-cases (a == vm.cpu.pc)) [
  | inl same ↦
      ap (λ b. if b then set_pc (add32 a 1) vm else set_pc a vm) same
      ∙ ap (λ p. set_pc p vm) (omega (arith, low, ==→eq a vm.cpu.pc same))
      ∙ ap (λ b. set_pc (if b then vm.cpu.pc + 1 else a) vm) (sym same)
  | inr differ ↦
      ap (λ b. if b then set_pc (add32 a 1) vm else set_pc a vm) differ
      ∙ ap (λ b. set_pc (if b then vm.cpu.pc + 1 else a) vm) (sym differ)
]
jumped false a vm low = moved_on 1 vm.cpu.pc vm refl (omega (arith, low))

-- One of two machines, at one of two counters.
settled :
    (b : Bool) (p q : ℕ) (x y : Vm)
    → x.cpu.pc ≡ p
    → y.cpu.pc ≡ q
    → (if b then x else y) ≡ set_pc (if b then p else q) (if b then x else y)
unfolding set_pc
settled true p q x y hx hy = ap (λ c. set_pc c x) hx
settled false p q x y hx hy = ap (λ c. set_pc c y) hy

advance-next_pc :
    (s : Statement) (vm : Vm)
    → vm.cpu.pc < 4096
    → advance vm.cpu.pc (increment (type_of s)) (meaning s vm)
      ≡ set_pc (next_pc s vm) (meaning s vm)
unfolding meaning next_pc type_of increment set_pc set_reg set_flags fail print print_all set_state
    with_room with_item holds load_word poke read_word push_word pop_word write_word set_sp
advance-next_pc (Statement.jump Condition.always a) vm low = stayed vm.cpu.pc (set_pc a vm) low
advance-next_pc (Statement.jump c a) vm low = jumped (holds c vm.cpu.flags) a vm low
advance-next_pc (Statement.call_to a) vm low =
    stayed vm.cpu.pc (meaning (Statement.call_to a) vm) low
    ∙ settled (ltb vm.cpu.sp 0x800) vm.cpu.pc a _ _ refl refl
advance-next_pc Statement.return vm low =
    stayed vm.cpu.pc (meaning Statement.return vm) low
    ∙ settled (ltb vm.cpu.sp 0xFFF) (pop_word vm).0 vm.cpu.pc _ _ refl refl
advance-next_pc Statement.stop vm low = stayed vm.cpu.pc (meaning Statement.stop vm) low
advance-next_pc (Statement.system r n) vm low =
    moved_on 1 vm.cpu.pc (meaning (Statement.system r n) vm) (system-pc r n vm) (omega (arith, low))
advance-next_pc (Statement.arithmetic o r1 r2 r3) vm low =
    ap (λ k. advance vm.cpu.pc k (meaning (Statement.arithmetic o r1 r2 r3) vm)) (arithmetic-one o)
    ∙ moved_on 1 vm.cpu.pc (meaning (Statement.arithmetic o r1 r2 r3) vm)
        (arithmetic-pc o r1 (vm.cpu.regs r2) (vm.cpu.regs r3) vm) (omega (arith, low))
advance-next_pc (Statement.arithmetic_value o r1 r2 n) vm low =
    ap (λ k. advance vm.cpu.pc k (meaning (Statement.arithmetic_value o r1 r2 n) vm))
      (arithmetic-one o)
    ∙ moved_on 1 vm.cpu.pc (meaning (Statement.arithmetic_value o r1 r2 n) vm)
        (arithmetic-pc o r1 (vm.cpu.regs r2) n vm) (omega (arith, low))
advance-next_pc (Statement.bits o r1 r2 r3) vm low =
    ap (λ k. advance vm.cpu.pc k (meaning (Statement.bits o r1 r2 r3) vm)) (bit-one o)
    ∙ moved_on 1 vm.cpu.pc (meaning (Statement.bits o r1 r2 r3) vm) refl (omega (arith, low))
advance-next_pc (Statement.move r n) vm low =
    moved_on 1 vm.cpu.pc (meaning (Statement.move r n) vm) refl (omega (arith, low))
advance-next_pc (Statement.load_from r a) vm low =
    moved_on 1 vm.cpu.pc (meaning (Statement.load_from r a) vm) refl (omega (arith, low))
advance-next_pc (Statement.store_to r a) vm low =
    moved_on 1 vm.cpu.pc (meaning (Statement.store_to r a) vm) refl (omega (arith, low))
advance-next_pc (Statement.complement r1 r2) vm low =
    moved_on 1 vm.cpu.pc (meaning (Statement.complement r1 r2) vm) refl (omega (arith, low))
advance-next_pc (Statement.compare r1 r2) vm low =
    moved_on 1 vm.cpu.pc (meaning (Statement.compare r1 r2) vm) refl (omega (arith, low))
advance-next_pc (Statement.compare_value r n) vm low =
    moved_on 1 vm.cpu.pc (meaning (Statement.compare_value r n) vm) refl (omega (arith, low))
advance-next_pc (Statement.increment r) vm low =
    moved_on 1 vm.cpu.pc (meaning (Statement.increment r) vm) refl (omega (arith, low))
advance-next_pc (Statement.decrement r) vm low =
    moved_on 1 vm.cpu.pc (meaning (Statement.decrement r) vm) refl (omega (arith, low))
advance-next_pc (Statement.push r) vm low =
    moved_on 1 vm.cpu.pc (meaning (Statement.push r) vm)
      (if_both (λ (w : Vm). w.cpu.pc ≡ vm.cpu.pc) (ltb vm.cpu.sp 0x800) refl refl)
      (omega (arith, low))
advance-next_pc (Statement.pop r) vm low =
    moved_on 1 vm.cpu.pc (meaning (Statement.pop r) vm)
      (if_both (λ (w : Vm). w.cpu.pc ≡ vm.cpu.pc) (ltb vm.cpu.sp 0xFFF) refl refl)
      (omega (arith, low))
advance-next_pc (Statement.load_at r1 r2) vm low =
    moved_on 1 vm.cpu.pc (meaning (Statement.load_at r1 r2) vm)
      (within-pc (vm.cpu.regs r2) "LOAD_INDIRECT" (load_word r1 (vm.cpu.regs r2)) vm refl)
      (omega (arith, low))
advance-next_pc (Statement.store_at r1 r2) vm low =
    moved_on 1 vm.cpu.pc (meaning (Statement.store_at r1 r2) vm)
      (within-pc (vm.cpu.regs r2) "STORE_INDIRECT" (write_word (vm.cpu.regs r2) (vm.cpu.regs r1)) vm
        refl)
      (omega (arith, low))
advance-next_pc (Statement.load_sum r1 r2 r3) vm low =
    moved_on 1 vm.cpu.pc (meaning (Statement.load_sum r1 r2 r3) vm)
      (within-pc (add32 (vm.cpu.regs r2) (vm.cpu.regs r3)) "LOAD_INDEXED"
        (load_word r1 (add32 (vm.cpu.regs r2) (vm.cpu.regs r3))) vm refl)
      (omega (arith, low))
advance-next_pc (Statement.store_sum r1 r2 r3) vm low =
    moved_on 1 vm.cpu.pc (meaning (Statement.store_sum r1 r2 r3) vm)
      (within-pc (add32 (vm.cpu.regs r2) (vm.cpu.regs r3)) "STORE_INDEXED"
        (write_word (add32 (vm.cpu.regs r2) (vm.cpu.regs r3)) (vm.cpu.regs r1)) vm refl)
      (omega (arith, low))
advance-next_pc Statement.nothing vm low = moved_on 1 vm.cpu.pc vm refl (omega (arith, low))

-- A running machine that is not in debug mode, whose program counter points at the encoding of a
-- statement that can be encoded: a step does what the statement means and leaves the program
-- counter at `next_pc`. That is the address of a taken jump, of CALL, or from the stack for RET;
-- the same place for HALT and for a CALL or RET that fails; the next word for everything else, a
-- conditional jump taken to its own address among it.
pub step-encode :
    (s : Statement) (vm : Vm) → At s vm → dez_vm_step vm ≡ set_pc (next_pc s vm) (meaning s vm)
step-encode s vm at = step-advance s vm at ∙ advance-next_pc s vm at.within
