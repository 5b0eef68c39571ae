-- ===== src/Vm/Corner.antt =====
-- Two places where the machine does not do what the assembly statement says: a taken conditional
-- jump to itself, and a comparison with register R0.
use dez.Base.{ℕ, ◌+◌, ◌<◌, ◌≡◌, ◌≢◌, refl, sym, ◌∙◌, true, u8, ◌>>◌, arith}
use dez.Isa.RoundTrip.{four_fields, with_immediate}
use dez.Isa.Encode.{encode_arithmetic, encode_jump}
use dez.Isa.Instruction.{InstructionType, opcode}
use dez.Isa.Statement.{Statement, Condition, encode}
use dez.Vm.State.{Vm, set_pc, set_flags}
use dez.Vm.Table.{get_instruction_info}
use dez.Vm.Step.{advance, dez_vm_step}
use dez.Vm.Meaning.{meaning, holds, outcome}
use dez.Vm.Correct.{execute-encode}
use dez.Vm.Fetch.{At, step-advance, type_of, increment}

moves_on :
    (c : Condition) (a : ℕ) → c ≢ Condition.always → increment (type_of (Statement.jump c a)) ≡ 1
unfolding increment type_of
moves_on Condition.always a h = absurd (h refl)
moves_on Condition.if_zero a h = refl
moves_on _ a h = refl

-- A conditional jump to its own address whose condition holds does not stay there: the step takes the
-- unchanged program counter for a jump not taken, and moves on to the next word.
pub step-jump_self :
    (c : Condition) (vm : Vm)
    → c ≢ Condition.always
    → holds c vm.cpu.flags ≡ true
    → At (Statement.jump c vm.cpu.pc) vm
    → ((meaning (Statement.jump c vm.cpu.pc) vm).cpu.pc ≡ vm.cpu.pc)
      × ((dez_vm_step vm).cpu.pc ≡ vm.cpu.pc + 1)
unfolding meaning advance set_pc
step-jump_self c vm conditional taken at = (
  ground arith,
  ground (
    arith,
    step-advance (Statement.jump c vm.cpu.pc) vm at,
    moves_on c vm.cpu.pc conditional,
    at.within,
  ),
)

-- The encoding of a comparison with register R0 is that of a comparison with the number 0.
pub same_word :
    (r : ℕ) → r < 16 → encode (Statement.compare r 0) ≡ encode (Statement.compare_value r 0)
unfolding encode encode_arithmetic encode_jump
same_word r h =
    four_fields (opcode InstructionType.cmp) r 0 0 h (omega arith) (omega arith)
    ∙ sym (with_immediate (opcode InstructionType.cmp) r 0 h)

-- Whatever R0 holds, CMP of a register with R0 compares it with 0: when the two registers hold the
-- same value, not 0, the machine finds the first greater, not equal.
pub execute-compare_r0 :
    (r : ℕ) (vm : Vm)
    → r < 16
    → vm.cpu.regs r ≡ vm.cpu.regs 0
    → vm.cpu.regs r ≢ 0
    → let word : ℕ = encode (Statement.compare r 0) in
      (((get_instruction_info (u8 (word >> 24))).execute word vm).cpu.flags ≡ 4)
      × ((meaning (Statement.compare r 0) vm).cpu.flags ≡ 9)
unfolding meaning outcome set_flags
execute-compare_r0 r vm h same nonzero = (
  ground (arith, same_word r h, execute-encode (Statement.compare_value r 0) vm (h, omega arith)),
  ground arith,
)
