-- ===== src/Vm/Keeps/Run.antt =====
-- What each instruction keeps, a step keeps, and so do the run function and any number of steps.
use dez.Base.{
  ℕ, zero, suc, ◌+◌, ◌<◌, ◌≤◌, ◌≡◌, refl, false, some, IsWord, ltb, leb, ◌==◌, if_both, Bool-cases,
  inl, inr, arith, u8, ◌>>◌, u32-IsWord,
}
use dez.Base.Bits.{bit_or-bound, bit_xor-bound}
use dez.Isa.Instruction.{InstructionType, instruction_type}
use dez.Event.{Event, too_many_steps}
use dez.Memory.{memory_size_words}
use dez.Vm.State.{Vm, is_running, fail}
use dez.Vm.Table.{InstructionInfo, instruction_table, or_unknown, get_instruction_info}
use dez.Vm.Alu.{
  execute_add, execute_sub, execute_mul, execute_and, execute_or, execute_xor, execute_shl,
  execute_shr,
}
use dez.Vm.Flow.{execute_jl, execute_jg, execute_jle, execute_jge, execute_nop}
use dez.Vm.Transfer.{poke}
use dez.Vm.Step.{advance, dispatch, dez_vm_step, run_loop}
use dez.Vm.Keeps.Primitive.{Keeps, print-keeps, fail-keeps}
use dez.Vm.Keeps.Registers.{
  bit_and-IsWord, shift_left-WordOp, shift_right-WordOp, execute_mov-keeps, arithmetic-keeps,
  execute_div-keeps, three_registers-keeps, execute_not-keeps, execute_inc-keeps, execute_dec-keeps,
  execute_cmp-keeps,
}
use dez.Vm.Keeps.Transfers.{
  execute_load-keeps, execute_store-keeps, execute_load_indirect-keeps,
  execute_store_indirect-keeps, execute_load_indexed-keeps, execute_store_indexed-keeps,
  execute_push-keeps, execute_pop-keeps, execute_call-keeps, execute_ret-keeps, execute_jmp-keeps,
  execute_jz-keeps, execute_jnz-keeps, jump_on_flags-keeps, execute_halt-keeps,
  execute_unknown-keeps, execute_sys-keeps,
}

-- The instruction that a type dispatches to.
abbrev pub entry : InstructionType → InstructionInfo
entry t = or_unknown (instruction_table t)

module _ {P : Vm → Type 0} (keeps : Keeps P) where
  pub entry-keeps :
      (t : InstructionType) (inst : ℕ) (vm : Vm)
      → (t ≡ InstructionType.store
          → (a n : ℕ) → a < memory_size_words
          → IsWord n
          → P vm
          → P (poke a n vm))
      → P vm
      → P ((entry t).execute inst vm)
  unfolding or_unknown instruction_table execute_add execute_sub execute_mul execute_and execute_or
      execute_xor execute_shl execute_shr execute_jl execute_jg execute_jle execute_jge execute_nop
  entry-keeps InstructionType.mov inst vm poked = execute_mov-keeps keeps inst vm
  entry-keeps InstructionType.add inst vm poked =
      arithmetic-keeps keeps _ _ inst vm (λ a b. u32-IsWord _)
  entry-keeps InstructionType.sub inst vm poked =
      arithmetic-keeps keeps _ _ inst vm (λ a b. u32-IsWord _)
  entry-keeps InstructionType.mul inst vm poked =
      arithmetic-keeps keeps _ _ inst vm (λ a b. u32-IsWord _)
  entry-keeps InstructionType.div inst vm poked = execute_div-keeps keeps inst vm
  entry-keeps InstructionType.load inst vm poked = execute_load-keeps keeps inst vm
  entry-keeps InstructionType.store inst vm poked = execute_store-keeps keeps inst vm (poked refl)
  entry-keeps InstructionType.jmp inst vm poked = execute_jmp-keeps keeps inst vm
  entry-keeps InstructionType.jz inst vm poked = execute_jz-keeps keeps inst vm
  entry-keeps InstructionType.jnz inst vm poked = execute_jnz-keeps keeps inst vm
  entry-keeps InstructionType.jl inst vm poked = jump_on_flags-keeps keeps _ _ inst vm
  entry-keeps InstructionType.jg inst vm poked = jump_on_flags-keeps keeps _ _ inst vm
  entry-keeps InstructionType.jle inst vm poked = jump_on_flags-keeps keeps _ _ inst vm
  entry-keeps InstructionType.jge inst vm poked = jump_on_flags-keeps keeps _ _ inst vm
  entry-keeps InstructionType.push inst vm poked = execute_push-keeps keeps inst vm
  entry-keeps InstructionType.pop inst vm poked = execute_pop-keeps keeps inst vm
  entry-keeps InstructionType.sys inst vm poked = execute_sys-keeps keeps inst vm
  entry-keeps InstructionType.cmp inst vm poked = execute_cmp-keeps keeps inst vm
  entry-keeps InstructionType.call inst vm poked = execute_call-keeps keeps inst vm
  entry-keeps InstructionType.ret inst vm poked = execute_ret-keeps keeps inst vm
  entry-keeps InstructionType.and inst vm poked =
      three_registers-keeps keeps _ _ inst vm (λ _. bit_and-IsWord)
  entry-keeps InstructionType.or inst vm poked =
      three_registers-keeps keeps _ _ inst vm (λ _ a b ha hb. bit_or-bound 32 a b ha hb)
  entry-keeps InstructionType.xor inst vm poked =
      three_registers-keeps keeps _ _ inst vm (λ _ a b ha hb. bit_xor-bound 32 a b ha hb)
  entry-keeps InstructionType.not inst vm poked = execute_not-keeps keeps inst vm
  entry-keeps InstructionType.shl inst vm poked =
      three_registers-keeps keeps _ _ inst vm shift_left-WordOp
  entry-keeps InstructionType.shr inst vm poked =
      three_registers-keeps keeps _ _ inst vm shift_right-WordOp
  entry-keeps InstructionType.inc inst vm poked = execute_inc-keeps keeps inst vm
  entry-keeps InstructionType.dec inst vm poked = execute_dec-keeps keeps inst vm
  entry-keeps InstructionType.load_indirect inst vm poked =
      execute_load_indirect-keeps keeps inst vm
  entry-keeps InstructionType.store_indirect inst vm poked =
      execute_store_indirect-keeps keeps inst vm
  entry-keeps InstructionType.load_indexed inst vm poked = execute_load_indexed-keeps keeps inst vm
  entry-keeps InstructionType.store_indexed inst vm poked =
      execute_store_indexed-keeps keeps inst vm
  entry-keeps InstructionType.halt inst vm poked = execute_halt-keeps keeps inst vm
  entry-keeps InstructionType.nop inst vm poked = λ p. p
  entry-keeps InstructionType.unknown inst vm poked = execute_unknown-keeps keeps inst vm

  advance-keeps : (old_pc inc : ℕ) (vm : Vm) → P vm → P (advance old_pc inc vm)
  unfolding advance
  advance-keeps old_pc inc vm p =
      if_both P (vm.cpu.pc == old_pc) (keeps.by_set_pc _ (u32-IsWord _) p) p

-- The type of the instruction that the program counter points at.
abbrev pub current_type : Vm → InstructionType
current_type vm = instruction_type (u8 (vm.memory.memory vm.cpu.pc >> 24))

fail-stops : (e : Event) (vm : Vm) → is_running (fail e vm).cpu.state ≡ false
unfolding fail is_running
fail-stops e vm = refl

module _ {P : Vm → Type 0} (keeps : Keeps P) where
  pub step-keeps :
      (vm : Vm)
      → (current_type vm ≡ InstructionType.store
          → (w : Vm) (a n : ℕ) → a < memory_size_words
          → IsWord n
          → P w
          → P (poke a n w))
      → P vm
      → P (dez_vm_step vm)
  unfolding dez_vm_step dispatch get_instruction_info
  step-keeps vm poked p =
      if_both P (is_running vm.cpu.state)
        (if_both P (leb memory_size_words vm.cpu.pc) (fail-keeps keeps _ p) (
          advance-keeps keeps _ _ _ (
            entry-keeps keeps (current_type vm) _ _ (λ is_store. poked is_store _)
              (if_both P vm.debug_mode (print-keeps keeps _ p) p))))
        p

  -- With fuel beyond the limit the loop returns, in a state that is not running, and what every step
  -- keeps holds there.
  pub run_loop-keeps :
      (fuel limit count : ℕ) (vm : Vm)
      → limit + 2 ≤ fuel + count
      → count ≤ limit
      → ((w : Vm) → P w → P (dez_vm_step w))
      → P vm
      → (end : Vm) × (run_loop fuel limit count vm ≡ some end)
        × (is_running end.cpu.state ≡ false)
        × P end
  unfolding run_loop
  run_loop-keeps zero limit count vm enough within step p = absurd (omega arith)
  run_loop-keeps (suc fuel) limit count vm enough within step p =
      elim (Bool-cases (is_running vm.cpu.state)) [
        | inr stopped ↦ (vm, rw stopped, stopped, p)
        | inl goes_on ↦ elim (Bool-cases (ltb limit (count + 1))) [
          | inl over ↦ (
            fail (too_many_steps (count + 1)) (dez_vm_step vm),
            rw (goes_on, over),
            fail-stops _ _,
            fail-keeps keeps _ (step vm p),
          )
          | inr more ↦
              rw (goes_on, more)
                (run_loop-keeps fuel limit (count + 1) (dez_vm_step vm) (omega arith) (ground arith)
                  step (step vm p))
        ]
      ]
