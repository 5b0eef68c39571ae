-- ===== src/Vm/Tests.antt =====
-- Small programs on the machine, and its theorems at concrete machines.
use dez.Base.{
  ◌<◌, ℕ, zero, suc, ◌+◌, ◌-◌, ◌%◌, ◌≡◌, refl, false, some, [], ◌∷◌, ◌==◌, if◌then◌else◌, update,
  u8, add32, ◌>>◌, ◌++◌, arith,
}
use dez.Event.{too_many_steps, write_read_only}
use dez.Isa.Decode.{decode_reg1, decode_reg2, decode_immediate}
use dez.Isa.Instruction.{opcode, instruction_type}
use dez.Isa.Encode.{encode_jump, encode_single}
use dez.Isa.Statement.{Statement, Condition, ArithmeticOp, encode, jump_type}
use dez.Vm.State.{Vm, is_running, fail, set_pc, print, print_all, set_state}
use dez.Vm.Table.{get_instruction_info, instruction_table, or_unknown}
use dez.Vm.Alu.{execute_cmp}
use dez.Vm.Transfer.{execute_store, execute_store_indirect}
use dez.Vm.Flow.{execute_nop, execute_halt}
use dez.Vm.Stack.{execute_push, execute_pop, execute_call, execute_ret}
use dez.Vm.Sys.{print_str, string_limit}
use dez.Vm.Sample.{machine}
use dez.Vm.Step.{dez_vm_step, dez_vm_run, advance, dispatch, max_steps}
use dez.Vm.Valid.{IsValid}
use dez.Vm.Invariant.{step-IsValid, run-total}
use dez.Vm.Bounds.{InBounds, step-InBounds}
use dez.Vm.Protection.{CodeKept, step-CodeKept, execute_store-unprotected}
use dez.Vm.RoundTrip.{execute_pop-execute_push, execute_ret-execute_call}
use dez.Vm.Compare.{JumpsBy, second_value, jump-execute_cmp}
use dez.Vm.Run.{RunsFor, steps, run-halts, run-gives_up}
use dez.Vm.Text.{unescape, bytes_from, print_str_lem}
use dez.Vm.Meaning.{meaning, holds}
use dez.Vm.Correct.{execute-encode}
use dez.Vm.Counter.{next_pc, step-encode}
use dez.Vm.Slide.{Slides, halted_at, run-Slides}
use dez.Vm.Corner.{step-jump_self, execute-compare_r0}

-- Every word is JMP 0, and register r holds r.
abbrev spin : Vm
spin = machine (λ a. 0x08000000) (λ r. r % 16) 0

spin-IsValid : IsValid spin
spin-IsValid = record {
  regs = λ r. omega arith;
  pc = omega arith;
  sp = omega arith;
  flags = omega arith;
  memory = record { words = λ a. omega arith; code_start = refl; code_end = refl };
}

-- A jump to its own address leaves the machine as it is.
step-spin : dez_vm_step spin ≡ spin
unfolding next_pc meaning holds set_pc is_running encode encode_jump opcode jump_type
step-spin = step-encode (Statement.jump Condition.always 0) spin (record {
  encodable = omega arith;
  runs = refl;
  within = omega arith;
  word = refl;
  quiet = refl;
})

RunsFor-spin : (n : ℕ) → RunsFor n spin
unfolding is_running
RunsFor-spin zero = tt
RunsFor-spin (suc n) = (refl, rw step-spin (RunsFor-spin n))

run-gives_up_example :
    dez_vm_run spin
    ≡ some (fail (too_many_steps (max_steps spin + 1)) (steps (suc (max_steps spin)) spin))
run-gives_up_example = run-gives_up spin (RunsFor-spin (suc (max_steps spin)))

step-IsValid_example : IsValid (dez_vm_step spin)
step-IsValid_example = step-IsValid spin spin-IsValid

run-total_example :
    (end : Vm) × (dez_vm_run spin ≡ some end) × (is_running end.cpu.state ≡ false) × IsValid end
run-total_example = run-total spin spin-IsValid

step-CodeKept_example : CodeKept spin (dez_vm_step spin)
unfolding instruction_type
step-CodeKept_example = step-CodeKept spin spin-IsValid refl (λ e. ground arith)

step-InBounds_example : InBounds spin (dez_vm_step spin)
step-InBounds_example = step-InBounds spin spin-IsValid

-- PUSH R5, POP R2
execute_pop-execute_push_example :
    let after = execute_pop 0x0C200000 (execute_push 0x0B500000 spin) in
    (after.cpu ≡ record (spin.cpu) {
      regs = update spin.cpu.regs (decode_reg1 0x0C200000) (spin.cpu.regs (decode_reg1 0x0B500000));
    })
    × (after.memory.memory
        ≡ update spin.memory.memory spin.cpu.sp (spin.cpu.regs (decode_reg1 0x0B500000)))
    × (after.stdout ≡ spin.stdout)
execute_pop-execute_push_example =
    execute_pop-execute_push 0x0B500000 0x0C200000 spin spin-IsValid (omega arith)

execute_ret-execute_call_example :
    let after = execute_ret 0x11000000 (execute_call 0x0F000010 spin) in
    (after.cpu ≡ record (spin.cpu) { pc = add32 spin.cpu.pc 1 })
    × (after.memory.memory ≡ update spin.memory.memory spin.cpu.sp (add32 spin.cpu.pc 1))
    × (after.stdout ≡ spin.stdout)
execute_ret-execute_call_example =
    execute_ret-execute_call 0x0F000010 0x11000000 spin spin-IsValid (omega arith)

-- CMP R1, R2, then a jump to 0x40.
jump-execute_cmp_example :
    JumpsBy
      (spin.cpu.regs (decode_reg1 0x0E120000))
      (second_value 0x0E120000 spin)
      spin.cpu.pc
      0x09000040
      (execute_cmp 0x0E120000 spin)
jump-execute_cmp_example = jump-execute_cmp 0x0E120000 0x09000040 spin

print_str_lem_example :
    print_str spin.memory 0x1F0 ≡ unescape (bytes_from (string_limit - 0x1F0) spin.memory 0x1F0)
print_str_lem_example = print_str_lem spin.memory 0x1F0

-- JZ to its own address, the flags saying "zero".
abbrev self_jump : Vm
self_jump = machine (λ a. 0x09000005) (λ r. r % 16) 5

self_jump-IsValid : IsValid self_jump
self_jump-IsValid = record {
  regs = λ r. omega arith;
  pc = omega arith;
  sp = omega arith;
  flags = omega arith;
  memory = record { words = λ a. omega arith; code_start = refl; code_end = refl };
}

step-jump_self_example :
    ((meaning (Statement.jump Condition.if_zero 5) self_jump).cpu.pc ≡ 5)
    × ((dez_vm_step self_jump).cpu.pc ≡ 6)
unfolding holds is_running encode encode_jump opcode jump_type
step-jump_self_example =
    step-jump_self Condition.if_zero self_jump (λ e. ground arith) refl
      (record {
        encodable = omega arith;
        runs = refl;
        within = omega arith;
        word = refl;
        quiet = refl;
      })

step-encode_example :
    dez_vm_step self_jump
    ≡ set_pc
        (next_pc (Statement.jump Condition.if_zero 5) self_jump)
        (meaning (Statement.jump Condition.if_zero 5) self_jump)
unfolding is_running encode encode_jump opcode jump_type
step-encode_example = step-encode (Statement.jump Condition.if_zero 5) self_jump (record {
  encodable = omega arith;
  runs = refl;
  within = omega arith;
  word = refl;
  quiet = refl;
})

-- R1 and R0 both hold 7.
abbrev sevens : Vm
sevens = machine (λ a. 0) (λ r. 7) 0

execute-compare_r0_example :
    let word : ℕ = encode (Statement.compare 1 0) in
    (((get_instruction_info (u8 (word >> 24))).execute word sevens).cpu.flags ≡ 4)
    × ((meaning (Statement.compare 1 0) sevens).cpu.flags ≡ 9)
execute-compare_r0_example = execute-compare_r0 1 sevens (omega arith) refl (λ e. omega arith)

-- SUB R1, R2, R3
execute-encode_example :
    let s : Statement = Statement.arithmetic ArithmeticOp.minus 1 2 3 in
    (get_instruction_info (u8 (encode s >> 24))).execute (encode s) spin ≡ meaning s spin
execute-encode_example =
    execute-encode (Statement.arithmetic ArithmeticOp.minus 1 2 3) spin
      (omega arith, omega arith, omega arith)

-- STORE R0, 7 and STORE_INDIRECT R1, [R7].
execute_store-unprotected_example :
    ((execute_store 0x03000007 spin).memory.memory (decode_immediate 0x03000007)
      ≡ spin.cpu.regs (decode_reg1 0x03000007))
    × ((execute_store_indirect 0x20170000 spin).memory.memory ≡ spin.memory.memory)
    × ((execute_store_indirect 0x20170000 spin).stdout
        ≡ spin.stdout ++ write_read_only (decode_immediate 0x03000007) ∷ [])
    × ((execute_store_indirect 0x20170000 spin).cpu ≡ spin.cpu)
unfolding decode_reg2 decode_immediate
execute_store-unprotected_example =
    execute_store-unprotected 0x03000007 0x20170000 spin spin-IsValid refl (omega arith) refl

-- NOP, then HALT.
abbrev short : Vm
short = machine (λ a. if a == 0 then 0x12000000 else 0) (λ r. r % 16) 0

run-halts_example : dez_vm_run short ≡ some (steps 2 short)
unfolding max_steps is_running steps dez_vm_step dispatch advance get_instruction_info
    instruction_type execute_nop execute_halt instruction_table or_unknown print print_all set_state
    set_pc
run-halts_example = run-halts 2 short (omega arith) (refl, (refl, tt)) refl

-- `short` from its NOP on.
short-Slides : Slides 1 short
unfolding is_running encode encode_single opcode
short-Slides = record {
  runs = refl;
  quiet = refl;
  within = omega arith;
  nothings = λ i low.
      elim i as (λ j. j < 1 → short.memory.memory (0 + j) ≡ encode Statement.nothing) [
        | zero ↦ λ h. refl
        | suc j ↦ λ h. absurd (omega arith)
      ]
        low;
  stop = refl;
}

run-Slides_example : dez_vm_run short ≡ some (halted_at (0 + 1) short)
run-Slides_example = run-Slides 1 short short-Slides
