-- ===== src/Vm/RoundTrip.antt =====
-- The stack: POP undoes PUSH, RET undoes CALL, and both ends are guarded.
use dez.Base.{
  ℕ, ◌<◌, ◌≤◌, ◌≡◌, refl, true, [], update, add32, sub32, lt→leb, le→ltb, arith, ap, ◌∙◌,
}
use mathlib.Core.List.{append-nil}
use dez.Isa.Decode.{decode_reg1, decode_immediate}
use dez.Isa.Fields.{decode_reg1-lt, decode_immediate-lt}
use dez.Memory.{Memory, memory_is_code_segment, memory_read_word, memory_write_word}
use dez.Memory.Access.{
  is_protected, can_store, memory_read_word_lem, memory_write_word_lem,
  memory_read_word-memory_write_word,
}
use dez.Vm.State.{
  Vm, set_reg, set_pc, set_sp, read_word, write_word, validate_register, validate_memory_address,
  validate_stack_overflow, validate_stack_underflow,
}
use dez.Vm.Stack.{push_word, pop_word, execute_push, execute_pop, execute_call, execute_ret}
use dez.Vm.Valid.{IsValid}

-- A valid machine with room has its stack pointer on a word that can be written.
stack_writable : (vm : Vm) → IsValid vm → 0x800 ≤ vm.cpu.sp → can_store vm.memory vm.cpu.sp ≡ true
unfolding is_protected memory_is_code_segment
stack_writable vm v room = ground (arith, v.sp, v.memory.code_start, v.memory.code_end)

write_word-silent : (m : Memory) (a n : ℕ) → can_store m a ≡ true → (memory_write_word m a n).2 ≡ []
unfolding memory_write_word is_protected
write_word-silent m a n h = ground arith

read_word-silent : (m : Memory) (a : ℕ) → a < 4096 → (memory_read_word m a).2 ≡ []
unfolding memory_read_word
read_word-silent m a h = ground arith

push-pop_value :
    (m : Memory) (a n : ℕ)
    → can_store m a ≡ true
    → (memory_read_word (memory_write_word m a n).1 a).0 ≡ n
push-pop_value m a n h = ground (arith, memory_read_word-memory_write_word m a a n)

-- `sp--` and `sp++` cancel.
there_and_back : (sp : ℕ) → 0x800 ≤ sp → sp ≤ 0xFFF → add32 (sub32 sp 1) 1 ≡ sp
there_and_back sp low high = omega arith

-- On a valid machine with room on the stack, popping what was pushed brings back the value and the
-- stack pointer, writes just the word under the old stack pointer, and prints nothing.
pub pop_word-push_word :
    (n : ℕ) (vm : Vm)
    → IsValid vm
    → 0x800 ≤ vm.cpu.sp
    → let (value, after) = pop_word (push_word n vm) in
      (value ≡ n)
      × (after.cpu ≡ vm.cpu)
      × (after.memory.memory ≡ update vm.memory.memory vm.cpu.sp n)
      × (after.stdout ≡ vm.stdout)
unfolding pop_word push_word write_word read_word set_sp
pop_word-push_word n vm v room =
    let sp : ℕ = vm.cpu.sp in
    let pushed : Memory = (memory_write_word vm.memory sp n).1 in
    let same : add32 (sub32 sp 1) 1 ≡ sp = there_and_back sp room (omega arith) in
    let stored : can_store vm.memory sp ≡ true = stack_writable vm v room in
    (
      rw same (push-pop_value vm.memory sp n stored),
      ap (λ (p : ℕ). record (vm.cpu) { sp = p }) same,
      rw same (
          ground
            (arith, memory_read_word_lem pushed sp, memory_write_word_lem vm.memory sp n, stored)),
      rw (same, write_word-silent vm.memory sp n stored, read_word-silent pushed sp (omega arith))
          (append-nil _ ∙ append-nil _),
    )

sp-push_word : (n : ℕ) (vm : Vm) → (push_word n vm).cpu.sp ≡ sub32 vm.cpu.sp 1
unfolding push_word write_word set_sp
sp-push_word n vm = refl

-- The guards pass where there is room, and where something is on the stack.
execute_push-room :
    (inst : ℕ) (vm : Vm)
    → 0x800 ≤ vm.cpu.sp
    → execute_push inst vm ≡ push_word (vm.cpu.regs (decode_reg1 inst)) vm
unfolding execute_push validate_register validate_stack_overflow
execute_push-room inst vm room =
    rw (le→ltb 15 (decode_reg1 inst) (omega (arith, decode_reg1-lt inst)), le→ltb _ _ room)

execute_pop-filled :
    (inst : ℕ) (vm : Vm)
    → vm.cpu.sp < 0xFFF
    → execute_pop inst vm ≡ set_reg (decode_reg1 inst) (pop_word vm).0 (pop_word vm).1
unfolding execute_pop validate_register validate_stack_underflow
execute_pop-filled inst vm filled =
    rw (le→ltb 15 (decode_reg1 inst) (omega (arith, decode_reg1-lt inst)), lt→leb _ _ filled)

execute_call-room :
    (inst : ℕ) (vm : Vm)
    → 0x800 ≤ vm.cpu.sp
    → execute_call inst vm ≡ set_pc (decode_immediate inst) (push_word (add32 vm.cpu.pc 1) vm)
unfolding execute_call validate_memory_address validate_stack_overflow
execute_call-room inst vm room =
    rw (lt→leb 4096 (decode_immediate inst) (decode_immediate-lt inst), le→ltb _ _ room)

execute_ret-filled :
    (inst : ℕ) (vm : Vm)
    → vm.cpu.sp < 0xFFF
    → execute_ret inst vm ≡ set_pc (pop_word vm).0 (pop_word vm).1
unfolding execute_ret validate_stack_underflow
execute_ret-filled inst vm filled = rw (lt→leb _ _ filled)

pop_word-set_pc :
    (pc : ℕ) (vm : Vm)
    → ((pop_word (set_pc pc vm)).0 ≡ (pop_word vm).0)
      × ((pop_word (set_pc pc vm)).1 ≡ set_pc pc (pop_word vm).1)
unfolding pop_word set_pc set_sp read_word
pop_word-set_pc pc vm = (refl, refl)

-- POP into any register after PUSH of any register: the value of the pushed register arrives, the
-- stack pointer is back, and nothing else of the processor has changed.
pub execute_pop-execute_push :
    (inst inst' : ℕ) (vm : Vm)
    → IsValid vm
    → 0x800 ≤ vm.cpu.sp
    → let after = execute_pop inst' (execute_push inst vm) in
      (after.cpu ≡ record (vm.cpu) {
        regs = update vm.cpu.regs (decode_reg1 inst') (vm.cpu.regs (decode_reg1 inst));
      })
      × (after.memory.memory ≡ update vm.memory.memory vm.cpu.sp (vm.cpu.regs (decode_reg1 inst)))
      × (after.stdout ≡ vm.stdout)
unfolding set_reg
execute_pop-execute_push inst inst' vm v room =
    let n : ℕ = vm.cpu.regs (decode_reg1 inst) in
    let filled : (push_word n vm).cpu.sp < 0xFFF = omega (arith, v.sp, sp-push_word n vm) in
    rw (execute_push-room inst vm room, execute_pop-filled inst' (push_word n vm) filled)
      (ground (arith, pop_word-push_word n vm v room))

-- RET after CALL comes back to the instruction behind the CALL, with the stack pointer and the
-- registers as they were; the word under the old stack pointer holds the return address.
pub execute_ret-execute_call :
    (inst inst' : ℕ) (vm : Vm)
    → IsValid vm
    → 0x800 ≤ vm.cpu.sp
    → let after = execute_ret inst' (execute_call inst vm) in
      (after.cpu ≡ record (vm.cpu) { pc = add32 vm.cpu.pc 1 })
      × (after.memory.memory ≡ update vm.memory.memory vm.cpu.sp (add32 vm.cpu.pc 1))
      × (after.stdout ≡ vm.stdout)
unfolding set_pc
execute_ret-execute_call inst inst' vm v room =
    let n : ℕ = add32 vm.cpu.pc 1 in
    let called : Vm = set_pc (decode_immediate inst) (push_word n vm) in
    let filled : called.cpu.sp < 0xFFF = omega (arith, v.sp, sp-push_word n vm) in
    rw (execute_call-room inst vm room, execute_ret-filled inst' called filled)
      (ground (
        arith,
        pop_word-set_pc (decode_immediate inst) (push_word n vm),
        pop_word-push_word n vm v room,
      ))
