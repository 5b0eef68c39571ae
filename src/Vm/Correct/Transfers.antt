-- ===== src/Vm/Correct/Transfers.antt =====
-- The memory, stack and system instructions, on a word with known fields.
use dez.Base.{ℕ, ◌≡◌, add32, arith}
use dez.Isa.Fields.{decode_reg1-lt, decode_reg2-lt, decode_reg3-lt, decode_immediate-lt}
use dez.Isa.RoundTrip.{Decodes}
use dez.Vm.State.{
  Vm, set_reg, set_pc, write_word, validate_register, validate_memory_address,
  validate_stack_overflow, validate_stack_underflow,
}
use dez.Vm.Transfer.{
  load_word, poke, execute_load, execute_store, execute_load_indirect, execute_store_indirect,
  execute_load_indexed, execute_store_indexed,
}
use dez.Vm.Stack.{push_word, pop_word, execute_push, execute_pop, execute_call, execute_ret}
use dez.Vm.Sys.{execute_sys}
use dez.Vm.Meaning.{system_meaning, within, with_room, with_item}

module _ (op r1 r2 r3 low inst : ℕ) (d : Decodes op r1 r2 r3 low inst) (vm : Vm) where
  pub load_lem : execute_load inst vm ≡ load_word r1 low vm
  unfolding execute_load validate_register validate_memory_address
  load_lem = ground (arith, decode_reg1-lt inst, decode_immediate-lt inst)

  pub store_lem : execute_store inst vm ≡ poke low (vm.cpu.regs r1) vm
  unfolding execute_store validate_register validate_memory_address
  store_lem = ground (arith, decode_reg1-lt inst, decode_immediate-lt inst)

  pub load_indirect_lem :
      execute_load_indirect inst vm
      ≡ within (vm.cpu.regs r2) "LOAD_INDIRECT" (load_word r1 (vm.cpu.regs r2)) vm
  unfolding execute_load_indirect validate_register validate_memory_address within
  load_indirect_lem = ground (arith, decode_reg1-lt inst, decode_reg2-lt inst)

  pub store_indirect_lem :
      execute_store_indirect inst vm
      ≡ within (vm.cpu.regs r2) "STORE_INDIRECT" (write_word (vm.cpu.regs r2) (vm.cpu.regs r1)) vm
  unfolding execute_store_indirect validate_register validate_memory_address within
  store_indirect_lem = ground (arith, decode_reg1-lt inst, decode_reg2-lt inst)

  pub load_indexed_lem : execute_load_indexed inst vm ≡ (
      let a : ℕ = add32 (vm.cpu.regs r2) (vm.cpu.regs r3) in
      within a "LOAD_INDEXED" (load_word r1 a) vm)
  unfolding execute_load_indexed validate_register validate_memory_address within
  load_indexed_lem = ground (arith, decode_reg1-lt inst, decode_reg2-lt inst, decode_reg3-lt inst)

  pub store_indexed_lem : execute_store_indexed inst vm ≡ (
      let a : ℕ = add32 (vm.cpu.regs r2) (vm.cpu.regs r3) in
      within a "STORE_INDEXED" (write_word a (vm.cpu.regs r1)) vm)
  unfolding execute_store_indexed validate_register validate_memory_address within
  store_indexed_lem = ground (arith, decode_reg1-lt inst, decode_reg2-lt inst, decode_reg3-lt inst)

  pub push_lem : execute_push inst vm ≡ with_room "PUSH" (push_word (vm.cpu.regs r1)) vm
  unfolding execute_push validate_register validate_stack_overflow with_room
  push_lem = ground (arith, decode_reg1-lt inst)

  pub pop_lem :
      execute_pop inst vm ≡ with_item "POP" (λ vm. set_reg r1 (pop_word vm).0 (pop_word vm).1) vm
  unfolding execute_pop validate_register validate_stack_underflow with_item
  pop_lem = ground (arith, decode_reg1-lt inst)

  pub call_lem :
      execute_call inst vm
      ≡ with_room "CALL" (λ vm. set_pc low (push_word (add32 vm.cpu.pc 1) vm)) vm
  unfolding execute_call validate_memory_address validate_stack_overflow with_room
  call_lem = ground (arith, decode_immediate-lt inst)

  pub ret_lem :
      execute_ret inst vm ≡ with_item "RET" (λ vm. set_pc (pop_word vm).0 (pop_word vm).1) vm
  unfolding execute_ret validate_stack_underflow with_item
  ret_lem = ground arith

  pub sys_lem : execute_sys inst vm ≡ system_meaning r1 low vm
  unfolding execute_sys validate_register system_meaning
  sys_lem = ground (arith, decode_reg1-lt inst)
