-- ===== src/Vm/Transfer.antt =====
-- src/core/dez_instruction_table.c: the loads and the stores.
use dez.Base.{ℕ, add32}
use dez.Isa.Decode.{decode_reg1, decode_reg2, decode_reg3, decode_immediate}
use dez.Memory.{put}
use dez.Vm.State.{Vm, set_reg, read_word, write_word, validate_register, validate_memory_address}

-- `vm->cpu.regs[reg] = memory_read_word(&vm->memory, address)`
unfoldable pub load_word : ℕ → ℕ → Vm → Vm
load_word reg address vm = let (value, vm') = read_word address vm in set_reg reg value vm'

unfoldable pub execute_load : ℕ → Vm → Vm
unfolding load_word
execute_load inst =
    let reg : ℕ = decode_reg1 inst in
    let address : ℕ = decode_immediate inst in
    validate_register reg "LOAD" (validate_memory_address address "LOAD" (load_word reg address))

-- `vm->memory.memory[address] = value`, which checks no protection.
unfoldable pub poke : ℕ → ℕ → Vm → Vm
poke address value vm = record vm { memory = put vm.memory address value }

unfoldable pub execute_store : ℕ → Vm → Vm
execute_store inst =
    let reg : ℕ = decode_reg1 inst in
    let address : ℕ = decode_immediate inst in
    validate_register reg "STORE"
      (validate_memory_address address "STORE" (λ vm. poke address (vm.cpu.regs reg) vm))

unfoldable pub execute_load_indirect : ℕ → Vm → Vm
unfolding load_word
execute_load_indirect inst =
    let dest_reg : ℕ = decode_reg1 inst in
    let addr_reg : ℕ = decode_reg2 inst in
    validate_register dest_reg "LOAD_INDIRECT" (
      validate_register addr_reg "LOAD_INDIRECT" (λ vm.
        let address : ℕ = vm.cpu.regs addr_reg in
        validate_memory_address address "LOAD_INDIRECT" (load_word dest_reg address) vm))

unfoldable pub execute_store_indirect : ℕ → Vm → Vm
execute_store_indirect inst =
    let src_reg : ℕ = decode_reg1 inst in
    let addr_reg : ℕ = decode_reg2 inst in
    validate_register src_reg "STORE_INDIRECT" (
      validate_register addr_reg "STORE_INDIRECT" (λ vm.
        let address : ℕ = vm.cpu.regs addr_reg in
        validate_memory_address address "STORE_INDIRECT"
          (λ vm. write_word address (vm.cpu.regs src_reg) vm) vm))

unfoldable pub execute_load_indexed : ℕ → Vm → Vm
unfolding load_word
execute_load_indexed inst =
    let dest_reg : ℕ = decode_reg1 inst in
    let base_reg : ℕ = decode_reg2 inst in
    let index_reg : ℕ = decode_reg3 inst in
    validate_register dest_reg "LOAD_INDEXED" (
      validate_register base_reg "LOAD_INDEXED" (
        validate_register index_reg "LOAD_INDEXED" (λ vm.
          let address : ℕ = add32 (vm.cpu.regs base_reg) (vm.cpu.regs index_reg) in
          validate_memory_address address "LOAD_INDEXED" (load_word dest_reg address) vm)))

unfoldable pub execute_store_indexed : ℕ → Vm → Vm
execute_store_indexed inst =
    let src_reg : ℕ = decode_reg1 inst in
    let base_reg : ℕ = decode_reg2 inst in
    let index_reg : ℕ = decode_reg3 inst in
    validate_register src_reg "STORE_INDEXED" (
      validate_register base_reg "STORE_INDEXED" (
        validate_register index_reg "STORE_INDEXED" (λ vm.
          let address : ℕ = add32 (vm.cpu.regs base_reg) (vm.cpu.regs index_reg) in
          validate_memory_address address "STORE_INDEXED"
            (λ vm. write_word address (vm.cpu.regs src_reg) vm) vm)))
