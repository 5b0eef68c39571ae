-- ===== src/Vm/Table.antt =====
-- src/core/dez_instruction_table.c: the dispatch table.
use dez.Base.{ℕ, Bool, true, false, Option, none, some, String}
use dez.Isa.Instruction.{InstructionType, instruction_type}
use dez.Vm.State.{Vm}
use dez.Vm.Alu.{
  execute_mov, execute_add, execute_sub, execute_mul, execute_div, execute_and, execute_or,
  execute_xor, execute_not, execute_shl, execute_shr, execute_inc, execute_dec, execute_cmp,
}
use dez.Vm.Transfer.{
  execute_load, execute_store, execute_load_indirect, execute_store_indirect, execute_load_indexed,
  execute_store_indexed,
}
use dez.Vm.Flow.{
  execute_jmp, execute_jz, execute_jnz, execute_jl, execute_jg, execute_jle, execute_jge,
  execute_halt, execute_nop, execute_unknown,
}
use dez.Vm.Stack.{execute_push, execute_pop, execute_call, execute_ret}
use dez.Vm.Sys.{execute_sys}

-- `instruction_info_t`
pub record InstructionInfo : Type 0 where
  pub execute : ℕ → Vm → Vm
  pub pc_increment : ℕ
  pub needs_memory : Bool
  pub needs_validation : Bool
  pub mnemonic : String

abbrev pub info : (ℕ → Vm → Vm) → ℕ → Bool → Bool → String → InstructionInfo
info e i m v n = record {
  execute = e;
  pc_increment = i;
  needs_memory = m;
  needs_validation = v;
  mnemonic = n;
}

-- `instruction_table`; `none` is an entry whose `execute` is NULL.
unfoldable pub instruction_table : InstructionType → Option InstructionInfo
instruction_table InstructionType.mov = some (info execute_mov 1 false false "MOV")
instruction_table InstructionType.load = some (info execute_load 1 true false "LOAD")
instruction_table InstructionType.add = some (info execute_add 1 false false "ADD")
instruction_table InstructionType.store = some (info execute_store 1 true false "STORE")
instruction_table InstructionType.sub = some (info execute_sub 1 false false "SUB")
instruction_table InstructionType.mul = some (info execute_mul 1 false false "MUL")
instruction_table InstructionType.div = some (info execute_div 1 false false "DIV")
instruction_table InstructionType.jmp = some (info execute_jmp 0 false false "JMP")
instruction_table InstructionType.jz = some (info execute_jz 1 false false "JZ")
instruction_table InstructionType.jnz = some (info execute_jnz 1 false false "JNZ")
instruction_table InstructionType.jl = some (info execute_jl 1 false false "JL")
instruction_table InstructionType.jg = some (info execute_jg 1 false false "JG")
instruction_table InstructionType.jle = some (info execute_jle 1 false false "JLE")
instruction_table InstructionType.jge = some (info execute_jge 1 false false "JGE")
instruction_table InstructionType.push = some (info execute_push 1 false false "PUSH")
instruction_table InstructionType.pop = some (info execute_pop 1 false false "POP")
instruction_table InstructionType.cmp = some (info execute_cmp 1 false false "CMP")
instruction_table InstructionType.sys = some (info execute_sys 1 false false "SYS")
instruction_table InstructionType.and = some (info execute_and 1 false false "AND")
instruction_table InstructionType.or = some (info execute_or 1 false false "OR")
instruction_table InstructionType.xor = some (info execute_xor 1 false false "XOR")
instruction_table InstructionType.not = some (info execute_not 1 false false "NOT")
instruction_table InstructionType.shl = some (info execute_shl 1 false false "SHL")
instruction_table InstructionType.shr = some (info execute_shr 1 false false "SHR")
instruction_table InstructionType.inc = some (info execute_inc 1 false false "INC")
instruction_table InstructionType.dec = some (info execute_dec 1 false false "DEC")
instruction_table InstructionType.load_indirect =
    some (info execute_load_indirect 1 false false "LOAD_INDIRECT")
instruction_table InstructionType.store_indirect =
    some (info execute_store_indirect 1 false false "STORE_INDIRECT")
instruction_table InstructionType.load_indexed =
    some (info execute_load_indexed 1 false false "LOAD_INDEXED")
instruction_table InstructionType.store_indexed =
    some (info execute_store_indexed 1 false false "STORE_INDEXED")
instruction_table InstructionType.call = some (info execute_call 0 false false "CALL")
instruction_table InstructionType.ret = some (info execute_ret 0 false false "RET")
instruction_table InstructionType.halt = some (info execute_halt 0 false false "HALT")
instruction_table InstructionType.nop = some (info execute_nop 1 false false "NOP")
instruction_table InstructionType.unknown = none

unfoldable pub unknown_instruction : InstructionInfo
unknown_instruction = info execute_unknown 0 false true "UNKNOWN"

unfoldable pub or_unknown : Option InstructionInfo → InstructionInfo
unfolding unknown_instruction
or_unknown none = unknown_instruction
or_unknown (some entry) = entry

unfoldable pub get_instruction_info : ℕ → InstructionInfo
unfolding instruction_table or_unknown
get_instruction_info opcode = or_unknown (instruction_table (instruction_type opcode))
