-- ===== src/Isa/Instruction.antt =====
-- include/dez_vm_types.h: `dez_instruction_type_t` with its opcode values, the system calls and the
-- CPU flags.
use dez.Base.{ℕ, ◌==◌, if◌then◌else◌}

pub data InstructionType : Type 0 where
  mov add sub mul div load store jmp jz jnz jl jg jle jge push pop sys cmp call ret :
      InstructionType
  and or xor not shl shr inc dec : InstructionType
  load_indirect store_indirect load_indexed store_indexed halt nop unknown : InstructionType

unfoldable pub opcode : InstructionType → ℕ
opcode mov = 0x10
opcode add = 0x04
opcode sub = 0x05
opcode mul = 0x06
opcode div = 0x07
opcode load = 0x01
opcode store = 0x03
opcode jmp = 0x08
opcode jz = 0x09
opcode jnz = 0x0A
opcode jl = 0x19
opcode jg = 0x1A
opcode jle = 0x1B
opcode jge = 0x1C
opcode push = 0x0B
opcode pop = 0x0C
opcode sys = 0x0D
opcode cmp = 0x0E
opcode call = 0x0F
opcode ret = 0x11
opcode and = 0x13
opcode or = 0x14
opcode xor = 0x15
opcode not = 0x16
opcode shl = 0x17
opcode shr = 0x18
opcode inc = 0x1D
opcode dec = 0x1E
opcode load_indirect = 0x1F
opcode store_indirect = 0x20
opcode load_indexed = 0x21
opcode store_indexed = 0x22
opcode halt = 0x00
opcode nop = 0x12
opcode unknown = 0xFF

-- The type that an opcode byte stands for, as the tables of the program are indexed: `unknown` for
-- a byte that is no enumerator.
unfoldable pub instruction_type : ℕ → InstructionType
instruction_type n =
    if n == 0x10
    then mov
    else if n == 0x04
    then add
    else if n == 0x05
    then sub
    else if n == 0x06
    then mul
    else if n == 0x07
    then div
    else if n == 0x01
    then load
    else if n == 0x03
    then store
    else if n == 0x08
    then jmp
    else if n == 0x09
    then jz
    else if n == 0x0A
    then jnz
    else if n == 0x19
    then jl
    else if n == 0x1A
    then jg
    else if n == 0x1B
    then jle
    else if n == 0x1C
    then jge
    else if n == 0x0B
    then push
    else if n == 0x0C
    then pop
    else if n == 0x0D
    then sys
    else if n == 0x0E
    then cmp
    else if n == 0x0F
    then call
    else if n == 0x11
    then ret
    else if n == 0x13
    then and
    else if n == 0x14
    then or
    else if n == 0x15
    then xor
    else if n == 0x16
    then not
    else if n == 0x17
    then shl
    else if n == 0x18
    then shr
    else if n == 0x1D
    then inc
    else if n == 0x1E
    then dec
    else if n == 0x1F
    then load_indirect
    else if n == 0x20
    then store_indirect
    else if n == 0x21
    then load_indexed
    else if n == 0x22
    then store_indexed
    else if n == 0x00
    then halt
    else if n == 0x12
    then nop
    else unknown

-- `dez_syscall_t`
abbrev pub sys_print : ℕ
sys_print = 1

abbrev pub sys_print_str : ℕ
sys_print_str = 2

abbrev pub sys_print_char : ℕ
sys_print_char = 3

abbrev pub sys_exit : ℕ
sys_exit = 6

-- `dez_cpu_flags_t`
abbrev pub flag_zero : ℕ
flag_zero = 0x01

abbrev pub flag_less : ℕ
flag_less = 0x02

abbrev pub flag_greater : ℕ
flag_greater = 0x04

abbrev pub flag_equal : ℕ
flag_equal = 0x08
