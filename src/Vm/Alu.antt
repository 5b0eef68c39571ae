-- ===== src/Vm/Alu.antt =====
-- src/core/dez_instruction_table.c: MOV, the arithmetic and the bitwise instructions, INC, DEC, CMP.
use dez.Base.{
  ℕ, ◌/◌, Bool, not, ltb, ◌==◌, if◌then◌else◌, String, bit_and, bit_or, bit_xor, add32, sub32,
  mul32, not32, u32, ◌<<◌, ◌>>◌,
}
use dez.Event.{division_by_zero}
use dez.Isa.Instruction.{flag_zero, flag_less, flag_greater, flag_equal}
use dez.Isa.Decode.{
  decode_reg1, decode_reg2, decode_reg3, decode_immediate, decode_ext_immediate, is_immediate_mode,
}
use dez.Vm.State.{Vm, fail, set_reg, set_flags, validate_register}

unfoldable pub execute_mov : ℕ → Vm → Vm
execute_mov inst =
    let reg : ℕ = decode_reg1 inst in
    validate_register reg "MOV" λ vm. set_reg reg (decode_immediate inst) vm

-- The shape that `execute_add`, `execute_sub` and `execute_mul` share: the operation on the second
-- register and the immediate, or on two registers.
unfoldable pub arithmetic : String → (ℕ → ℕ → ℕ) → ℕ → Vm → Vm
arithmetic name op inst =
    let reg1 : ℕ = decode_reg1 inst in
    let reg2 : ℕ = decode_reg2 inst in
    let reg3 : ℕ = decode_reg3 inst in
    let immediate : ℕ = decode_ext_immediate inst in
    let immediate_mode : Bool = is_immediate_mode inst in
    validate_register reg1 name (
      validate_register reg2 name (λ vm.
        if immediate_mode
        then set_reg reg1 (op (vm.cpu.regs reg2) immediate) vm
        else validate_register reg3 name
            (λ vm. set_reg reg1 (op (vm.cpu.regs reg2) (vm.cpu.regs reg3)) vm) vm))

unfoldable pub execute_add : ℕ → Vm → Vm
execute_add = arithmetic "ADD" add32

unfoldable pub execute_sub : ℕ → Vm → Vm
execute_sub = arithmetic "SUB" sub32

unfoldable pub execute_mul : ℕ → Vm → Vm
execute_mul = arithmetic "MUL" mul32

unfoldable pub divide : ℕ → ℕ → ℕ → Vm → Vm
divide reg1 reg2 divisor vm =
    if divisor == 0 then fail division_by_zero vm else set_reg reg1 (vm.cpu.regs reg2 / divisor) vm

unfoldable pub execute_div : ℕ → Vm → Vm
unfolding divide
execute_div inst =
    let reg1 : ℕ = decode_reg1 inst in
    let reg2 : ℕ = decode_reg2 inst in
    let reg3 : ℕ = decode_reg3 inst in
    let immediate : ℕ = decode_ext_immediate inst in
    let immediate_mode : Bool = is_immediate_mode inst in
    validate_register reg1 "DIV" (
      validate_register reg2 "DIV" (λ vm.
        if immediate_mode
        then divide reg1 reg2 immediate vm
        else validate_register reg3 "DIV" (λ vm. divide reg1 reg2 (vm.cpu.regs reg3) vm) vm))

-- The shape of `execute_and`, `execute_or` and `execute_xor`, and of the shifts, whose operation
-- depends on the machine.
unfoldable pub three_registers : String → (Vm → ℕ → ℕ → ℕ) → ℕ → Vm → Vm
three_registers name op inst =
    let reg1 : ℕ = decode_reg1 inst in
    let reg2 : ℕ = decode_reg2 inst in
    let reg3 : ℕ = decode_reg3 inst in
    validate_register reg1 name (
      validate_register reg2 name (
        validate_register reg3 name
          (λ vm. set_reg reg1 (op vm (vm.cpu.regs reg2) (vm.cpu.regs reg3)) vm)))

unfoldable pub execute_and : ℕ → Vm → Vm
execute_and = three_registers "AND" (λ _. bit_and)

unfoldable pub execute_or : ℕ → Vm → Vm
execute_or = three_registers "OR" (λ _. bit_or)

unfoldable pub execute_xor : ℕ → Vm → Vm
execute_xor = three_registers "XOR" (λ _. bit_xor)

unfoldable pub execute_not : ℕ → Vm → Vm
execute_not inst =
    let reg1 : ℕ = decode_reg1 inst in
    let reg2 : ℕ = decode_reg2 inst in
    validate_register reg1 "NOT"
      (validate_register reg2 "NOT" (λ vm. set_reg reg1 (not32 (vm.cpu.regs reg2)) vm))

-- `v << n` and `v >> n` on `uint32_t`.
unfoldable pub shift_left : Vm → ℕ → ℕ → ℕ
shift_left vm v n = if ltb n 32 then u32 (v << n) else u32 (vm.wide_shift v n)

unfoldable pub shift_right : Vm → ℕ → ℕ → ℕ
shift_right vm v n = if ltb n 32 then v >> n else u32 (vm.wide_shift v n)

unfoldable pub execute_shl : ℕ → Vm → Vm
execute_shl = three_registers "SHL" shift_left

unfoldable pub execute_shr : ℕ → Vm → Vm
execute_shr = three_registers "SHR" shift_right

unfoldable pub execute_inc : ℕ → Vm → Vm
execute_inc inst =
    let reg : ℕ = decode_reg1 inst in
    validate_register reg "INC" λ vm. set_reg reg (add32 (vm.cpu.regs reg) 1) vm

unfoldable pub execute_dec : ℕ → Vm → Vm
execute_dec inst =
    let reg : ℕ = decode_reg1 inst in
    validate_register reg "DEC" λ vm. set_reg reg (sub32 (vm.cpu.regs reg) 1) vm

-- The flags that a comparison leaves; they are cleared first.
unfoldable pub compare_flags : ℕ → ℕ → ℕ
compare_flags val1 val2 =
    if val1 == val2
    then bit_or 0 (bit_or flag_equal flag_zero)
    else if ltb val1 val2
    then bit_or 0 flag_less
    else bit_or 0 flag_greater

unfoldable pub execute_cmp : ℕ → Vm → Vm
execute_cmp inst =
    let reg1 : ℕ = decode_reg1 inst in
    let reg2 : ℕ = decode_reg2 inst in
    let immediate : ℕ = decode_immediate inst in
    validate_register reg1 "CMP" (
      validate_register reg2 "CMP" (λ vm.
        let val2 : ℕ = if not (reg2 == 0) then vm.cpu.regs reg2 else immediate in
        set_flags (compare_flags (vm.cpu.regs reg1) val2) vm))
