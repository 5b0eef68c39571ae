-- ===== src/Vm/Meaning.antt =====
-- What each assembly statement is to do to the machine, written without words, fields and guards on
-- operands that are in range.
use dez.Base.{
  ℕ, ◌/◌, Bool, true, not, ◌==◌, ltb, if◌then◌else◌, String, bit_and, bit_or, bit_xor, add32, sub32,
  mul32, not32, u8,
}
use dez.Event.{
  address_out_of_bounds, stack_overflow, stack_underflow, division_by_zero, print_register,
  print_char, unknown_system_call, exited, program_halted,
}
use dez.Isa.Statement.{Statement, ArithmeticOp, BitOp, Condition}
use dez.Vm.State.{
  Vm, halted, print, print_all, set_state, fail, set_reg, set_pc, set_flags, write_word,
}
use dez.Vm.Alu.{shift_left, shift_right}
use dez.Vm.Transfer.{load_word, poke}
use dez.Vm.Stack.{push_word, pop_word}
use dez.Vm.Sys.{print_str}

unfoldable pub arithmetic_meaning : ArithmeticOp → ℕ → ℕ → ℕ → Vm → Vm
arithmetic_meaning ArithmeticOp.plus r a b vm = set_reg r (add32 a b) vm
arithmetic_meaning ArithmeticOp.minus r a b vm = set_reg r (sub32 a b) vm
arithmetic_meaning ArithmeticOp.times r a b vm = set_reg r (mul32 a b) vm
arithmetic_meaning ArithmeticOp.over r a b vm =
    if b == 0 then fail division_by_zero vm else set_reg r (a / b) vm

unfoldable pub bit_meaning : BitOp → Vm → ℕ → ℕ → ℕ
bit_meaning BitOp.both vm = bit_and
bit_meaning BitOp.either vm = bit_or
bit_meaning BitOp.differ vm = bit_xor
bit_meaning BitOp.left vm = shift_left vm
bit_meaning BitOp.right vm = shift_right vm

-- The flags word of a comparison: 9 for equal (and zero), 2 for less, 4 for greater.
unfoldable pub outcome : ℕ → ℕ → ℕ
outcome a b = if a == b then 9 else if ltb a b then 2 else 4

-- A condition on the flags word.
unfoldable pub holds : Condition → ℕ → Bool
holds Condition.always flags = true
holds Condition.if_zero flags = not (bit_and flags 1 == 0)
holds Condition.if_not_zero flags = bit_and flags 1 == 0
holds Condition.if_less flags = not (bit_and flags 2 == 0)
holds Condition.if_greater flags = not (bit_and flags 4 == 0)
holds Condition.if_less_equal flags = not (bit_and flags 10 == 0)
holds Condition.if_greater_equal flags = not (bit_and flags 12 == 0)

unfoldable pub system_meaning : ℕ → ℕ → Vm → Vm
system_meaning r n vm =
    let v : ℕ = vm.cpu.regs r in
    if n == 1
    then print (print_register r v) vm
    else if n == 2
    then print_all (print_str vm.memory v) vm
    else if n == 3
    then print (print_char (u8 v)) vm
    else if n == 6
    then print (exited v) (set_state halted vm)
    else print (unknown_system_call n) vm

-- An access at a computed address, which can be out of bounds.
unfoldable pub within : ℕ → String → (Vm → Vm) → Vm → Vm
within a name access vm = if ltb a 4096 then access vm else fail (address_out_of_bounds a name) vm

unfoldable pub with_room : String → (Vm → Vm) → Vm → Vm
with_room name access vm = if ltb vm.cpu.sp 0x800 then fail (stack_overflow name) vm else access vm

unfoldable pub with_item : String → (Vm → Vm) → Vm → Vm
with_item name access vm = if ltb vm.cpu.sp 0xFFF then access vm else fail (stack_underflow name) vm

unfoldable pub meaning : Statement → Vm → Vm
meaning (Statement.move r n) vm = set_reg r n vm
meaning (Statement.load_from r a) vm = load_word r a vm
meaning (Statement.store_to r a) vm = poke a (vm.cpu.regs r) vm
meaning (Statement.system r n) vm = system_meaning r n vm
meaning (Statement.arithmetic op r1 r2 r3) vm =
    arithmetic_meaning op r1 (vm.cpu.regs r2) (vm.cpu.regs r3) vm
meaning (Statement.arithmetic_value op r1 r2 n) vm = arithmetic_meaning op r1 (vm.cpu.regs r2) n vm
meaning (Statement.bits op r1 r2 r3) vm =
    set_reg r1 (bit_meaning op vm (vm.cpu.regs r2) (vm.cpu.regs r3)) vm
meaning (Statement.complement r1 r2) vm = set_reg r1 (not32 (vm.cpu.regs r2)) vm
meaning (Statement.compare r1 r2) vm = set_flags (outcome (vm.cpu.regs r1) (vm.cpu.regs r2)) vm
meaning (Statement.compare_value r n) vm = set_flags (outcome (vm.cpu.regs r) n) vm
meaning (Statement.jump c a) vm = if holds c vm.cpu.flags then set_pc a vm else vm
meaning (Statement.push r) vm = with_room "PUSH" (push_word (vm.cpu.regs r)) vm
meaning (Statement.pop r) vm = with_item "POP" (λ vm. set_reg r (pop_word vm).0 (pop_word vm).1) vm
meaning (Statement.increment r) vm = set_reg r (add32 (vm.cpu.regs r) 1) vm
meaning (Statement.decrement r) vm = set_reg r (sub32 (vm.cpu.regs r) 1) vm
meaning (Statement.call_to a) vm =
    with_room "CALL" (λ vm. set_pc a (push_word (add32 vm.cpu.pc 1) vm)) vm
meaning (Statement.load_at r s) vm =
    within (vm.cpu.regs s) "LOAD_INDIRECT" (load_word r (vm.cpu.regs s)) vm
meaning (Statement.store_at r s) vm =
    within (vm.cpu.regs s) "STORE_INDIRECT" (write_word (vm.cpu.regs s) (vm.cpu.regs r)) vm
meaning (Statement.load_sum r s i) vm =
    let a : ℕ = add32 (vm.cpu.regs s) (vm.cpu.regs i) in within a "LOAD_INDEXED" (load_word r a) vm
meaning (Statement.store_sum r s i) vm =
    let a : ℕ = add32 (vm.cpu.regs s) (vm.cpu.regs i) in
    within a "STORE_INDEXED" (write_word a (vm.cpu.regs r)) vm
meaning Statement.return vm = with_item "RET" (λ vm. set_pc (pop_word vm).0 (pop_word vm).1) vm
meaning Statement.stop vm = print program_halted (set_state halted vm)
meaning Statement.nothing vm = vm
