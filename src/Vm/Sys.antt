-- ===== src/Vm/Sys.antt =====
-- src/core/dez_instruction_table.c: SYS.
use dez.Base.{ℕ, zero, suc, ◌+◌, Bool, ◌&&◌, List, [], ◌∷◌, ◌++◌, ltb, ◌==◌, if◌then◌else◌, u8}
use dez.Event.{Event, print_register, print_char, unknown_system_call, exited}
use dez.Isa.Instruction.{sys_print, sys_print_str, sys_print_char, sys_exit}
use dez.Isa.Decode.{decode_reg1, decode_immediate}
use dez.Memory.{Memory, memory_read_byte}
use dez.Vm.State.{Vm, halted, print, print_all, set_state, validate_register}

-- The byte address that printing a string stops at.
abbrev pub string_limit : ℕ
string_limit = 0x200

abbrev pub backslash : ℕ
backslash = 92

-- What is printed for a backslash and the byte behind it, and how many bytes that takes.
unfoldable pub escape : ℕ → ℕ × ℕ
escape next_byte =
    if next_byte == b'n'
    then (10, 2)
    else if next_byte == b't'
    then (9, 2)
    else if next_byte == b'r'
    then (13, 2)
    else if next_byte == backslash
    then (backslash, 2)
    else if next_byte == b'"'
    then (b'"', 2)
    else (backslash, 1)

-- The `while` loop of PRINT_STR from byte address `pos`. Each round moves `pos` on, so as many
-- rounds as there are addresses below the limit are enough.
unfoldable pub print_str_from : ℕ → Memory → ℕ → List Event
print_str_from zero mem pos = []
print_str_from (suc fuel) mem pos =
    let (byte, log) = memory_read_byte mem pos in
    let (next_byte, next_log) = memory_read_byte mem (pos + 1) in
    let escaped : Bool = byte == backslash && ltb (pos + 1) string_limit in
    let (printed, width) = if escaped then escape next_byte else (byte, 1) in
    let rest : List Event = print_str_from fuel mem (pos + width) in
    if ltb pos string_limit
    then (if byte == 0
        then log
        else log ++ ((if escaped then next_log else []) ++ print_char printed ∷ rest))
    else []

unfoldable pub print_str : Memory → ℕ → List Event
print_str mem addr = print_str_from string_limit mem addr

unfoldable pub execute_sys : ℕ → Vm → Vm
execute_sys inst =
    let reg1 : ℕ = decode_reg1 inst in
    let immediate : ℕ = decode_immediate inst in
    validate_register reg1 "SYS" (λ vm.
      if immediate == sys_print
      then print (print_register reg1 (vm.cpu.regs reg1)) vm
      else if immediate == sys_print_char
      then print (print_char (u8 (vm.cpu.regs reg1))) vm
      else if immediate == sys_print_str
      then print_all (print_str vm.memory (vm.cpu.regs reg1)) vm
      else if immediate == sys_exit
      then print (exited (vm.cpu.regs reg1)) (set_state halted vm)
      else print (unknown_system_call immediate) vm)
