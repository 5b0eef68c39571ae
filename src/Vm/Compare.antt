-- ===== src/Vm/Compare.antt =====
-- CMP and the conditional jumps, taken together: each jump goes by the comparison that it names.
use dez.Base.{
  ℕ, ◌≡◌, ltb, leb, ◌==◌, not, if◌then◌else◌, String, bit_and, bit_or, lt→leb, le→ltb, arith,
}
use dez.Isa.Decode.{decode_reg1, decode_reg2, decode_immediate}
use dez.Isa.Fields.{decode_reg1-lt, decode_reg2-lt, decode_immediate-lt}
use dez.Isa.Instruction.{flag_zero, flag_less, flag_greater, flag_equal}
use dez.Vm.State.{Vm, set_pc, set_flags, validate_register, validate_memory_address}
use dez.Vm.Alu.{compare_flags, execute_cmp}
use dez.Vm.Flow.{
  execute_jz, execute_jnz, jump_on_flags, execute_jl, execute_jg, execute_jle, execute_jge,
}

-- The second value of a comparison: register 0 there stands for the immediate.
abbrev pub second_value : ℕ → Vm → ℕ
second_value inst vm =
    if decode_reg2 inst == 0 then decode_immediate inst else vm.cpu.regs (decode_reg2 inst)

pub execute_cmp_lem :
    (inst : ℕ) (vm : Vm)
    → execute_cmp inst vm
      ≡ set_flags (compare_flags (vm.cpu.regs (decode_reg1 inst)) (second_value inst vm)) vm
unfolding execute_cmp validate_register
execute_cmp_lem inst vm =
    rw
      (
        le→ltb 15 (decode_reg1 inst) (omega (arith, decode_reg1-lt inst)),
        le→ltb 15 (decode_reg2 inst) (omega (arith, decode_reg2-lt inst)),
      )
      (ground arith)

-- The flags of a comparison, as each jump tests them.
compare_flags-tests :
    (a b : ℕ)
    → ((bit_and (compare_flags a b) flag_zero == 0) ≡ not (a == b))
      × ((bit_and (compare_flags a b) flag_less == 0) ≡ not (ltb a b))
      × ((bit_and (compare_flags a b) flag_greater == 0) ≡ not (ltb b a))
      × ((bit_and (compare_flags a b) (bit_or flag_less flag_equal) == 0) ≡ not (leb a b))
      × ((bit_and (compare_flags a b) (bit_or flag_greater flag_equal) == 0) ≡ not (leb b a))
unfolding compare_flags
compare_flags-tests a b = ground arith

module _ (inst : ℕ) (vm : Vm) where
  -- The guards of the jumps pass: the target is a word of the memory, the register a register.
  jump_on_flags_lem :
      (name : String) (mask : ℕ)
      → jump_on_flags name mask inst vm
        ≡ (if bit_and vm.cpu.flags mask == 0 then vm else set_pc (decode_immediate inst) vm)
  unfolding jump_on_flags validate_memory_address
  jump_on_flags_lem name mask = rw (lt→leb 4096 (decode_immediate inst) (decode_immediate-lt inst))

  execute_jz_lem :
      execute_jz inst vm
      ≡ (if bit_and vm.cpu.flags flag_zero == 0 then vm else set_pc (decode_immediate inst) vm)
  unfolding execute_jz validate_register validate_memory_address
  execute_jz_lem = rw (
    le→ltb 15 (decode_reg1 inst) (omega (arith, decode_reg1-lt inst)),
    lt→leb 4096 (decode_immediate inst) (decode_immediate-lt inst),
  )

  execute_jnz_lem :
      execute_jnz inst vm
      ≡ (if bit_and vm.cpu.flags flag_zero == 0 then set_pc (decode_immediate inst) vm else vm)
  unfolding execute_jnz validate_register validate_memory_address
  execute_jnz_lem = rw (
    le→ltb 15 (decode_reg1 inst) (omega (arith, decode_reg1-lt inst)),
    lt→leb 4096 (decode_immediate inst) (decode_immediate-lt inst),
  )

-- Each jump, at `here` in the machine `vm`, goes to its target exactly when `a` and `b` compare so.
abbrev pub JumpsBy : ℕ → ℕ → ℕ → ℕ → Vm → Type 0
JumpsBy a b here inst vm =
    let there : ℕ = decode_immediate inst in
    ((execute_jz inst vm).cpu.pc ≡ (if a == b then there else here))
    × ((execute_jnz inst vm).cpu.pc ≡ (if a == b then here else there))
    × ((execute_jl inst vm).cpu.pc ≡ (if ltb a b then there else here))
    × ((execute_jg inst vm).cpu.pc ≡ (if ltb b a then there else here))
    × ((execute_jle inst vm).cpu.pc ≡ (if leb a b then there else here))
    × ((execute_jge inst vm).cpu.pc ≡ (if leb b a then there else here))

jump-compare_flags :
    (a b inst : ℕ) (vm : Vm) → JumpsBy a b vm.cpu.pc inst (set_flags (compare_flags a b) vm)
unfolding execute_jl execute_jg execute_jle execute_jge set_flags set_pc
jump-compare_flags a b inst vm =
    let stay : Vm = set_flags (compare_flags a b) vm in
    ground (
      arith,
      compare_flags-tests a b,
      execute_jz_lem inst stay,
      execute_jnz_lem inst stay,
      jump_on_flags_lem inst stay "JL" flag_less,
      jump_on_flags_lem inst stay "JG" flag_greater,
      jump_on_flags_lem inst stay "JLE" (bit_or flag_less flag_equal),
      jump_on_flags_lem inst stay "JGE" (bit_or flag_greater flag_equal),
    )

-- After CMP, JZ, JNZ, JL, JG, JLE and JGE set the program counter to their target exactly when the
-- first value is equal to, different from, less than, greater than, at most and at least the second,
-- as unsigned numbers; otherwise they leave it.
pub jump-execute_cmp :
    (inst inst' : ℕ) (vm : Vm)
    → JumpsBy
        (vm.cpu.regs (decode_reg1 inst))
        (second_value inst vm)
        vm.cpu.pc
        inst'
        (execute_cmp inst vm)
jump-execute_cmp inst inst' vm =
    rw (execute_cmp_lem inst vm)
      (jump-compare_flags (vm.cpu.regs (decode_reg1 inst)) (second_value inst vm) inst' vm)
