-- ===== src/Vm/Correct/Registers.antt =====
-- The register instructions and the jumps, on a word with known fields.
use dez.Base.{
  ℕ, ◌+◌, ◌<◌, ◌≡◌, ◌≢◌, refl, not, ◌==◌, if◌then◌else◌, String, bit_and, add32, sub32, not32,
  arith, lt→leb, le→ltb,
}
use dez.Isa.Fields.{decode_reg1-lt, decode_reg2-lt, decode_reg3-lt, decode_immediate-lt}
use dez.Isa.RoundTrip.{Decodes}
use dez.Isa.Statement.{Condition}
use dez.Vm.State.{Vm, set_reg, set_pc, set_flags, validate_register, validate_memory_address}
use dez.Vm.Alu.{
  execute_mov, arithmetic, divide, execute_div, three_registers, execute_not, execute_inc,
  execute_dec, compare_flags, execute_cmp,
}
use dez.Vm.Flow.{execute_jmp, execute_jz, execute_jnz, jump_on_flags}
use dez.Vm.Meaning.{outcome, holds}

pub validate_register-pass :
    (reg : ℕ) (name : String) (rest : Vm → Vm) (vm : Vm)
    → reg < 16
    → validate_register reg name rest vm ≡ rest vm
unfolding validate_register
validate_register-pass reg name rest vm h = rw (le→ltb 15 reg (omega arith))

pub validate_memory_address-pass :
    (addr : ℕ) (name : String) (rest : Vm → Vm) (vm : Vm)
    → addr < 4096
    → validate_memory_address addr name rest vm ≡ rest vm
unfolding validate_memory_address
validate_memory_address-pass addr name rest vm h = rw (lt→leb 4096 addr h)

pub compare_flags-outcome : (a b : ℕ) → compare_flags a b ≡ outcome a b
unfolding compare_flags outcome
compare_flags-outcome a b = refl

module _ (op r1 r2 r3 low inst : ℕ) (d : Decodes op r1 r2 r3 low inst) (vm : Vm) where
  pub mov_lem : execute_mov inst vm ≡ set_reg r1 low vm
  unfolding execute_mov
  mov_lem = rw (validate_register-pass, decode_reg1-lt inst, d.reg1, d.immediate)

  pub inc_lem : execute_inc inst vm ≡ set_reg r1 (add32 (vm.cpu.regs r1) 1) vm
  unfolding execute_inc
  inc_lem = rw (validate_register-pass, decode_reg1-lt inst, d.reg1)

  pub dec_lem : execute_dec inst vm ≡ set_reg r1 (sub32 (vm.cpu.regs r1) 1) vm
  unfolding execute_dec
  dec_lem = rw (validate_register-pass, decode_reg1-lt inst, d.reg1)

  pub arithmetic_lem :
      (name : String) (f : ℕ → ℕ → ℕ)
      → low ≡ 0
      → arithmetic name f inst vm ≡ set_reg r1 (f (vm.cpu.regs r2) (vm.cpu.regs r3)) vm
  unfolding arithmetic validate_register
  arithmetic_lem name f e =
      ground (arith, decode_reg1-lt inst, decode_reg2-lt inst, decode_reg3-lt inst)

  pub arithmetic_value_lem :
      (name : String) (f : ℕ → ℕ → ℕ) (n : ℕ)
      → n < 2048
      → low ≡ 2048 + n
      → arithmetic name f inst vm ≡ set_reg r1 (f (vm.cpu.regs r2) n) vm
  unfolding arithmetic validate_register
  arithmetic_value_lem name f n h e =
      ground (arith, decode_reg1-lt inst, decode_reg2-lt inst, decode_reg3-lt inst)

  pub div_lem : low ≡ 0 → execute_div inst vm ≡ divide r1 r2 (vm.cpu.regs r3) vm
  unfolding execute_div validate_register
  div_lem e = ground (arith, decode_reg1-lt inst, decode_reg2-lt inst, decode_reg3-lt inst)

  pub div_value_lem : (n : ℕ) → n < 2048 → low ≡ 2048 + n → execute_div inst vm ≡ divide r1 r2 n vm
  unfolding execute_div validate_register
  div_value_lem n h e =
      ground (arith, decode_reg1-lt inst, decode_reg2-lt inst, decode_reg3-lt inst)

  pub three_registers_lem :
      (name : String) (f : Vm → ℕ → ℕ → ℕ)
      → three_registers name f inst vm ≡ set_reg r1 (f vm (vm.cpu.regs r2) (vm.cpu.regs r3)) vm
  unfolding three_registers validate_register
  three_registers_lem name f =
      ground (arith, decode_reg1-lt inst, decode_reg2-lt inst, decode_reg3-lt inst)

  pub not_lem : execute_not inst vm ≡ set_reg r1 (not32 (vm.cpu.regs r2)) vm
  unfolding execute_not validate_register
  not_lem = ground (arith, decode_reg1-lt inst, decode_reg2-lt inst)

  pub cmp_lem :
      r2 ≢ 0 → execute_cmp inst vm ≡ set_flags (outcome (vm.cpu.regs r1) (vm.cpu.regs r2)) vm
  unfolding execute_cmp validate_register
  cmp_lem h = ground (
    arith,
    decode_reg1-lt inst,
    decode_reg2-lt inst,
    compare_flags-outcome (vm.cpu.regs r1) (vm.cpu.regs r2),
  )

  pub cmp_value_lem : r2 ≡ 0 → execute_cmp inst vm ≡ set_flags (outcome (vm.cpu.regs r1) low) vm
  unfolding execute_cmp validate_register
  cmp_value_lem h =
      ground (
        arith,
        decode_reg1-lt inst,
        decode_reg2-lt inst,
        compare_flags-outcome (vm.cpu.regs r1) low,
      )

  pub jmp_lem : execute_jmp inst vm ≡ set_pc low vm
  unfolding execute_jmp validate_memory_address
  jmp_lem = ground (arith, decode_immediate-lt inst)

  pub jz_lem :
      execute_jz inst vm ≡ (if holds Condition.if_zero vm.cpu.flags then set_pc low vm else vm)
  unfolding execute_jz validate_register validate_memory_address holds
  jz_lem = ground (arith, decode_reg1-lt inst, decode_immediate-lt inst)

  pub jnz_lem :
      execute_jnz inst vm ≡ (if holds Condition.if_not_zero vm.cpu.flags then set_pc low vm else vm)
  unfolding execute_jnz validate_register validate_memory_address holds
  jnz_lem = ground (arith, decode_reg1-lt inst, decode_immediate-lt inst)

  pub jump_lem :
      (name : String) (mask : ℕ)
      → jump_on_flags name mask inst vm
        ≡ (if not (bit_and vm.cpu.flags mask == 0) then set_pc low vm else vm)
  unfolding jump_on_flags validate_memory_address
  jump_lem name mask = ground (arith, decode_immediate-lt inst)
