-- ===== src/Vm/Keeps/Registers.antt =====
-- The register instructions keep what their primitive updates keep.
use dez.Base.{
  ℕ, ◌^◌, ◌<◌, IsWord, ltb, ◌==◌, String, if_both, arith, bit_and, u32-IsWord, not32-IsWord,
  div-IsWord,
}
use dez.Base.Bits.{bit_and-le}
use dez.Isa.Decode.{decode_immediate, is_immediate_mode}
use dez.Isa.Fields.{decode_reg1-lt, decode_immediate-lt}
use dez.Vm.State.{Vm}
use dez.Vm.Valid.{IsFlags}
use dez.Vm.Alu.{
  execute_mov, arithmetic, divide, execute_div, three_registers, execute_not, shift_left,
  shift_right, execute_inc, execute_dec, compare_flags, execute_cmp,
}
use dez.Vm.Keeps.Primitive.{Keeps, fail-keeps, validate_register-keeps}

pub immediate-IsWord : (inst : ℕ) → IsWord (decode_immediate inst)
immediate-IsWord inst = omega (arith, decode_immediate-lt inst)

compare_flags-IsFlags : (a b : ℕ) → IsFlags (compare_flags a b)
unfolding compare_flags
compare_flags-IsFlags a b = ground arith

pub bit_and-IsWord : (a b : ℕ) → IsWord a → IsWord b → IsWord (bit_and a b)
bit_and-IsWord a b ha hb = omega (arith, bit_and-le a b)

-- The operation gives words, on words.
abbrev pub WordOp : (Vm → ℕ → ℕ → ℕ) → Type 0
WordOp op = (vm : Vm) (a b : ℕ) → IsWord a → IsWord b → IsWord (op vm a b)

pub shift_left-WordOp : WordOp shift_left
unfolding shift_left
shift_left-WordOp vm a b ha hb = if_both IsWord (ltb b 32) (u32-IsWord _) (u32-IsWord _)

pub shift_right-WordOp : WordOp shift_right
unfolding shift_right
shift_right-WordOp vm a b ha hb = if_both IsWord (ltb b 32) (div-IsWord a (2 ^ b) ha) (u32-IsWord _)

module _ {P : Vm → Type 0} (keeps : Keeps P) where
  open keeps use {
    valid, by_print_all, by_set_state, by_set_reg, by_set_pc, by_set_sp, by_set_flags, by_read_word,
    by_write_word,
  }

  pub execute_mov-keeps : (inst : ℕ) (vm : Vm) → P vm → P (execute_mov inst vm)
  unfolding execute_mov
  execute_mov-keeps inst vm p =
      validate_register-keeps keeps _ _ _ vm p
        (by_set_reg _ _ (decode_reg1-lt inst) (immediate-IsWord inst) p)

  pub arithmetic-keeps :
      (name : String) (op : ℕ → ℕ → ℕ) (inst : ℕ) (vm : Vm)
      → ((a b : ℕ) → IsWord (op a b))
      → P vm
      → P (arithmetic name op inst vm)
  unfolding arithmetic
  arithmetic-keeps name op inst vm word p = validate_register-keeps keeps _ _ _ vm p (
      validate_register-keeps keeps _ _ _ vm p (
        if_both P (is_immediate_mode inst) (by_set_reg _ _ (decode_reg1-lt inst) (word _ _) p) (
          validate_register-keeps keeps _ _ _ vm p
            (by_set_reg _ _ (decode_reg1-lt inst) (word _ _) p))))

  pub divide-keeps : (r s d : ℕ) (vm : Vm) → r < 16 → P vm → P (divide r s d vm)
  unfolding divide
  divide-keeps r s d vm h p =
      if_both P (d == 0) (fail-keeps keeps _ p)
        (by_set_reg _ _ h (div-IsWord _ d ((valid p).regs s)) p)

  pub execute_div-keeps : (inst : ℕ) (vm : Vm) → P vm → P (execute_div inst vm)
  unfolding execute_div
  execute_div-keeps inst vm p = validate_register-keeps keeps _ _ _ vm p (
      validate_register-keeps keeps _ _ _ vm p (
        if_both P (is_immediate_mode inst) (divide-keeps _ _ _ vm (decode_reg1-lt inst) p) (
          validate_register-keeps keeps _ _ _ vm p
            (divide-keeps _ _ _ vm (decode_reg1-lt inst) p))))

  pub three_registers-keeps :
      (name : String) (op : Vm → ℕ → ℕ → ℕ) (inst : ℕ) (vm : Vm)
      → WordOp op
      → P vm
      → P (three_registers name op inst vm)
  unfolding three_registers
  three_registers-keeps name op inst vm word p = validate_register-keeps keeps _ _ _ vm p (
      validate_register-keeps keeps _ _ _ vm p (
        validate_register-keeps keeps _ _ _ vm p (
          by_set_reg _ _ (decode_reg1-lt inst) (word vm _ _ ((valid p).regs _) ((valid p).regs _))
            p)))

  pub execute_not-keeps : (inst : ℕ) (vm : Vm) → P vm → P (execute_not inst vm)
  unfolding execute_not
  execute_not-keeps inst vm p = validate_register-keeps keeps _ _ _ vm p (
      validate_register-keeps keeps _ _ _ vm p
        (by_set_reg _ _ (decode_reg1-lt inst) (not32-IsWord _) p))

  pub execute_inc-keeps : (inst : ℕ) (vm : Vm) → P vm → P (execute_inc inst vm)
  unfolding execute_inc
  execute_inc-keeps inst vm p =
      validate_register-keeps keeps _ _ _ vm p
        (by_set_reg _ _ (decode_reg1-lt inst) (u32-IsWord _) p)

  pub execute_dec-keeps : (inst : ℕ) (vm : Vm) → P vm → P (execute_dec inst vm)
  unfolding execute_dec
  execute_dec-keeps inst vm p =
      validate_register-keeps keeps _ _ _ vm p
        (by_set_reg _ _ (decode_reg1-lt inst) (u32-IsWord _) p)

  pub execute_cmp-keeps : (inst : ℕ) (vm : Vm) → P vm → P (execute_cmp inst vm)
  unfolding execute_cmp
  execute_cmp-keeps inst vm p =
      validate_register-keeps keeps _ _ _ vm p
        (validate_register-keeps keeps _ _ _ vm p (by_set_flags _ (compare_flags-IsFlags _ _) p))
