-- ===== src/Isa/RoundTrip.antt =====
-- Decoding gives back what an encoder has packed, for register numbers below 16; an immediate comes
-- back cut to its field.
use dez.Base.{
  ℕ, subst, ◌+◌, ◌*◌, ◌/◌, ◌%◌, ◌^◌, ◌<◌, ◌≡◌, ◌==◌, bit_and, bit_or, u8, arith, ◌>>◌, ◌<<◌,
}
use dez.Base.Bits.{bit_and-mask, bit_or-disjoint}
use dez.Isa.Instruction.{InstructionType, opcode}
use dez.Isa.Decode.{
  decode_opcode, decode_reg1, decode_reg2, decode_reg3, decode_immediate, decode_ext_immediate,
  is_immediate_mode,
}
use dez.Isa.Encode.{
  encode_jump, encode_arithmetic, encode_single, encode_single_register,
  encode_arithmetic_immediate,
}
use dez.Isa.Fields.{
  decode_opcode_lem, decode_reg1_lem, decode_reg2_lem, decode_reg3_lem, decode_immediate_lem,
  decode_ext_immediate_lem, is_immediate_mode_lem, opcode-lt,
}

-- The word with these fields.
abbrev pub packed : ℕ → ℕ → ℕ → ℕ → ℕ → ℕ
packed op r1 r2 r3 low = op * 2 ^ 24 + r1 * 2 ^ 20 + r2 * 2 ^ 16 + r3 * 2 ^ 12 + low

-- The fields of a word, as the instructions decode them.
pub record Decodes (op r1 r2 r3 low inst : ℕ) : Type 0 where
  pub opcode : decode_opcode inst ≡ op
  pub dispatched : u8 (inst >> 24) ≡ op
  pub reg1 : decode_reg1 inst ≡ r1
  pub reg2 : decode_reg2 inst ≡ r2
  pub reg3 : decode_reg3 inst ≡ r3
  pub immediate : decode_immediate inst ≡ low
  pub ext_immediate : decode_ext_immediate inst ≡ low % 2 ^ 11
  pub mode : is_immediate_mode inst ≡ (low / 2 ^ 11 == 1)

packed-Decodes :
    (op r1 r2 r3 low : ℕ) {inst : ℕ}
    → op < 256
    → r1 < 16
    → r2 < 16
    → r3 < 16
    → low < 2 ^ 12
    → inst ≡ packed op r1 r2 r3 low
    → Decodes op r1 r2 r3 low inst
packed-Decodes op r1 r2 r3 low {inst} ho h1 h2 h3 hl e = record {
  opcode = omega (arith, decode_opcode_lem inst);
  dispatched = omega arith;
  reg1 = omega (arith, decode_reg1_lem inst);
  reg2 = omega (arith, decode_reg2_lem inst);
  reg3 = omega (arith, decode_reg3_lem inst);
  immediate = omega (arith, decode_immediate_lem inst);
  ext_immediate = omega (arith, decode_ext_immediate_lem inst);
  mode = ground (arith, is_immediate_mode_lem inst);
}

-- The first two fields, which most encoders begin with.
two_fields : (op r1 : ℕ) → r1 < 16 → bit_or (op * 2 ^ 24) (r1 * 2 ^ 20) ≡ (op * 16 + r1) * 2 ^ 20
two_fields op r1 h = omega (arith, bit_or-disjoint 24 op (r1 * 2 ^ 20))

three_fields :
    (op r1 r2 : ℕ)
    → r1 < 16
    → r2 < 16
    → bit_or (bit_or (op * 2 ^ 24) (r1 * 2 ^ 20)) (r2 * 2 ^ 16)
      ≡ ((op * 16 + r1) * 16 + r2) * 2 ^ 16
three_fields op r1 r2 h1 h2 =
    rw (two_fields op r1 h1) (omega (arith, bit_or-disjoint 20 (op * 16 + r1) (r2 * 2 ^ 16)))

pub four_fields :
    (op r1 r2 r3 : ℕ)
    → r1 < 16
    → r2 < 16
    → r3 < 16
    → bit_or (bit_or (bit_or (op * 2 ^ 24) (r1 * 2 ^ 20)) (r2 * 2 ^ 16)) (r3 * 2 ^ 12)
      ≡ packed op r1 r2 r3 0
four_fields op r1 r2 r3 h1 h2 h3 =
    rw (three_fields op r1 r2 h1 h2)
      (omega (arith, bit_or-disjoint 16 ((op * 16 + r1) * 16 + r2) (r3 * 2 ^ 12)))

pub with_immediate :
    (op r1 n : ℕ)
    → r1 < 16
    → bit_or (bit_or (op * 2 ^ 24) (r1 * 2 ^ 20)) (bit_and n 0x0FFF) ≡ packed op r1 0 0 (n % 2 ^ 12)
with_immediate op r1 n h =
    rw (two_fields op r1 h, bit_and-mask 12 n)
      (omega (arith, bit_or-disjoint 20 (op * 16 + r1) (n % 2 ^ 12)))

with_ext_immediate :
    (op r1 r2 n : ℕ)
    → r1 < 16
    → r2 < 16
    → bit_or
        (bit_or (bit_or (bit_or (op * 2 ^ 24) (r1 * 2 ^ 20)) (r2 * 2 ^ 16)) 2048)
        (bit_and n 0x07FF)
      ≡ packed op r1 r2 0 (2048 + n % 2 ^ 11)
with_ext_immediate op r1 r2 n h1 h2 =
    let top : ℕ = (op * 16 + r1) * 16 + r2 in
    rw (three_fields op r1 r2 h1 h2, bit_and-mask 11 n, bit_or-disjoint 16 top 2048 (omega arith))
      (ground (arith, bit_or-disjoint 11 (top * 32 + 1) (n % 2 ^ 11)))

module _ (t : InstructionType) (r1 r2 r3 : ℕ) (h1 : r1 < 16) (h2 : r2 < 16) (h3 : r3 < 16) where
  -- The register form of the three-operand instructions.
  pub encode_arithmetic-Decodes : Decodes (opcode t) r1 r2 r3 0 (encode_arithmetic t r1 r2 r3)
  unfolding encode_arithmetic
  encode_arithmetic-Decodes =
      packed-Decodes (opcode t) r1 r2 r3 0 (opcode-lt t) h1 h2 h3 (omega arith)
        (four_fields (opcode t) r1 r2 r3 h1 h2 h3)

module _ (t : InstructionType) (r1 r2 n : ℕ) (h1 : r1 < 16) (h2 : r2 < 16) where
  -- The immediate form: the mode bit is set, and the value is cut to 11 bits.
  pub encode_arithmetic_immediate-Decodes :
      Decodes (opcode t) r1 r2 0 (2048 + n % 2 ^ 11) (encode_arithmetic_immediate t r1 r2 n)
  unfolding encode_arithmetic_immediate
  encode_arithmetic_immediate-Decodes =
      packed-Decodes (opcode t) r1 r2 0 (2048 + n % 2 ^ 11) (opcode-lt t) h1 h2 (omega arith)
        (omega arith) (with_ext_immediate (opcode t) r1 r2 n h1 h2)

module _ (t : InstructionType) (r n : ℕ) (h : r < 16) where
  -- A register and an address or immediate, cut to 12 bits.
  pub encode_jump-Decodes : Decodes (opcode t) r 0 0 (n % 2 ^ 12) (encode_jump t r n)
  unfolding encode_jump
  encode_jump-Decodes =
      packed-Decodes (opcode t) r 0 0 (n % 2 ^ 12) (opcode-lt t) h (omega arith) (omega arith)
        (omega arith) (with_immediate (opcode t) r n h)

module _ (t : InstructionType) (r : ℕ) (h : r < 16) where
  pub encode_single_register-Decodes : Decodes (opcode t) r 0 0 0 (encode_single_register t r)
  unfolding encode_single_register
  encode_single_register-Decodes =
      packed-Decodes (opcode t) r 0 0 0 (opcode-lt t) h (omega arith) (omega arith) (omega arith)
        (omega (arith, two_fields (opcode t) r h))

pub encode_single-Decodes : (t : InstructionType) → Decodes (opcode t) 0 0 0 0 (encode_single t)
unfolding encode_single
encode_single-Decodes t =
    packed-Decodes (opcode t) 0 0 0 0 (opcode-lt t) (omega arith) (omega arith) (omega arith)
      (omega arith) (omega arith)

-- The indirect forms have no third register.
pub two_registers-Decodes :
    (t : InstructionType) (r1 r2 : ℕ)
    → r1 < 16
    → r2 < 16
    → Decodes (opcode t) r1 r2 0 0 (bit_or (bit_or (opcode t << 24) (r1 << 20)) (r2 << 16))
two_registers-Decodes t r1 r2 h1 h2 =
    packed-Decodes (opcode t) r1 r2 0 0 (opcode-lt t) h1 h2 (omega arith) (omega arith)
      (omega (arith, three_fields (opcode t) r1 r2 h1 h2))

-- An immediate that fits its field comes back as it is.
pub fitting :
    (t : InstructionType) (r a : ℕ)
    → r < 16
    → a < 4096
    → Decodes (opcode t) r 0 0 a (encode_jump t r a)
fitting t r a hr ha =
    let e : a % 2 ^ 12 ≡ a = omega arith in
    subst (λ low. Decodes (opcode t) r 0 0 low (encode_jump t r a)) e (encode_jump-Decodes t r a hr)
