-- ===== src/Base/Bits/Masks.antt =====
-- `&` with a mask of low bits, `|` of disjoint fields, and the bounds of all three operations.
use Prim.Native.Nat.{
  ℕ, zero, suc, ◌+◌, ◌-◌, ◌*◌, ◌/◌, ◌%◌, ◌^◌, ◌≤◌, ◌<◌, min, max, bit_and, bit_or, bit_xor, differ,
  bit_or-bitwise,
}
use mathlib.Core.Path.{◌≡◌, refl}
use native.Mathlib.Nat.{pow-suc, one-le-pow}
use native.Mathlib.Omega.{arith}
use dez.Base.Bits.Lowest.{
  bit_and-lowest, bit_or-lowest, bit_xor-lowest, differ-le-one, op-bound, op-fields,
}

min-bit : (x y : ℕ) → x < 2 → y < 2 → min x y < 2
min-bit x y hx hy = omega arith

max-bit : (x y : ℕ) → x < 2 → y < 2 → max x y < 2
max-bit x y hx hy = omega arith

pub bit_or-bound : (k a b : ℕ) → a < 2 ^ k → b < 2 ^ k → bit_or a b < 2 ^ k
bit_or-bound = op-bound bit_or max bit_or-lowest max-bit

pub bit_xor-bound : (k a b : ℕ) → a < 2 ^ k → b < 2 ^ k → bit_xor a b < 2 ^ k
bit_xor-bound = op-bound bit_xor differ bit_xor-lowest differ-le-one

pub bit_and-fields :
    (k a b c d : ℕ)
    → c < 2 ^ k
    → d < 2 ^ k
    → bit_and (a * 2 ^ k + c) (b * 2 ^ k + d) ≡ bit_and a b * 2 ^ k + bit_and c d
bit_and-fields = op-fields bit_and min bit_and-lowest min-bit

bit_or-fields :
    (k a b c d : ℕ)
    → c < 2 ^ k
    → d < 2 ^ k
    → bit_or (a * 2 ^ k + c) (b * 2 ^ k + d) ≡ bit_or a b * 2 ^ k + bit_or c d
bit_or-fields = op-fields bit_or max bit_or-lowest max-bit

lt-two-pow : (n : ℕ) → n < 2 ^ n
lt-two-pow zero = omega arith
lt-two-pow (suc n) = omega (arith, lt-two-pow n, pow-suc 2 n)

bit_and-le_fuel : (k a b : ℕ) → b < 2 ^ k → bit_and a b ≤ b
bit_and-le_fuel zero a (suc b) h = absurd (omega arith)
bit_and-le_fuel zero a zero h = below a a (lt-two-pow a)
  where
    below : (k a : ℕ) → a < 2 ^ k → bit_and a 0 ≤ 0
    below zero zero h = omega (arith, bit_and-lowest 0 0)
    below zero (suc a) h = absurd (omega arith)
    below (suc k) a h =
        omega (arith, bit_and-lowest a 0, pow-suc 2 k, below k (a / 2) (omega (arith, pow-suc 2 k)))
bit_and-le_fuel (suc k) a b h =
    omega
      (arith, bit_and-lowest a b, bit_and-le_fuel k (a / 2) (b / 2) (omega (arith, pow-suc 2 k)))

pub bit_and-le : (a b : ℕ) → bit_and a b ≤ b
bit_and-le a b = bit_and-le_fuel b a b (lt-two-pow b)

bit_and_ones : (k c : ℕ) → c < 2 ^ k → bit_and c (2 ^ k - 1) ≡ c
bit_and_ones zero zero h = omega (arith, bit_and-le 0 0)
bit_and_ones zero (suc c) h = absurd (omega arith)
bit_and_ones (suc k) c h =
    ground
      (arith, pow-suc 2 k, one-le-pow k 2, bit_and-lowest c (2 ^ suc k - 1), bit_and_ones k (c / 2))

-- `a & (2^k - 1)`
pub bit_and-mask : (k a : ℕ) → bit_and a (2 ^ k - 1) ≡ a % 2 ^ k
bit_and-mask k a = ground (
  arith,
  one-le-pow k 2,
  bit_and-fields k (a / 2 ^ k) 0 (a % 2 ^ k) (2 ^ k - 1),
  bit_and-le (a / 2 ^ k) 0,
  bit_and_ones k (a % 2 ^ k),
)

bit_or-zero : (k a : ℕ) → a < 2 ^ k → bit_or a 0 ≡ a
bit_or-zero zero zero h = refl
bit_or-zero zero (suc a) h = absurd (omega arith)
bit_or-zero (suc k) a h = ground (arith, bit_or-lowest a 0, pow-suc 2 k, bit_or-zero k (a / 2))

-- `(q << k) | r` where `r` fits in the `k` low bits
pub bit_or-disjoint : (k q r : ℕ) → r < 2 ^ k → bit_or (q * 2 ^ k) r ≡ q * 2 ^ k + r
bit_or-disjoint k q r h = ground (
  arith,
  one-le-pow k 2,
  bit_or-fields k q 0 0 r,
  bit_or-zero q q (lt-two-pow q),
  bit_or-bitwise 0 r,
)

-- Clearing eight bits at place `s`: `w & ~(0xFF << s)`, with `w` taken apart there; `high` has `n`
-- bits.
bit_and-clear_byte :
    (n s high b low : ℕ)
    → high < 2 ^ n
    → b < 256
    → low < 2 ^ s
    → bit_and ((high * 256 + b) * 2 ^ s + low) ((2 ^ n - 1) * 256 * 2 ^ s + (2 ^ s - 1))
      ≡ high * 256 * 2 ^ s + low
bit_and-clear_byte n s high b low hh hb hl = ground (
  arith,
  one-le-pow s 2,
  one-le-pow n 2,
  bit_and-fields s (high * 256 + b) ((2 ^ n - 1) * 256) low (2 ^ s - 1),
  bit_and-fields 8 high (2 ^ n - 1) b 0,
  bit_and_ones n high,
  bit_and_ones s low,
  bit_and-le b 0,
)

-- Setting a byte at place `s`: the other bits stay.
pub bit_or-set_byte :
    (n s high b low v : ℕ)
    → high < 2 ^ n
    → b < 256
    → low < 2 ^ s
    → v < 256
    → bit_or
        (bit_and ((high * 256 + b) * 2 ^ s + low) ((2 ^ n - 1) * 256 * 2 ^ s + (2 ^ s - 1)))
        (v * 2 ^ s)
      ≡ (high * 256 + v) * 2 ^ s + low
bit_or-set_byte n s high b low v hh hb hl hv = ground (
  arith,
  one-le-pow s 2,
  bit_and-clear_byte n s high b low,
  bit_or-fields s (high * 256) v low 0,
  bit_or-disjoint 8 high v,
  bit_or-zero s low,
)
