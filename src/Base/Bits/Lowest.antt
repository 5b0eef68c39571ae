-- ===== src/Base/Bits/Lowest.antt =====
-- The laws of `&`, `|` and `^` at every width: one equation for the lowest bit, and what follows
-- from it: bounds, and that fields at different places do not disturb one another.
use Prim.Native.Nat.{
  ℕ, zero, suc, ◌+◌, ◌*◌, ◌/◌, ◌%◌, ◌^◌, ◌≤◌, ◌<◌, min, max, bit_and, bit_or, bit_xor, digits,
  differ, bit_and-bitwise, bit_or-bitwise, bit_xor-bitwise,
}
use mathlib.Core.Path.{◌≡◌, refl, ap, sym, ◌∙◌}
use native.Mathlib.Nat.{pow-suc}
use native.Mathlib.Omega.{arith}

module _ (z : ℕ → ℕ) (f : ℕ → ℕ → ℕ) where
  digits-zero : (n b : ℕ) → digits z f n zero b ≡ z b
  digits-zero zero b = refl
  digits-zero (suc n) b = refl

  -- Any fuel that reaches the first number gives the same digits.
  digits_irrelevant : (n m a b : ℕ) → a ≤ n → a ≤ m → digits z f n a b ≡ digits z f m a b
  digits_irrelevant n m zero b _ _ = digits-zero n b ∙ sym (digits-zero m b)
  digits_irrelevant zero m (suc a) b small _ = absurd (omega arith)
  digits_irrelevant (suc n) zero (suc a) b _ small = absurd (omega arith)
  digits_irrelevant (suc n) (suc m) (suc a) b l r =
      ap (λ high. high * 2 + f (suc a % 2) (b % 2))
        (digits_irrelevant n m (suc a / 2) (b / 2) (omega arith) (omega arith))

  lowest :
      (a b : ℕ)
      → digits z f (suc a) (suc a) b
        ≡ digits z f (suc a / 2) (suc a / 2) (b / 2) * 2 + f (suc a % 2) (b % 2)
  lowest a b =
      ap (λ high. high * 2 + f (suc a % 2) (b % 2))
        (digits_irrelevant a (suc a / 2) (suc a / 2) (b / 2) (omega arith) (omega arith))

pub bit_and-lowest : (a b : ℕ) → bit_and a b ≡ bit_and (a / 2) (b / 2) * 2 + min (a % 2) (b % 2)
bit_and-lowest zero b = simp bit_and-bitwise (omega arith)
bit_and-lowest (suc a) b = simp bit_and-bitwise (lowest (λ y. 0) min a b)

pub bit_or-lowest : (a b : ℕ) → bit_or a b ≡ bit_or (a / 2) (b / 2) * 2 + max (a % 2) (b % 2)
bit_or-lowest zero b = simp bit_or-bitwise (omega arith)
bit_or-lowest (suc a) b = simp bit_or-bitwise (lowest (λ y. y) max a b)

pub bit_xor-lowest : (a b : ℕ) → bit_xor a b ≡ bit_xor (a / 2) (b / 2) * 2 + differ (a % 2) (b % 2)
bit_xor-lowest zero b = simp bit_xor-bitwise (omega arith)
bit_xor-lowest (suc a) b = simp bit_xor-bitwise (lowest (λ y. y) differ a b)

double-pow : (q k : ℕ) → q * 2 ^ suc k ≡ 2 * (q * 2 ^ k)
double-pow q k = omega (arith, ap (λ (t : ℕ). q * t) (pow-suc 2 k))

pub differ-le-one : (x y : ℕ) → x < 2 → y < 2 → differ x y < 2
differ-le-one zero y hx hy = hy
differ-le-one (suc zero) zero hx hy = omega arith
differ-le-one (suc zero) (suc zero) hx hy = omega arith
differ-le-one (suc zero) (suc (suc y)) hx hy = absurd (omega arith)
differ-le-one (suc (suc x)) y hx hy = absurd (omega arith)

-- What holds of each operation, from its equation for the lowest bit.
module _ (op f : ℕ → ℕ → ℕ)
    (op-lowest : (a b : ℕ) → op a b ≡ op (a / 2) (b / 2) * 2 + f (a % 2) (b % 2))
    (f-bit : (x y : ℕ) → x < 2 → y < 2 → f x y < 2) where
  op-zero : op 0 0 < 1
  op-zero = omega (arith, op-lowest 0 0, f-bit 0 0)

  -- Two numbers of `k` bits give one of `k` bits.
  pub op-bound : (k a b : ℕ) → a < 2 ^ k → b < 2 ^ k → op a b < 2 ^ k
  op-bound zero zero zero ha hb = op-zero
  op-bound zero (suc a) b ha hb = absurd (omega arith)
  op-bound zero zero (suc b) ha hb = absurd (omega arith)
  op-bound (suc k) a b ha hb = omega (
    arith,
    pow-suc 2 k,
    op-lowest a b,
    f-bit (a % 2) (b % 2),
    op-bound k (a / 2) (b / 2) (omega (arith, pow-suc 2 k)) (omega (arith, pow-suc 2 k)),
  )

  -- The low `k` bits and the bits above them are computed apart.
  pub op-fields :
      (k a b c d : ℕ)
      → c < 2 ^ k
      → d < 2 ^ k
      → op (a * 2 ^ k + c) (b * 2 ^ k + d) ≡ op a b * 2 ^ k + op c d
  op-fields zero a b zero zero hc hd = ground (arith, op-zero)
  op-fields zero a b (suc c) d hc hd = absurd (omega arith)
  op-fields zero a b zero (suc d) hc hd = absurd (omega arith)
  op-fields (suc k) a b c d hc hd = ground (
    arith,
    pow-suc 2 k,
    double-pow a k,
    double-pow b k,
    double-pow (op a b) k,
    op-lowest (a * 2 ^ suc k + c) (b * 2 ^ suc k + d),
    op-lowest c d,
    op-fields k a b (c / 2) (d / 2) (omega (arith, pow-suc 2 k)) (omega (arith, pow-suc 2 k)),
  )
