-- ===== src/Base/Word.antt =====
-- `uint32_t` and `uint8_t`: a word is a native number below 2 ^ 32, with C's wrap-around.
use Prim.Native.Nat.{ℕ, ◌+◌, ◌-◌, ◌*◌, ◌/◌, ◌%◌, ◌^◌, ◌<◌}
use native.Mathlib.Omega.{arith}

abbrev pub u8 : ℕ → ℕ
u8 n = n % 2 ^ 8

abbrev pub u32 : ℕ → ℕ
u32 n = n % 2 ^ 32

abbrev pub IsWord : ℕ → Type 0
IsWord n = n < 2 ^ 32

infixl 75 ◌<<◌ ◌>>◌
abbrev pub ◌<<◌ : ℕ → ℕ → ℕ
x << k = x * 2 ^ k

abbrev pub ◌>>◌ : ℕ → ℕ → ℕ
x >> k = x / 2 ^ k

-- `a + b`, `a - b`, `a * b` and `~a` on `uint32_t`.
abbrev pub add32 : ℕ → ℕ → ℕ
add32 a b = u32 (a + b)

abbrev pub sub32 : ℕ → ℕ → ℕ
sub32 a b = u32 (a + 2 ^ 32 - b)

abbrev pub mul32 : ℕ → ℕ → ℕ
mul32 a b = u32 (a * b)

abbrev pub not32 : ℕ → ℕ
not32 a = 2 ^ 32 - 1 - a

pub u32-IsWord : (n : ℕ) → IsWord (u32 n)
u32-IsWord n = omega arith

pub not32-IsWord : (n : ℕ) → IsWord (not32 n)
not32-IsWord n = omega arith

pub div-IsWord : (a b : ℕ) → IsWord a → IsWord (a / b)
div-IsWord a b h = grind arith
