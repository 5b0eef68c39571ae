-- ===== src/Base/Store.antt =====
-- An array as a function from indices to words.
use Prim.Native.Nat.{ℕ}
use mathlib.Core.Path.{◌≡◌, fun_ext}
use mathlib.Core.Logic.{◌≢◌}
use native.Mathlib.Omega.{arith}
use dez.Base.Tests.{◌==◌, if◌then◌else◌}
use dez.Base.Word.{IsWord}

abbrev pub Words : Type 0
Words = ℕ → ℕ

abbrev pub AllWords : Words → Type 0
AllWords f = (i : ℕ) → IsWord (f i)

-- `f[i] = v`
abbrev pub update : Words → ℕ → ℕ → Words
update f i v j = if j == i then v else f j

pub update_self : (f : Words) (i v : ℕ) → update f i v i ≡ v
update_self f i v = ground arith

pub update_ne : (f : Words) {i j : ℕ} (v : ℕ) → j ≢ i → update f i v j ≡ f j
update_ne f v h = ground arith

pub update_same : (f : Words) (i : ℕ) → update f i (f i) ≡ f
update_same f i = fun_ext (λ j. pointwise j)
  where
    pointwise : (j : ℕ) → update f i (f i) j ≡ f j
    pointwise j = ground arith

pub update-update : (f : Words) (i v w : ℕ) → update (update f i v) i w ≡ update f i w
update-update f i v w = fun_ext (λ j. pointwise j)
  where
    pointwise : (j : ℕ) → update (update f i v) i w j ≡ update f i w j
    pointwise j = ground arith

pub update-AllWords : {f : Words} (i : ℕ) {v : ℕ} → AllWords f → IsWord v → AllWords (update f i v)
update-AllWords i h w j = ground (arith, h j)
