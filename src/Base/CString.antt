-- ===== src/Base/CString.antt =====
-- C strings: the bytes before the terminating zero; and arrays of any type.
use Prim.Native.Char.{code}
use Prim.Native.String.{String}
use Prim.Native.Nat.{ℕ, zero, suc, ◌+◌, ◌≤◌}
use mathlib.Core.Path.{◌≡◌, refl, ap}
use mathlib.Core.Bool.{Bool, true, false, ◌&&◌}
use mathlib.Core.List.{List, [], ◌∷◌, ◌++◌}
use native.Mathlib.Omega.{arith}
use dez.Base.Tests.{◌==◌, if◌then◌else◌}

abbrev pub Chars : Type 0
Chars = List ℕ

-- The bytes of a literal.
abbrev pub codes : String → Chars
codes String.[] = []
codes (String.◌∷◌ c s) = code c ∷ codes s

unfoldable pub length {ℓ} : {A : Type ℓ} → List A → ℕ
length [] = 0
length (x ∷ xs) = suc (length xs)

unfoldable pub take {ℓ} : {A : Type ℓ} → ℕ → List A → List A
take zero xs = []
take (suc n) [] = []
take (suc n) (x ∷ xs) = x ∷ take n xs

-- `strcmp(a, b) == 0`
unfoldable pub same_chars : Chars → Chars → Bool
same_chars [] [] = true
same_chars [] (d ∷ ds) = false
same_chars (c ∷ cs) [] = false
same_chars (c ∷ cs) (d ∷ ds) = c == d && same_chars cs ds

-- `f[i] = v`
abbrev pub assign {ℓ} : {A : Type ℓ} → (ℕ → A) → ℕ → A → ℕ → A
assign f i v j = if j == i then v else f j

pub take-all {ℓ} : {A : Type ℓ} (n : ℕ) (xs : List A) → length xs ≤ n → take n xs ≡ xs
unfolding length take
take-all zero [] h = refl
take-all zero (x ∷ xs) h = absurd (omega arith)
take-all (suc n) [] h = refl
take-all (suc n) (x ∷ xs) h = ap (λ rest. x ∷ rest) (take-all n xs (omega arith))

pub same_chars_refl : (cs : Chars) → same_chars cs cs ≡ true
unfolding same_chars
same_chars_refl [] = refl
same_chars_refl (c ∷ cs) = ground (arith, same_chars_refl cs)

pub same_chars-eq : (cs ds : Chars) → same_chars cs ds ≡ true → cs ≡ ds
unfolding same_chars
same_chars-eq [] [] h = refl
same_chars-eq [] (d ∷ ds) h = ground arith
same_chars-eq (c ∷ cs) [] h = ground arith
same_chars-eq (c ∷ cs) (d ∷ ds) h = ground (arith, same_chars-eq cs ds)

pub length-append : (xs ys : List ℕ) → length (xs ++ ys) ≡ length xs + length ys
unfolding length
length-append [] ys = omega arith
length-append (x ∷ xs) ys = omega (arith, length-append xs ys)

pub append_assoc : (xs ys zs : List ℕ) → (xs ++ ys) ++ zs ≡ xs ++ (ys ++ zs)
append_assoc [] ys zs = refl
append_assoc (x ∷ xs) ys zs = ap (λ rest. x ∷ rest) (append_assoc xs ys zs)
