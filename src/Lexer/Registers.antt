-- ===== src/Lexer/Registers.antt =====
-- The names of registers: R0 to R15, and no other token.
use dez.Base.{ℕ, ◌+◌, ◌-◌, ◌<◌, ◌≡◌, true, [], ◌∷◌, ltb, if◌then◌else◌, Chars, arith}
use dez.Lexer.Defs.{is_register_token, number_of, register_name_to_number}

-- The name of register `r`, in decimal.
unfoldable pub register_name : ℕ → Chars
register_name r = if ltb r 10 then 82 ∷ (48 + r) ∷ [] else 82 ∷ 49 ∷ (48 + (r - 10)) ∷ []

-- The names of the sixteen registers are register tokens, and stand for their numbers.
named :
    (r : ℕ)
    → r < 16
    → (is_register_token (register_name r) ≡ true) × (register_name_to_number (register_name r) ≡ r)
unfolding register_name is_register_token register_name_to_number number_of
named r h = ground arith

-- A register token is the name of the register that it stands for.
spelled_so :
    (name : Chars)
    → is_register_token name ≡ true
    → (register_name_to_number name < 16) × (name ≡ register_name (register_name_to_number name))
unfolding register_name is_register_token register_name_to_number number_of
spelled_so [] h = ground arith
spelled_so (r ∷ []) h = ground arith
spelled_so (r ∷ d ∷ []) h = ground arith
spelled_so (r ∷ d ∷ e ∷ []) h = ground arith
spelled_so (r ∷ d ∷ e ∷ f ∷ rest) h = ground arith

-- The sixteen names and the sixteen numbers correspond: the name of a number below 16 is a register
-- token that stands for it, and a register token is the name of the number, below 16, that it
-- stands for.
pub register_names :
    ((r : ℕ)
      → r < 16
      → (is_register_token (register_name r) ≡ true)
        × (register_name_to_number (register_name r) ≡ r))
    × ((name : Chars)
        → is_register_token name ≡ true
        → (register_name_to_number name < 16)
          × (name ≡ register_name (register_name_to_number name)))
register_names = (named, spelled_so)
