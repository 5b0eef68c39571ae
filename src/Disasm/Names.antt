-- ===== src/Disasm/Names.antt =====
-- The names of registers and of system calls, against those of src/core/dez_disasm.c.
use dez.Base.{
  ℕ, zero, suc, ◌<◌, ◌≡◌, refl, sym, subst, Bool-cases, inl, inr, ◌==◌, ==→eq, if◌then◌else◌,
  String, arith,
}
use dez.Disasm.Defs.{name_at, dez_get_register_name, dez_get_syscall_name}

-- The names of the sixteen registers, as the README and the assembler have them.
unfoldable pub register_name : ℕ → String
register_name r =
    if r == 0
    then "R0"
    else if r == 1
    then "R1"
    else if r == 2
    then "R2"
    else if r == 3
    then "R3"
    else if r == 4
    then "R4"
    else if r == 5
    then "R5"
    else if r == 6
    then "R6"
    else if r == 7
    then "R7"
    else if r == 8
    then "R8"
    else if r == 9
    then "R9"
    else if r == 10
    then "R10"
    else if r == 11
    then "R11"
    else if r == 12
    then "R12"
    else if r == 13
    then "R13"
    else if r == 14
    then "R14"
    else "R15"

-- The names of the system calls 1 to 7.
unfoldable pub system_name : ℕ → String
system_name n =
    if n == 1
    then "PRINT"
    else if n == 2
    then "PRINT_STR"
    else if n == 3
    then "PRINT_CHAR"
    else if n == 4
    then "READ"
    else if n == 5
    then "READ_STR"
    else if n == 6
    then "EXIT"
    else if n == 7
    then "DEBUG"
    else "UNKNOWN_SYS"

-- A property of each number below `n`.
abbrev EachBelow : ℕ → (ℕ → Type 0) → Type 0
EachBelow zero P = Unit
EachBelow (suc n) P = P n × EachBelow n P

each : (n : ℕ) (P : ℕ → Type 0) (k : ℕ) → k < n → EachBelow n P → P k
each zero P k h all = absurd (omega (arith, h))
each (suc n) P k h all = elim (Bool-cases (k == n)) [
  | inl same ↦ subst P (sym (==→eq k n same)) all.0
  | inr differ ↦ each n P k (ground (arith, h, differ)) all.1
]

-- The names of the program are these names.
pub register_name_lem : (r : ℕ) → r < 16 → register_name r ≡ dez_get_register_name r
unfolding dez_get_register_name register_name name_at
register_name_lem r h =
    each 16 (λ k. register_name k ≡ dez_get_register_name k) r h
      (
        refl,
        (
          refl,
          (
            refl,
            (
              refl,
              (
                refl,
                (
                  refl,
                  (
                    refl,
                    (refl, (refl, (refl, (refl, (refl, (refl, (refl, (refl, (refl, tt))))))))),
                  ),
                ),
              ),
            ),
          ),
        ),
      )

pub system_name_lem : (n : ℕ) → system_name n ≡ dez_get_syscall_name n
unfolding dez_get_syscall_name system_name
system_name_lem n = refl
