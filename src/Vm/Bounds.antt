-- ===== src/Vm/Bounds.antt =====
-- No step writes outside the machine's arrays.
use dez.Base.{ℕ, ◌<◌, ◌≤◌, ◌≡◌, refl, IsWord, arith}
use dez.Memory.{memory_size_words}
use dez.Vm.State.{
  Vm, print_all, set_state, set_reg, set_pc, set_sp, set_flags, read_word, write_word,
}
use dez.Vm.Transfer.{poke}
use dez.Vm.Step.{dez_vm_step}
use dez.Vm.Valid.{IsValid, set_reg-IsValid, poke-IsValid}
use dez.Vm.Effects.{write_word-words, read_word-words}
use dez.Vm.Keeps.Primitive.{Keeps}
use dez.Vm.Keeps.Run.{step-keeps}
use dez.Vm.Invariant.{IsValid-Keeps}

-- Nothing outside the 16 registers and the 4096 words has changed since `start`.
pub record InBounds (start vm : Vm) : Type 0 where
  pub valid : IsValid vm
  pub regs : (r : ℕ) → 16 ≤ r → vm.cpu.regs r ≡ start.cpu.regs r
  pub words : (a : ℕ) → 4096 ≤ a → vm.memory.memory a ≡ start.memory.memory a

module _ (start : Vm) where
  InBounds-set_reg :
      (r n : ℕ) {vm : Vm} → r < 16 → IsWord n → InBounds start vm → InBounds start (set_reg r n vm)
  unfolding set_reg
  InBounds-set_reg r n h w b = record {
    valid = set_reg-IsValid r n w b.valid;
    regs = λ q out. ground (arith, b.regs q out);
    words = b.words;
  }

  InBounds-write_word :
      (a n : ℕ) (vm : Vm) → IsWord n → InBounds start vm → InBounds start (write_word a n vm)
  unfolding write_word
  InBounds-write_word a n vm w b = record {
    valid = IsValid-Keeps.by_write_word a n vm w b.valid;
    regs = b.regs;
    words = λ c out. ground (arith, b.words c out, write_word-words a n vm c);
  }

  InBounds-read_word : (a : ℕ) (vm : Vm) → InBounds start vm → InBounds start (read_word a vm).1
  unfolding read_word
  InBounds-read_word a vm b = record {
    valid = IsValid-Keeps.by_read_word a vm b.valid;
    regs = b.regs;
    words = λ c out. rw read_word-words (b.words c out);
  }

  InBounds-poke :
      (a n : ℕ) (vm : Vm)
      → a < memory_size_words
      → IsWord n
      → InBounds start vm
      → InBounds start (poke a n vm)
  unfolding poke
  InBounds-poke a n vm h w b = record {
    valid = poke-IsValid a n vm w b.valid;
    regs = b.regs;
    words = λ c out. ground (arith, b.words c out);
  }

  InBounds-Keeps : Keeps (InBounds start)
  unfolding print_all set_state set_pc set_sp set_flags
  InBounds-Keeps = record {
    valid = λ b. b.valid;
    by_print_all = λ log b. record {
      valid = IsValid-Keeps.by_print_all log b.valid;
      regs = b.regs;
      words = b.words;
    };
    by_set_state = λ s b. record {
      valid = IsValid-Keeps.by_set_state s b.valid;
      regs = b.regs;
      words = b.words;
    };
    by_set_reg = InBounds-set_reg;
    by_set_pc = λ n w b. record {
      valid = IsValid-Keeps.by_set_pc n w b.valid;
      regs = b.regs;
      words = b.words;
    };
    by_set_sp = λ n w b. record {
      valid = IsValid-Keeps.by_set_sp n w b.valid;
      regs = b.regs;
      words = b.words;
    };
    by_set_flags = λ n w b. record {
      valid = IsValid-Keeps.by_set_flags n w b.valid;
      regs = b.regs;
      words = b.words;
    };
    by_read_word = InBounds-read_word;
    by_write_word = InBounds-write_word;
  }

-- A step of a valid machine writes no register from R16 on and no word from 4096 on: it stays within
-- the two arrays.
pub step-InBounds : (vm : Vm) → IsValid vm → InBounds vm (dez_vm_step vm)
step-InBounds vm v =
    step-keeps (InBounds-Keeps vm) vm (λ _ w a n h word b. InBounds-poke vm a n w h word b)
      (record { valid = v; regs = λ r _. refl; words = λ a _. refl })
