-- ===== src/Vm/Protection.antt =====
-- The read-only code segment: every instruction but STORE respects it.
use dez.Base.{ℕ, ◌<◌, ◌≡◌, ◌≢◌, refl, true, false, IsWord, arith, [], ◌∷◌, ◌++◌}
use dez.Isa.Instruction.{InstructionType}
use dez.Memory.{memory_is_code_segment, memory_write_word}
use dez.Memory.Access.{is_protected, can_store}
use dez.Vm.State.{
  Vm, print_all, set_state, set_reg, set_pc, set_sp, set_flags, read_word, write_word,
  validate_register, validate_memory_address,
}
use dez.Event.{write_read_only}
use dez.Isa.Decode.{decode_reg1, decode_reg2, decode_immediate}
use dez.Isa.Fields.{decode_reg1-lt, decode_reg2-lt}
use dez.Vm.Transfer.{poke, execute_store, execute_store_indirect}
use dez.Vm.Step.{dez_vm_step}
use dez.Vm.Valid.{IsValid}
use dez.Vm.Effects.{write_word-words, write_word-readonly, read_word-words, read_word-readonly}
use dez.Vm.Keeps.Primitive.{Keeps}
use dez.Vm.Keeps.Run.{current_type, step-keeps}
use dez.Vm.Invariant.{IsValid-Keeps}

-- The code is protected, and its words are those of `start`.
pub record CodeKept (start vm : Vm) : Type 0 where
  pub valid : IsValid vm
  pub readonly : vm.memory.code_readonly ≡ true
  pub code : (a : ℕ) → a < 0x400 → vm.memory.memory a ≡ start.memory.memory a

-- A valid machine stores nothing in protected code.
cannot_store :
    (vm : Vm) (a : ℕ)
    → IsValid vm
    → vm.memory.code_readonly ≡ true
    → a < 0x400
    → can_store vm.memory a ≡ false
unfolding is_protected memory_is_code_segment
cannot_store vm a v readonly h = ground (arith, v.memory.code_start, v.memory.code_end)

module _ (start : Vm) where
  CodeKept-write_word :
      (a n : ℕ) (vm : Vm) → IsWord n → CodeKept start vm → CodeKept start (write_word a n vm)
  CodeKept-write_word a n vm w k = record {
    valid = IsValid-Keeps.by_write_word a n vm w k.valid;
    readonly = ground (arith, write_word-readonly a n vm, k.readonly);
    code = λ c low.
        ground
          (arith, write_word-words a n vm c, cannot_store vm a k.valid k.readonly, k.code c low);
  }

  CodeKept-read_word : (a : ℕ) (vm : Vm) → CodeKept start vm → CodeKept start (read_word a vm).1
  CodeKept-read_word a vm k = record {
    valid = IsValid-Keeps.by_read_word a vm k.valid;
    readonly = rw read_word-readonly k.readonly;
    code = λ c low. rw read_word-words (k.code c low);
  }

  CodeKept-Keeps : Keeps (CodeKept start)
  unfolding print_all set_state set_reg set_pc set_sp set_flags
  CodeKept-Keeps = record {
    valid = λ k. k.valid;
    by_print_all = λ log k. record {
      valid = IsValid-Keeps.by_print_all log k.valid;
      readonly = k.readonly;
      code = k.code;
    };
    by_set_state = λ s k. record {
      valid = IsValid-Keeps.by_set_state s k.valid;
      readonly = k.readonly;
      code = k.code;
    };
    by_set_reg = λ r n h w k. record {
      valid = IsValid-Keeps.by_set_reg r n h w k.valid;
      readonly = k.readonly;
      code = k.code;
    };
    by_set_pc = λ n w k. record {
      valid = IsValid-Keeps.by_set_pc n w k.valid;
      readonly = k.readonly;
      code = k.code;
    };
    by_set_sp = λ n w k. record {
      valid = IsValid-Keeps.by_set_sp n w k.valid;
      readonly = k.readonly;
      code = k.code;
    };
    by_set_flags = λ n w k. record {
      valid = IsValid-Keeps.by_set_flags n w k.valid;
      readonly = k.readonly;
      code = k.code;
    };
    by_read_word = CodeKept-read_word;
    by_write_word = CodeKept-write_word;
  }

-- With the code protected, a step of a valid machine whose current instruction is not STORE changes
-- no word of the code segment, and leaves the protection on.
pub step-CodeKept :
    (vm : Vm)
    → IsValid vm
    → vm.memory.code_readonly ≡ true
    → current_type vm ≢ InstructionType.store
    → CodeKept vm (dez_vm_step vm)
step-CodeKept vm v readonly other =
    step-keeps (CodeKept-Keeps vm) vm (λ is_store. absurd (other is_store))
      (record { valid = v; readonly = readonly; code = λ a _. refl })

-- On protected code STORE and STORE_INDIRECT part ways: for an address of the code segment, STORE
-- puts the register there, while STORE_INDIRECT, with that address in its second register, changes
-- no word, prints the write error and leaves the machine's state as it was.
pub execute_store-unprotected :
    (inst inst' : ℕ) (vm : Vm)
    → IsValid vm
    → vm.memory.code_readonly ≡ true
    → decode_immediate inst < 0x400
    → vm.cpu.regs (decode_reg2 inst') ≡ decode_immediate inst
    → ((execute_store inst vm).memory.memory (decode_immediate inst)
        ≡ vm.cpu.regs (decode_reg1 inst))
      × ((execute_store_indirect inst' vm).memory.memory ≡ vm.memory.memory)
      × ((execute_store_indirect inst' vm).stdout
          ≡ vm.stdout ++ write_read_only (decode_immediate inst) ∷ [])
      × ((execute_store_indirect inst' vm).cpu ≡ vm.cpu)
unfolding execute_store execute_store_indirect poke validate_register validate_memory_address
    write_word memory_write_word memory_is_code_segment
execute_store-unprotected inst inst' vm v readonly low same = (
  ground (arith, decode_reg1-lt inst),
  ground
      (arith, decode_reg1-lt inst', decode_reg2-lt inst', v.memory.code_start, v.memory.code_end),
  ground
      (arith, decode_reg1-lt inst', decode_reg2-lt inst', v.memory.code_start, v.memory.code_end),
  ground
      (arith, decode_reg1-lt inst', decode_reg2-lt inst', v.memory.code_start, v.memory.code_end),
)
