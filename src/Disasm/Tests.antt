-- ===== src/Disasm/Tests.antt =====
-- The text of single words.
use dez.Base.{◌≡◌, refl, if◌then◌else◌, arith}
use dez.Isa.Instruction.{instruction_type}
use dez.Isa.Statement.{Statement, ArithmeticOp, encode}
use dez.Vm.Table.{get_instruction_info}
use dez.Disasm.Defs.{dez_disasm_instruction, dez_get_instruction_mnemonic}
use dez.Disasm.Text.{listing, is_immediate}
use dez.Disasm.Listing.{is_named, mnemonic_lem, disasm-encode, disasm-immediate}

mnemonic_lem_example :
    dez_get_instruction_mnemonic 0x19
    ≡ (if is_named (instruction_type 0x19) then (get_instruction_info 0x19).mnemonic else "UNKNOWN")
mnemonic_lem_example = mnemonic_lem 0x19

disasm-encode_example :
    dez_disasm_instruction (encode (Statement.load_sum 1 2 3)) ≡ listing (Statement.load_sum 1 2 3)
unfolding is_immediate
disasm-encode_example =
    disasm-encode (Statement.load_sum 1 2 3) refl (omega arith, omega arith, omega arith)

disasm-immediate_example :
    dez_disasm_instruction (encode (Statement.arithmetic_value ArithmeticOp.plus 1 2 5))
    ≡ listing (Statement.arithmetic ArithmeticOp.plus 1 2 0)
disasm-immediate_example = disasm-immediate ArithmeticOp.plus 1 2 5 (omega arith) (omega arith)
