-- ===== src/Parser/Mnemonics.antt =====
-- The mnemonics: each stands for one type of instruction and a number of operands.
use dez.Base.{◌≡◌, ◌≢◌, refl, true, some, [], length, same_chars}
use dez.Isa.Instruction.{InstructionType}
use dez.Lexer.{lexer_is_alpha, lexer_is_alnum, lexer_is_digit, alpha_table, is_register_token}
use dez.Lexer.Words.{IsName, is_name, is_name-IsName, all}
use dez.Parser.Statements.{Mnemonic, mnemonics, find_mnemonic}
use dez.Parser.Source.{name_of, count_of}

abbrev pub entry : InstructionType → Mnemonic
entry type = record { name = name_of type; type = type; num_operands = count_of type }

found :
    (type : InstructionType)
    → name_of type ≢ []
    → (is_name (name_of type) ≡ true) × (find_mnemonic mnemonics (name_of type) ≡ some (entry type))
unfolding name_of count_of mnemonics find_mnemonic same_chars lexer_is_alpha lexer_is_alnum
    lexer_is_digit alpha_table is_register_token length is_name all
found InstructionType.unknown h = absurd (h refl)
found _ h = (refl, refl)

-- The name is an identifier, and the parser finds the type and the number of operands under it.
pub find_mnemonic-name_of :
    (type : InstructionType)
    → name_of type ≢ []
    → IsName (name_of type) × (find_mnemonic mnemonics (name_of type) ≡ some (entry type))
find_mnemonic-name_of type h = (is_name-IsName (name_of type) (found type h).0, (found type h).1)
