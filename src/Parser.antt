-- ===== src/Parser.antt =====
-- src/assembler/dez_parser.c: from tokens to instructions, and from instructions to words.
mod Operands
mod Spelling
mod Encoding
mod Literals
pub mod State
pub mod Statements
mod Lines
pub mod Passes
pub mod Quiet
pub mod Follow
pub mod Looked
pub mod LineSteps
pub mod Total
mod Source
pub mod Mnemonics
pub mod Reads
pub mod OperandText
pub mod StatementText
pub mod Plain
pub mod LineText
pub mod Rounds
pub mod LabelText
pub mod Program
pub mod Executed
pub mod Length
pub mod Defined
pub mod Collected
pub mod FirstPass
pub mod Resolved
pub mod Emitted
pub mod SecondPass
pub mod Assembled
pub mod Sample
mod TextTests
mod Tests
unfoldable pub use Operands.*
