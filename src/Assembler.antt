-- ===== src/Assembler.antt =====
-- src/assembler/dez_assembler.c: from the text of a program to its file.
mod Defs
mod Driver
mod Hex
pub mod Composed
pub mod Machine
mod Strings
mod Tests
unfoldable pub use Defs.*
unfoldable pub use Driver.*
