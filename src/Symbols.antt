-- ===== src/Symbols.antt =====
-- The symbol table of the assembler: its operations, and the laws of definition and lookup.
mod Defs
pub mod Find
pub mod Define
pub mod Labels
pub mod Strings
mod Tests
unfoldable pub use Defs.*
