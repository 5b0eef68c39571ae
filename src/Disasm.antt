-- ===== src/Disasm.antt =====
-- The disassembler: the text of a word, against the statement that was encoded.
mod Defs
mod Names
mod Text
mod Listing
mod Tests
unfoldable pub use Defs.*
