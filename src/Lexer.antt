-- ===== src/Lexer.antt =====
-- src/assembler/dez_lexer.h and dez_lexer.c: from characters to tokens.
mod Defs
mod Tokens
mod Scan
pub mod Registers
mod Skip
pub mod Consumed
pub mod Progress
pub mod Pending
pub mod Reads
pub mod Decimal
pub mod Signs
pub mod Words
mod Tests
unfoldable pub use Defs.*
unfoldable pub use Tokens.*
unfoldable pub use Scan.*
