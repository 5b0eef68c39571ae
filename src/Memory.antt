-- ===== src/Memory.antt =====
-- src/core/dez_memory.h and dez_memory.c. The state and the operations stand in `Defs`, the laws in
-- the other children.
mod Defs
pub mod Access
pub mod Bytes
mod Tests
unfoldable pub use Defs.*
