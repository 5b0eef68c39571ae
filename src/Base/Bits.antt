-- ===== src/Base/Bits.antt =====
-- `&`, `|` and `^` at variables.
mod Lowest
mod Masks
pub use Masks.*
