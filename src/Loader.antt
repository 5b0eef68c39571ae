-- ===== src/Loader.antt =====
-- Loading a program file into the machine.
mod Defs
pub mod Image
pub mod Program
mod Errors
mod Tests
unfoldable pub use Defs.*
