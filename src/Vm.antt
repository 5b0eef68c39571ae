-- ===== src/Vm.antt =====
-- The machine: its state, the instructions, the dispatch table, and the step and run functions; then
-- what is proved of them.
pub mod State
pub mod Sample
pub mod Alu
pub mod Transfer
pub mod Flow
pub mod Stack
pub mod Sys
pub mod Table
pub mod Step
pub mod Valid
pub mod Keeps
pub mod Invariant
pub mod Effects
pub mod Bounds
pub mod Protection
pub mod RoundTrip
pub mod Compare
pub mod Run
pub mod Slide
pub mod Text
pub mod Meaning
pub mod Correct
pub mod Fetch
pub mod Counter
pub mod Corner
mod Tests
