-- ===== src/Isa.antt =====
-- The instruction set: opcodes, word layout, and how the two are packed and taken apart.
pub mod Instruction
pub mod Decode
pub mod Encode
pub mod Fields
pub mod RoundTrip
pub mod Statement
pub mod Range
mod Tests
