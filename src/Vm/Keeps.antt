-- ===== src/Vm/Keeps.antt =====
-- Properties that every instruction keeps: it is enough that each primitive update keeps them.
pub mod Primitive
pub mod Registers
pub mod Transfers
pub mod Run
