-- ===== src/Arithmetic.antt =====
-- The arithmetic table of evm_arithmetization/src/arithmetic: its columns, and the rows and
-- constraints of addition, subtraction and comparison.
pub mod Fields
pub mod Columns
pub mod Addcy
mod Tests
