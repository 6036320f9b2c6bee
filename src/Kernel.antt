-- ===== src/Kernel.antt =====
-- The kernel assembler of evm_arithmetization: its optimizer, evm_arithmetization/src/cpu/kernel,
-- and the operators that the witness generator computes, evm_arithmetization/src/arithmetic and
-- evm_arithmetization/src/logic.rs.
pub mod U256
pub mod Ast
pub mod Windows
pub mod Operators
pub mod Cost
pub mod Machine
pub mod Optimizer
