-- ===== src/Rules.antt =====
-- internal/rules: the compiler and the evaluator of rule sets.
pub mod Path
pub mod Compare
pub mod Predicate
pub mod Template
pub mod Effects
pub mod Evaluator
pub mod Validation
pub mod Compiler
pub mod Contract
pub mod Samples
mod Tests
