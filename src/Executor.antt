-- ===== src/Executor.antt =====
-- engine/executor: from declarations to predicates.
pub mod Values
pub mod Conditions
pub mod Statement
pub mod Rows
pub mod Tables
pub mod Select
pub mod Selectors
pub mod Modify
pub mod Run
