-- ===== src/Tests.antt =====
-- Runs of the modelled code at concrete inputs.
pub mod Data
pub mod Sessions
pub mod Auth
pub mod Policy
pub mod Evolution
pub mod Retrieval
pub mod Lexical
pub mod Migration
pub mod Evaluation
