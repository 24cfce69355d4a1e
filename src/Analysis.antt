-- ===== src/Analysis.antt =====
-- analysis: the reports on the results of an evaluation.
pub mod EvalLib
pub mod Ledger
pub mod Attribution
