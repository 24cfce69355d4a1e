-- ===== src/Sandbox.antt =====
-- harness/sandbox.py: the scoring sandbox, one child for each part of it.
pub mod Outcomes
pub mod Gap
pub mod Docker
pub mod Suite
pub mod Provenance
pub mod Results
pub mod Score
