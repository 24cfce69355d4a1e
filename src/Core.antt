-- ===== src/Core.antt =====
-- harness/core: the gates on the task packets.
pub mod Layout
pub mod Slots
pub mod Verdict
pub mod Candidates
pub mod Rubric
pub mod GateChecks
pub mod PythonChecks
pub mod Gate
pub mod Cleanroom
pub mod Metadata
pub mod Filter
