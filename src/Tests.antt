-- ===== src/Tests.antt =====
-- The theorems at concrete inputs, and runs of the model.
mod Sample
mod Outcomes
mod Gap
mod Score
mod Layout
mod Verdict
mod Analysis
mod Candidates
mod Rubric
mod Evaluate
mod Python
mod Go
mod Gate
mod Cleanroom
mod Scopes
mod Rust
mod Metadata
mod Clauses
mod TypeScript
mod Filter
mod Java
