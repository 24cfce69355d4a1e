-- ===== src/Clauses.antt =====
-- harness/verify_clauses.py and harness/clause_span_coverage.py: the quotes of the clauses of a
-- specification, against its prose.
pub mod Rows
pub mod Verify
pub mod Verified
pub mod Prose
pub mod Coverage
