-- ===== src/Tests/Clauses.antt =====
-- The quotes of a small specification.
use bmk_dev.Base.{
  ℕ, zero, suc, ◌+◌, ◌<◌, Bool, true, false, not, some, List, [], ◌∷◌, list_eq, nat_eq, map, ◌≡◌,
  ◌↔◌, refl, sym, ◌∙◌, arith, ap, all, any, drop, get_elem?,
}
use mathlib.Core.Bool.{true≢false}
use bmk_dev.Base.Text.{Text, codes, has_text}
use bmk_dev.Clauses.Rows.{norm, words, is_row}
use bmk_dev.Clauses.Verify.{family, after_family, clauses_loop, dupes_loop, verify}
use bmk_dev.Clauses.Verified.{AreDistinct, clause, clause_lines, verify-passes}
use bmk_dev.Clauses.Prose.{units_loop, read_block, is_banner_block, longest, heading}
use bmk_dev.Clauses.Coverage.{
  UnitSpan, spans_loop, prose_of, first_at, find_loop, mark, cover_loop, cover, result_of,
  load_quotes, run, gaps_loop, run_loop,
}
use bmk_dev.Clauses.Coverage.Marks.{is_covered}
use bmk_dev.Clauses.Coverage.Exact.{InQuote, cover-exact}
use bmk_dev.Clauses.Coverage.Reports.{is_covered-drop, results-report}
use bmk_dev.Tests.Sample.{numbers}

abbrev spec : Text
spec = codes "Alpha holds.\n  Beta is left\n out."

abbrev lines : List Text
lines =
    codes "## TOY"
    ∷ codes "- **TOY-INV-001** — *Alpha.* \"Alpha holds.\""
    ∷ codes "- **TOY-INV-002** — *Beta.* \"left out.\""
    ∷ []

passes : verify spec lines ≡ 0
unfolding verify clauses_loop dupes_loop words list_eq nat_eq
passes = refl

verify-passes_example :
    (fam : Text) × (family lines ≡ some fam)
    × (all (is_row (after_family fam)) (clause_lines fam lines) ≡ true)
    × (all (λ line. has_text (clause fam line).quote (norm spec)) (clause_lines fam lines) ≡ true)
    × AreDistinct [] (map (clause fam) (clause_lines fam lines))
verify-passes_example = verify-passes spec lines passes

-- Between the two quotes stands a run of seven characters, without its spaces.
gap_is_found : run numbers (λ section. true) 5 10000 spec (spec ∷ []) lines ≡ 1
unfolding run load_quotes units_loop read_block is_banner_block longest heading spans_loop
    cover_loop find_loop first_at mark gaps_loop run_loop words list_eq nat_eq
gap_is_found = refl

short_run_is_passed : run numbers (λ section. true) 8 10000 spec (spec ∷ []) lines ≡ 0
unfolding run load_quotes units_loop read_block is_banner_block longest heading spans_loop
    cover_loop find_loop first_at mark gaps_loop run_loop words list_eq nat_eq
short_run_is_passed = refl

clauses_are_stale : run numbers (λ section. true) 5 9500 (codes "Other.") (spec ∷ []) lines ≡ 2
unfolding run load_quotes words list_eq nat_eq
clauses_are_stale = refl

abbrev quotes : List Text
quotes = codes "ana" ∷ codes "ban" ∷ []

-- The occurrences overlap.
cover-exact_example :
    (is_covered (cover (codes "a banana") quotes) 7 ≡ true) ↔ InQuote (codes "a banana") quotes 7
cover-exact_example = cover-exact (codes "a banana") quotes 7

abbrev units : List (Text × Text)
units = (codes "Scope", spec) ∷ []

abbrev span : UnitSpan
span = record { section = codes "Scope"; start = 0; text = codes "Alpha holds. Beta is left out." }

abbrev quoted : List Text
quoted = codes "Alpha holds." ∷ []

one_span : get_elem? (spans_loop 0 false units) 0 ≡ some span
unfolding spans_loop words nat_eq
one_span = refl

nothing_covered_in : (bs : List Bool) → all not bs ≡ true → (k : ℕ) → is_covered bs k ≡ false
unfolding is_covered
nothing_covered_in [] h k = refl
nothing_covered_in (b ∷ bs) h zero = ground arith
nothing_covered_in (b ∷ bs) h (suc k) = nothing_covered_in bs (ground arith) k

covered_in : List Bool
covered_in = cover (prose_of (spans_loop 0 false units)) quoted

rest_is_bare : all not (drop 13 covered_in) ≡ true
unfolding covered_in cover_loop find_loop first_at mark spans_loop words nat_eq
rest_is_bare = refl

bare : (j : ℕ) → j < 17 → ¬ InQuote (prose_of (spans_loop 0 false units)) quoted (0 + (13 + j))
unfolding covered_in
bare j l h =
    let same : 0 + (13 + j) ≡ 13 + j = omega arith in
    let free : is_covered covered_in (0 + (13 + j)) ≡ false =
      ap (λ (k : ℕ). is_covered covered_in k) same
      ∙ sym (is_covered-drop 13 covered_in j)
      ∙ nothing_covered_in (drop 13 covered_in) rest_is_bare j in
    let quoted_there =
      (cover-exact (prose_of (spans_loop 0 false units)) quoted (0 + (13 + j))).1 h in
    true≢false (sym quoted_there ∙ free)

results-report_example :
    any
      (has_text (codes "Beta is left out."))
      (result_of 5 (cover (prose_of (spans_loop 0 false units)) quoted) span).gaps
    ≡ true
unfolding list_eq nat_eq
results-report_example =
    results-report units quoted 5 0 span (codes "Alpha holds. ") (codes "Beta is left out.") []
      one_span refl refl (omega arith) bare
