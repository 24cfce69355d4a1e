-- ===== src/Tests/Gap.antt =====
-- The theorems of the index by name and of the cascade filter at concrete inputs.
use bmk_dev.Base.{some, [], ◌∷◌, ◌≡◌, refl, string_eq, list_eq, nat_eq, option_eq}
use bmk_dev.Base.Text.{codes}
use bmk_dev.Base.Dict.{lookup, insert, NodupKeys}
use bmk_dev.Sandbox.Outcomes.{Outcomes}
use bmk_dev.Sandbox.Gap.{
  suite_outcomes_by_name, compute_adjusted_gap, suite_prefix, index_one, leaf, gap_of_indexes,
  gap_of_counts, eligible_loop,
}
use bmk_dev.Sandbox.Gap.Names.{suite_leaves, suite_outcomes-faithful}
use bmk_dev.Sandbox.Gap.Cascade.{
  IsEvidence, compute_adjusted_gap-IsEvidence, compute_adjusted_gap-cascade,
}
use bmk_dev.Tests.Sample.{numbers, runner}

abbrev tests : Outcomes
tests =
    (codes "atomic::a", "passed")
    ∷ (codes "atomic::m::b", "failed")
    ∷ (codes "integration::a", "passed")
    ∷ (codes "integration::b", "failed")
    ∷ []

-- The same run, but for the test whose prerequisite failed.
abbrev lucky : Outcomes
lucky =
    (codes "atomic::a", "passed")
    ∷ (codes "atomic::m::b", "failed")
    ∷ (codes "integration::a", "passed")
    ∷ (codes "integration::b", "passed")
    ∷ []

no_ambiguity : (suite_outcomes_by_name tests (codes "atomic")).ambiguous ≡ []
unfolding suite_outcomes_by_name index_one leaf lookup insert list_eq nat_eq
no_ambiguity = refl

suite_outcomes-faithful_example :
    (suite_outcomes_by_name tests (codes "atomic")).outcomes ≡ suite_leaves tests (codes "atomic")
suite_outcomes-faithful_example = suite_outcomes-faithful tests (codes "atomic") no_ambiguity

distinct : NodupKeys (runner.dependencies 0)
unfolding lookup list_eq nat_eq
distinct = (refl, (refl, tt))

gap_here : (compute_adjusted_gap numbers 0 tests 5000 runner).adjusted_gap ≡ some 0
unfolding compute_adjusted_gap gap_of_indexes gap_of_counts eligible_loop suite_outcomes_by_name
    index_one leaf suite_prefix lookup insert list_eq nat_eq string_eq option_eq
gap_here = refl

compute_adjusted_gap-IsEvidence_example :
    IsEvidence numbers
      (runner.dependencies 0)
      (suite_outcomes_by_name tests (suite_prefix runner (codes "atomic")))
      (suite_outcomes_by_name tests (suite_prefix runner (codes "integration")))
      (compute_adjusted_gap numbers 0 tests 5000 runner)
      0
compute_adjusted_gap-IsEvidence_example =
    compute_adjusted_gap-IsEvidence numbers 0 runner 5000 tests distinct gap_here

compute_adjusted_gap-cascade_example :
    compute_adjusted_gap numbers 0 tests 5000 runner
    ≡ compute_adjusted_gap numbers 0 lucky 5000 runner
unfolding suite_outcomes_by_name index_one leaf suite_prefix lookup insert list_eq nat_eq string_eq
    option_eq
compute_adjusted_gap-cascade_example =
    compute_adjusted_gap-cascade numbers 0 runner 5000 tests lucky refl refl refl
      (refl, (λ h. refl), (refl, (λ h. cc), tt))
