-- ===== src/Tests/Outcomes.antt =====
-- The theorems of harness/sandbox.py's aggregation and gap at concrete inputs.
use bmk_dev.Base.{
  true, some, [], ◌∷◌, ◌≡◌, ◌≢◌, ◌↔◌, refl, all, any, contains, string_eq, list_eq, nat_eq,
}
use bmk_dev.Base.Text.{codes}
use bmk_dev.Base.Dict.{lookup, insert}
use bmk_dev.Sandbox.Outcomes.{Outcomes, is_bad, is_passed, aggregate, append_at, reduce}
use bmk_dev.Sandbox.Outcomes.Laws.{cases_of}
use bmk_dev.Sandbox.Outcomes.Verdicts.{
  aggregate-passed, aggregate-failed, aggregate-by_presence, by_presence, vocabulary,
}
use bmk_dev.Tests.Sample.{without_case}

abbrev report : Outcomes
report =
    (codes "t::a[1]", "passed")
    ∷ (codes "t::b", "skipped")
    ∷ (codes "t::a[2]", "failed")
    ∷ (codes "t::c[1]", "passed")
    ∷ (codes "t::c[2]", "passed")
    ∷ []

abbrev result : Outcomes
result = (codes "t::a", "failed") ∷ (codes "t::b", "skipped") ∷ (codes "t::c", "passed") ∷ []

aggregated : aggregate without_case report ≡ some result
unfolding aggregate append_at reduce insert lookup list_eq nat_eq string_eq
aggregated = refl

aggregate-passed_example : (lookup (codes "t::c") result ≡ some "passed") ↔ (
    (cases_of without_case (codes "t::c") report ≢ [])
    × (all is_passed (cases_of without_case (codes "t::c") report) ≡ true))
aggregate-passed_example = aggregate-passed without_case report (codes "t::c") aggregated

aggregate-failed_example :
    (lookup (codes "t::a") result ≡ some "failed")
    ↔ (any is_bad (cases_of without_case (codes "t::a") report) ≡ true)
aggregate-failed_example = aggregate-failed without_case report (codes "t::a") aggregated

known_cases : all (contains vocabulary) (cases_of without_case (codes "t::b") report) ≡ true
unfolding list_eq nat_eq string_eq
known_cases = refl

some_case : cases_of without_case (codes "t::b") report ≢ []
unfolding list_eq nat_eq
some_case e = cc

aggregate-by_presence_example :
    lookup (codes "t::b") result
    ≡ some (by_presence (contains (cases_of without_case (codes "t::b") report)))
aggregate-by_presence_example =
    aggregate-by_presence without_case report (codes "t::b") aggregated known_cases some_case
