-- ===== src/Sandbox/Outcomes/Verdicts.antt =====
-- When a function passes, when it fails, and which other outcome it has: `aggregate` read off the
-- set of the outcomes of the function's cases.
use mathlib.Core.Bool.{false≢true}
use mathlib.Core.Option.{or_else}
use text.Mathlib.TextEquality.{eq_iff}
use bmk_dev.Base.{
  Bool, true, false, ◌||◌, not, some, List, [], ◌∷◌, String, any, all, first, contains, string_eq,
  list_eq, nat_eq, if◌then◌else◌, ◌≡◌, refl, ◌∙◌, arith, ◌↔◌, ◌≢◌,
}
use bmk_dev.Base.Text.{Text}
use bmk_dev.Base.Dict.{lookup}
use bmk_dev.Sandbox.Outcomes.{Outcomes, is_bad, is_passed, reduce, aggregate}
use bmk_dev.Sandbox.Outcomes.Laws.{cases_of, outcome_of, lookup-aggregate}

failed-ne-passed : ◌≢◌ {A = String} "failed" "passed"
failed-ne-passed p = false≢true ((eq_iff "failed" "passed").1 p)

xpassed-ne-passed : ◌≢◌ {A = String} "xpassed" "passed"
xpassed-ne-passed p = false≢true ((eq_iff "xpassed" "passed").1 p)

skipped-ne-passed : ◌≢◌ {A = String} "skipped" "passed"
skipped-ne-passed p = false≢true ((eq_iff "skipped" "passed").1 p)

xfailed-ne-passed : ◌≢◌ {A = String} "xfailed" "passed"
xfailed-ne-passed p = false≢true ((eq_iff "xfailed" "passed").1 p)

error-ne-passed : ◌≢◌ {A = String} "error" "passed"
error-ne-passed p = false≢true ((eq_iff "error" "passed").1 p)

not_passed_found-ne : (os : List String) → first (λ o. not (is_passed o)) os ≢ some "passed"
not_passed_found-ne [] = λ e. cc
not_passed_found-ne (o ∷ os) = ground (arith, not_passed_found-ne os)

passed-not-bad : (os : List String) → all is_passed os ≡ true → any is_bad os ≡ false
passed-not-bad [] h = refl
passed-not-bad (o ∷ os) h = ground (arith, failed-ne-passed, error-ne-passed, passed-not-bad os)

reduce-passed : (os : List String) → (reduce os ≡ some "passed") ↔ (all is_passed os ≡ true)
unfolding reduce or_else
reduce-passed os = ground (
  arith,
  passed-not-bad os,
  not_passed_found-ne os,
  failed-ne-passed,
  xpassed-ne-passed,
  skipped-ne-passed,
  xfailed-ne-passed,
)

-- The outcomes that pytest reports.
abbrev pub vocabulary : List String
vocabulary = "passed" ∷ "failed" ∷ "error" ∷ "xpassed" ∷ "skipped" ∷ "xfailed" ∷ []

-- The outcome by which outcomes occur, the worst first.
abbrev pub by_presence : (String → Bool) → String
by_presence has =
    if has "failed" || has "error"
    then "failed"
    else if has "xpassed"
    then "xpassed"
    else if has "skipped"
    then "skipped"
    else if has "xfailed"
    then "xfailed"
    else "passed"

any_bad-contains :
    (os : List String) → any is_bad os ≡ (contains os "failed" || contains os "error")
any_bad-contains [] = refl
any_bad-contains (o ∷ os) = ground (arith, any_bad-contains os)

all_passed-contains :
    (os : List String)
    → all (contains vocabulary) os ≡ true
    → all is_passed os
      ≡ not (
          contains os "failed"
          || contains os "error"
          || contains os "xpassed"
          || contains os "skipped"
          || contains os "xfailed")
all_passed-contains [] h = refl
all_passed-contains (o ∷ os) h = ground (
  arith,
  failed-ne-passed,
  error-ne-passed,
  xpassed-ne-passed,
  skipped-ne-passed,
  xfailed-ne-passed,
  all_passed-contains os,
)

not_passed_found-ne_bad :
    (os : List String) → any is_bad os ≡ false → first (λ o. not (is_passed o)) os ≢ some "failed"
not_passed_found-ne_bad [] h = λ e. cc
not_passed_found-ne_bad (o ∷ os) h = ground (arith, not_passed_found-ne_bad os)

xpassed-ne-failed : ◌≢◌ {A = String} "xpassed" "failed"
xpassed-ne-failed p = false≢true ((eq_iff "xpassed" "failed").1 p)

skipped-ne-failed : ◌≢◌ {A = String} "skipped" "failed"
skipped-ne-failed p = false≢true ((eq_iff "skipped" "failed").1 p)

xfailed-ne-failed : ◌≢◌ {A = String} "xfailed" "failed"
xfailed-ne-failed p = false≢true ((eq_iff "xfailed" "failed").1 p)

reduce-failed : (os : List String) → (reduce os ≡ some "failed") ↔ (any is_bad os ≡ true)
unfolding reduce or_else
reduce-failed os = ground (
  arith,
  not_passed_found-ne_bad os,
  failed-ne-passed,
  xpassed-ne-failed,
  skipped-ne-failed,
  xfailed-ne-failed,
)

reduce-by_presence :
    (os : List String)
    → all (contains vocabulary) os ≡ true
    → reduce os ≡ some (by_presence (contains os))
unfolding reduce or_else
reduce-by_presence os h = ground (arith, any_bad-contains os, all_passed-contains os)

module _ (key_of : Text → Text) (cases : Outcomes) (key : Text) {r : Outcomes}
    (done : aggregate key_of cases ≡ some r) where
  -- A function's outcome is "passed" exactly when the report has a case of it and every one of its
  -- cases passed.
  pub aggregate-passed :
      (lookup key r ≡ some "passed")
      ↔ ((cases_of key_of key cases ≢ []) × (all is_passed (cases_of key_of key cases) ≡ true))
  aggregate-passed =
      rw (lookup-aggregate key_of cases key r done) (by_cases (cases_of key_of key cases))
    where
      by_cases :
          (os : List String)
          → (outcome_of os ≡ some "passed") ↔ ((os ≢ []) × (all is_passed os ≡ true))
      by_cases [] = (λ e. cc, λ e. absurd (e.0 refl))
      by_cases (o ∷ os) =
          (λ e. (λ n. cc, (reduce-passed (o ∷ os)).0 e), λ e. (reduce-passed (o ∷ os)).1 e.1)

  -- A function's outcome is "failed" exactly when one of its cases failed or ended in an error:
  -- no order of the report hides it.
  pub aggregate-failed :
      (lookup key r ≡ some "failed") ↔ (any is_bad (cases_of key_of key cases) ≡ true)
  aggregate-failed =
      rw (lookup-aggregate key_of cases key r done) (by_cases (cases_of key_of key cases))
    where
      by_cases : (os : List String) → (outcome_of os ≡ some "failed") ↔ (any is_bad os ≡ true)
      by_cases [] = (λ e. cc, λ e. cc)
      by_cases (o ∷ os) = reduce-failed (o ∷ os)

  -- Where the outcomes are pytest's, a function with a case has an outcome that depends only on
  -- which outcomes its cases have, the worst of them first, and not on their order or number.
  pub aggregate-by_presence :
      all (contains vocabulary) (cases_of key_of key cases) ≡ true
      → cases_of key_of key cases ≢ []
      → lookup key r ≡ some (by_presence (contains (cases_of key_of key cases)))
  aggregate-by_presence known some_case =
      lookup-aggregate key_of cases key r done
      ∙ by_cases (cases_of key_of key cases) known some_case
    where
      by_cases :
          (os : List String)
          → all (contains vocabulary) os ≡ true
          → os ≢ []
          → outcome_of os ≡ some (by_presence (contains os))
      by_cases [] h n = absurd (n refl)
      by_cases (o ∷ os) h n = reduce-by_presence (o ∷ os) h
