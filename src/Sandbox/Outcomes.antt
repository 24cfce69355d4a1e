-- ===== src/Sandbox/Outcomes.antt =====
-- harness/sandbox.py: `_aggregate_function_outcomes`, which reduces the expanded cases of a batch
-- to one outcome for each test function.
pub mod Laws
pub mod Verdicts
use mathlib.Core.Option.{or_else, get_or}
use bmk_dev.Base.{
  Bool, ◌||◌, not, Option, none, some, List, [], ◌∷◌, ◌++◌, String, any, all, first, ◌==◌, contains,
  string_eq, list_eq, nat_eq, if◌then◌else◌,
}
use bmk_dev.Base.Text.{Text}
use bmk_dev.Base.Dict.{Dict, lookup, insert}

-- `{nodeid: outcome}`
abbrev pub Outcomes : Type 0
Outcomes = Dict Text String

-- `grouped.setdefault(key, []).append(outcome)`
unfoldable pub append_at : Text → String → Dict Text (List String) → Dict Text (List String)
append_at key outcome grouped =
    insert key (get_or (lookup key grouped) [] ++ (outcome ∷ [])) grouped

unfoldable pub group : (Text → Text) → Outcomes → Dict Text (List String) → Dict Text (List String)
group key_of [] grouped = grouped
group key_of ((nodeid, outcome) ∷ cases) grouped =
    group key_of cases (append_at (key_of nodeid) outcome grouped)

abbrev pub is_bad : String → Bool
is_bad outcome = outcome == "failed" || outcome == "error"

abbrev pub is_passed : String → Bool
is_passed outcome = outcome == "passed"

abbrev pub priority : List String
priority = "xpassed" ∷ "skipped" ∷ "xfailed" ∷ []

-- The outcome of one function. `none` is the `StopIteration` that `next` with no default raises.
unfoldable pub reduce : List String → Option String
unfolding or_else
reduce outcomes =
    if any is_bad outcomes
    then some "failed"
    else if all is_passed outcomes
    then some "passed"
    else or_else (first (contains outcomes) priority)
        (first (λ outcome. not (is_passed outcome)) outcomes)

-- The loop over `grouped.items()`.
unfoldable pub reduce_groups : Dict Text (List String) → Option Outcomes
reduce_groups [] = some []
reduce_groups ((key, outcomes) ∷ grouped) =
    let rest = reduce_groups grouped in
    elim (reduce outcomes) [
      | none ↦ none
      | some outcome ↦ elim rest [ none ↦ none | some result ↦ some ((key, outcome) ∷ result) ]
    ]

unfoldable pub aggregate : (Text → Text) → Outcomes → Option Outcomes
unfolding group reduce_groups
aggregate key_of cases = reduce_groups (group key_of cases [])
