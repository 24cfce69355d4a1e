-- ===== src/Sandbox/Gap.antt =====
-- harness/sandbox.py: `_suite_prefix`, `_suite_outcomes_by_name` and `_compute_adjusted_gap`.
pub mod Names
pub mod Cascade
use bmk_dev.Base.{
  ℕ, zero, suc, ◌+◌, max, Bool, true, false, ◌&&◌, ◌||◌, not, Option, none, some, List, [], ◌∷◌,
  ◌++◌, String, all, ◌==◌, contains, string_eq, list_eq, nat_eq, option_eq, if◌then◌else◌, length,
  eqb,
}
use mathlib.Core.Option.{or_else}
use bmk_dev.Base.Text.{Text, codes, strip_prefix, after_last, before_first}
use bmk_dev.Base.Dict.{Dict, lookup, insert, has_key}
use bmk_dev.Base.Floats.{Floats}
use bmk_dev.Runners.{Runner}
use bmk_dev.Sandbox.Outcomes.{Outcomes}

unfoldable pub suite_prefix : {Host : Type 0} → Runner Host → Text → Text
suite_prefix runner suite =
    elim (before_first (codes "::") (runner.function_of (runner.synthetic_id suite))) [
      | some head ↦ head
      | none ↦ suite
    ]

-- `key.removeprefix(prefix).rsplit(".", 1)[-1].rsplit("::", 1)[-1]`, for a key with the prefix.
unfoldable pub leaf : Text → Text
unfolding or_else
leaf rest = after_last (codes "::") (after_last (codes ".") rest)

pub record Index : Type 0 where
  pub outcomes : Outcomes
  pub ambiguous : List Text

-- One round of the loop over `tests.items()`.
unfoldable pub index_one : Text → String → Index → Index
index_one name outcome i = elim (lookup name i.outcomes) [
  | none ↦ record i { outcomes = insert name outcome i.outcomes }
  | some _ ↦ record i {
    ambiguous = if contains i.ambiguous name then i.ambiguous else i.ambiguous ++ (name ∷ []);
  }
]

unfoldable pub index_loop : Text → Outcomes → Index → Index
index_loop prefix [] i = i
index_loop prefix ((key, outcome) ∷ tests) i =
    index_loop prefix tests
      (elim (strip_prefix prefix key) [ none ↦ i | some rest ↦ index_one (leaf rest) outcome i ])

unfoldable pub suite_outcomes_by_name : Outcomes → Text → Index
unfolding index_loop
suite_outcomes_by_name tests suite =
    index_loop (suite ++ codes "::") tests (record { outcomes = []; ambiguous = [] })

-- All of the names are keys.
abbrev pub known : Outcomes → List Text → Bool
known outcomes = all (has_key outcomes)

abbrev pub passed : Outcomes → Text → Bool
passed outcomes name = lookup name outcomes == some "passed"

-- `referenced_atomic <= known_atomic`
abbrev pub all_known : Outcomes → Dict Text (List Text) → Bool
all_known atomic = all (λ (_, deps). known atomic deps)

-- The loop over `deps_map.items()`, with `eligible_passed` and `eligible_total`.
unfoldable pub eligible_loop : Outcomes → Outcomes → Dict Text (List Text) → ℕ → ℕ → ℕ × ℕ
eligible_loop atomic integration [] eligible_passed eligible_total =
    (eligible_passed, eligible_total)
eligible_loop atomic integration ((integ_fn, deps) ∷ deps_map) eligible_passed eligible_total =
    let eligible : Bool = has_key integration integ_fn && all (passed atomic) deps in
    eligible_loop atomic integration deps_map
      (if eligible && passed integration integ_fn then suc eligible_passed else eligible_passed)
      (if eligible then suc eligible_total else eligible_total)

module _ (F : Floats) where
  open F use {Float, ratio, sub, round4, ltb}

  -- `(adjusted_gap, adj_passed, adj_total, adj_rate, confidence)`
  pub record Gap : Type 0 where
    pub adjusted_gap : Option Float
    pub adj_passed : ℕ
    pub adj_total : ℕ
    pub adj_rate : Option Float
    pub confidence : String

  -- `return None, 0, 0, None, confidence`
  abbrev pub no_gap : String → Gap
  no_gap why = record {
    adjusted_gap = none;
    adj_passed = 0;
    adj_total = 0;
    adj_rate = none;
    confidence = why;
  }

  -- What is reported where nothing is eligible: the raw gap is not evidence at a low atomic rate.
  abbrev pub fallback : Float → String → Gap
  fallback atomic_rate otherwise =
      if ltb atomic_rate (ratio 70 100) then no_gap "low (cascade risk)" else no_gap otherwise

  -- From `integration_total` on.
  unfoldable pub gap_of_counts : Float → ℕ → ℕ → ℕ × ℕ → Gap
  gap_of_counts atomic_rate deps_total integration_total (eligible_passed, zero) =
      fallback atomic_rate "no eligible"
  gap_of_counts atomic_rate deps_total integration_total (eligible_passed, suc n) =
      let adj_rate = ratio eligible_passed (suc n) in
      record {
        adjusted_gap = some (round4 (sub (ratio 1 1) adj_rate));
        adj_passed = eligible_passed;
        adj_total = suc n;
        adj_rate = some (round4 adj_rate);
        confidence =
            if ltb (ratio deps_total (max integration_total 1)) (ratio 50 100)
            then "low (depends_on coverage)"
            else "high";
      }

  -- From the dependency map and the two indexes on.
  unfoldable pub gap_of_indexes : Float → Dict Text (List Text) → Index → Index → Gap
  gap_of_indexes atomic_rate deps_map atomic integration =
      if eqb (length deps_map) 0
      then fallback atomic_rate "no depends_on"
      else if not (eqb (length atomic.ambiguous) 0) || not (eqb (length integration.ambiguous) 0)
      then no_gap "ambiguous test names"
      else if not (all_known atomic.outcomes deps_map)
      then no_gap "invalid depends_on"
      else gap_of_counts atomic_rate (length deps_map) (length integration.outcomes)
          (eligible_loop atomic.outcomes integration.outcomes deps_map 0 0)

  unfoldable pub compute_adjusted_gap :
      {Host : Type 0} → Host → Outcomes → Float → Runner Host → Gap
  compute_adjusted_gap oracle_path tests atomic_rate runner =
      gap_of_indexes atomic_rate (runner.dependencies oracle_path)
        (suite_outcomes_by_name tests (suite_prefix runner (codes "atomic")))
        (suite_outcomes_by_name tests (suite_prefix runner (codes "integration")))
