-- ===== src/Sandbox/Suite.antt =====
-- harness/sandbox.py: `_run_suite`, which runs one oracle suite in batches, and
-- `_batch_execution_errors`.
pub mod Denominator
pub mod Parts
pub mod Total
use bmk_dev.Base.{
  ℕ, zero, suc, ◌+◌, ◌-◌, ◌*◌, ◌/◌, Bool, true, false, ◌||◌, Option, none, some, List, [], ◌∷◌,
  ◌++◌, String, ◌==◌, string_eq, list_eq, nat_eq, if◌then◌else◌, leb, length, take, drop, any,
  count_if, eqb,
}
use mathlib.Core.Option.{get_or}
use bmk_dev.Base.Int.{ℤ, pos, negsuc, is_ℕ}
use bmk_dev.Base.Text.{Text, codes, quote, leading_number, search_digits}
use bmk_dev.Base.Dict.{Dict, lookup, insert, update}
use bmk_dev.Runners.{Runner, Batch}
use bmk_dev.Sandbox.Outcomes.{Outcomes, aggregate}
use bmk_dev.Sandbox.Docker.{
  Process, Exec, Exn, pure, raise, exec, stop_iteration, value_error, attribute_error, ◌>>=◌, ◌>>◌,
}

abbrev pub score_batch_size : ℕ
score_batch_size = 25

-- The record of one batch.
pub record BatchLog : Type 0 where
  pub suite : Text
  pub offset : ℕ
  pub size : ℕ
  pub rc : ℤ
  pub status : String

-- The local variables of the loop.
pub record SuiteRun : Type 0 where
  pub tests : Outcomes
  pub cases : Outcomes
  pub batches : List BatchLog
  pub raw_parts : List Text

abbrev pub no_run : SuiteRun
no_run = record { tests = []; cases = []; batches = []; raw_parts = [] }

-- `out[-4000:]`
abbrev pub last_chars : ℕ → Text → Text
last_chars n out = drop (length out - n) out

-- `int` of digits; `none` is its `ValueError`, which CPython raises on more than 4300 of them.
abbrev pub int_of : Text → Option ℤ
int_of digits =
    if leb (length digits) 4300 then some (pos (get_or (leading_number digits) 0)) else none

abbrev pub exit_code : Text → Option ℤ
exit_code out = elim (search_digits (codes "__RC__=") out) [
  | none ↦ some (negsuc 0)
  | some digits ↦ int_of digits
]

module _ {World : Type 0} where
  -- The report in the container, if the runner names one.
  unfoldable pub read_report : Process World → Text → Option Text → Exec World Text
  read_report run cid none = pure []
  read_report run cid (some []) = pure []
  read_report run cid (some (c ∷ path)) =
      exec run cid (codes "cat " ++ quote (c ∷ path) ++ codes " 2>/dev/null") 30 false

  unfoldable pub or_raise : {A : Type 0} → Exn → Option A → Exec World A
  or_raise e none = raise e
  or_raise e (some a) = pure a

  unfoldable pub settled : {A : Type 0} → Option A → Exec World A
  settled none = raise stop_iteration
  settled (some s) = pure s

module _ {Host : Type 0} (runner : Runner Host) where
  -- `for n in batch: tests[runner.function_of(n)] = outcome_of(runner.function_of(n))`
  unfoldable pub set_all : (Text → String) → List Text → Outcomes → Outcomes
  set_all outcome_of [] tests = tests
  set_all outcome_of (n ∷ batch) tests =
      let key = runner.function_of n in set_all outcome_of batch (insert key (outcome_of key) tests)

  abbrev pub unusable_status : ℤ → String
  unusable_status rc = if is_ℕ rc 124 then "timeout" else "no_report"

  abbrev pub usable_status : ℤ → Outcomes → String
  usable_status rc batch_outcomes =
      if is_ℕ rc 124
      then "timeout"
      else if eqb (length batch_outcomes) 0 || any (is_ℕ rc) (2 ∷ 3 ∷ 4 ∷ 5 ∷ [])
      then "collect_error"
      else "ok"

  abbrev pub log_of : Text → ℕ → List Text → ℤ → String → BatchLog
  log_of suite bi batch rc status = record {
    suite = suite;
    offset = bi;
    size = length batch;
    rc = rc;
    status = status;
  }

  -- What one batch adds, from its exit code and the runner's reading of its report. `none` is the
  -- exception of `_aggregate_function_outcomes`.
  unfoldable pub settle : Text → ℕ → List Text → ℤ → Option Outcomes → SuiteRun → Option SuiteRun
  settle suite bi batch rc none s = some (record s {
    tests = set_all (λ _. unusable_status rc) batch s.tests;
    batches = s.batches ++ (log_of suite bi batch rc (unusable_status rc) ∷ []);
  })
  settle suite bi batch rc (some batch_outcomes) s =
      elim (aggregate runner.function_of batch_outcomes) [
        | none ↦ none
        | some per_fn ↦ some (record s {
          tests = set_all (λ key. get_or (lookup key per_fn) "not_collected") batch s.tests;
          cases = update s.cases batch_outcomes;
          batches = s.batches ++ (log_of suite bi batch rc (usable_status rc batch_outcomes) ∷ []);
        })
      ]

  module _ {World : Type 0} (run : Process World) (batch_timeout : ℕ) (cid suite : Text) where
    unfoldable pub run_batch : ℕ → List Text → SuiteRun → Exec World SuiteRun
    unfolding read_report settled or_raise
    run_batch bi batch s = do
      let invocation = runner.batch suite batch bi batch_timeout
      out ← exec run cid (invocation.command ++ codes "; echo __RC__=$?") (batch_timeout + 45) false
      rc ← or_raise value_error (exit_code out)
      report_text ← read_report run cid invocation.report
      batch_outcomes ← or_raise attribute_error (runner.outcomes report_text out)
      settled (
          settle suite bi batch rc batch_outcomes
            (record s { raw_parts = s.raw_parts ++ (last_chars 4000 out ∷ []) }))

    -- `for bi in range(0, len(node_ids), SCORE_BATCH_SIZE)`, by the rounds that are left.
    unfoldable pub batch_loop : ℕ → ℕ → List Text → SuiteRun → Exec World SuiteRun
    batch_loop zero bi node_ids s = pure s
    batch_loop (suc rounds) bi node_ids s = do
      s' ← run_batch bi (take score_batch_size (drop bi node_ids)) s
      batch_loop rounds (bi + score_batch_size) node_ids s'

    unfoldable pub run_suite : List Text → Exec World SuiteRun
    run_suite node_ids =
        batch_loop ((length node_ids + score_batch_size - 1) / score_batch_size) 0 node_ids no_run

-- What `_batch_execution_errors` reports; the numbers are those of the message.
pub data ScoreError : Type 0 where
  atomic_count_zero integration_count_zero : ScoreError
  batches_timed_out : ℕ → ℕ → ScoreError
  batches_invalid : ℕ → ℕ → ScoreError

abbrev pub is_timed_out : BatchLog → Bool
is_timed_out b = b.status == "timeout"

abbrev pub is_invalid : BatchLog → Bool
is_invalid b = b.status == "no_report" || b.status == "collect_error"

unfoldable pub batch_execution_errors : List BatchLog → List ScoreError
batch_execution_errors batches =
    let timed_out = count_if is_timed_out batches in
    let invalid = count_if is_invalid batches in
    (if eqb timed_out 0 then [] else batches_timed_out timed_out (length batches) ∷ [])
    ++ (if eqb invalid 0 then [] else batches_invalid invalid (length batches) ∷ [])
