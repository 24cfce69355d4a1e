-- ===== src/Sandbox/Results.antt =====
-- harness/sandbox.py: `ScoringResult`, and its computation from the two suite runs in `_run`. Wall-clock
-- times are left out, and the messages of errors are values that hold what the messages show.
use bmk_dev.Base.{
  ℕ, max, ◌&&◌, Option, none, some, List, [], ◌∷◌, ◌++◌, ◌==◌, string_eq, list_eq, nat_eq,
  if◌then◌else◌, length, count_if, eqb,
}
use bmk_dev.Base.Text.{Text, codes, starts_with}
use bmk_dev.Base.Dict.{update}
use bmk_dev.Base.Floats.{Floats}
use bmk_dev.Runners.{Runner}
use bmk_dev.Sandbox.Outcomes.{Outcomes}
use bmk_dev.Sandbox.Gap.{Gap, compute_adjusted_gap, suite_prefix}
use bmk_dev.Sandbox.Docker.{Exn}
use bmk_dev.Sandbox.Provenance.{Provenance}
use bmk_dev.Sandbox.Suite.{
  BatchLog, SuiteRun, ScoreError, atomic_count_zero, integration_count_zero, batch_execution_errors,
}

-- Why a result carries an error.
pub data Failure : Type 0 where
  no_runner : Text → Failure
  timed_out : Failure
  failed : Exn → Failure
  bad_provenance : Provenance → Failure
  incomplete : List ScoreError → Failure

module _ (F : Floats) where
  open F use {Float, ratio, sub, round4}

  pub record ScoringResult : Type 0 where
    pub task_id : Text
    pub atomic_passed : ℕ
    pub atomic_total : ℕ
    pub integration_passed : ℕ
    pub integration_total : ℕ
    pub atomic_pass_rate : Float
    pub integration_pass_rate : Float
    pub integration_gap : Float
    pub install_log : Text
    pub provenance_log : Text
    pub error : Option Failure
    pub raw_parts : List (List Text)
    pub tests : Outcomes
    pub cases : Outcomes
    pub batches : List BatchLog
    pub gap : Gap F

  -- The defaults of the fields, and an error.
  unfoldable pub error_result : Text → Failure → ScoringResult
  error_result task_id why = record {
    task_id = task_id;
    atomic_passed = 0;
    atomic_total = 0;
    integration_passed = 0;
    integration_total = 0;
    atomic_pass_rate = ratio 0 1;
    integration_pass_rate = ratio 0 1;
    integration_gap = ratio 0 1;
    install_log = [];
    provenance_log = [];
    error = some why;
    raw_parts = [];
    tests = [];
    cases = [];
    batches = [];
    gap = record {
      adjusted_gap = none;
      adj_passed = 0;
      adj_total = 0;
      adj_rate = none;
      confidence = "high";
    };
  }

  -- `sum(1 for k, v in tests.items() if k.startswith(prefix) and v == "passed")`
  abbrev pub passes : Text → Outcomes → ℕ
  passes prefix = count_if (λ (key, outcome). starts_with key prefix && outcome == "passed")

  abbrev pub joined_errors : List ScoreError → Option Failure
  joined_errors [] = none
  joined_errors (e ∷ errors) = some (incomplete (e ∷ errors))

  abbrev pub parse_errors : ℕ → ℕ → List BatchLog → List ScoreError
  parse_errors at it batches =
      (if eqb at 0 then atomic_count_zero ∷ [] else [])
      ++ ((if eqb it 0 then integration_count_zero ∷ [] else []) ++ batch_execution_errors batches)

  module _ {Host : Type 0} (runner : Runner Host) where
    -- Steps 6 and 7 of `_run`: from the two suite runs to the result.
    unfoldable pub finish :
        Text → Host → List Text → List Text → Text → Text → SuiteRun → SuiteRun → ScoringResult
    finish task_id oracle_path atomic_ids integration_ids install_log provenance_log atomic
          integration =
        let tests = update (update [] atomic.tests) integration.tests in
        let cases = update (update [] atomic.cases) integration.cases in
        let batches = atomic.batches ++ integration.batches in
        let ap = passes (suite_prefix runner (codes "atomic") ++ codes "::") tests in
        let at = length atomic_ids in
        let ip = passes (suite_prefix runner (codes "integration") ++ codes "::") tests in
        let it = length integration_ids in
        let ar = ratio ap (max at 1) in
        let ir = ratio ip (max it 1) in
        record {
          task_id = task_id;
          atomic_passed = ap;
          atomic_total = at;
          integration_passed = ip;
          integration_total = it;
          atomic_pass_rate = round4 ar;
          integration_pass_rate = round4 ir;
          integration_gap = round4 (sub ar ir);
          install_log = install_log;
          provenance_log = provenance_log;
          error = joined_errors (parse_errors at it batches);
          raw_parts = atomic.raw_parts ∷ integration.raw_parts ∷ [];
          tests = tests;
          cases = cases;
          batches = batches;
          gap = compute_adjusted_gap F oracle_path tests ar runner;
        }
