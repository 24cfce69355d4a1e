-- ===== src/Core/Rubric.antt =====
-- harness/core/score.py: `score`, the weighted score of a solution over the cases of a rubric. The run
-- of a case is a parameter; weights are natural numbers, and the buckets stand in the order in which
-- they were made, where the report sorts them.
pub mod Totals
use bmk_dev.Base.{
  ℕ, suc, ◌+◌, ◌*◌, Bool, true, false, Option, none, some, List, [], ◌∷◌, ◌==◌, nat_eq, list_eq,
  if◌then◌else◌, eqb, length, keep, map, sum_of, count_if, not,
}
use mathlib.Core.Option.{get_or}
use bmk_dev.Base.Text.{Text, codes}
use bmk_dev.Base.Floats.{Floats}
use bmk_dev.Base.Dict.{Dict, lookup, insert}

-- The part of a case that the score reads.
pub record Case : Type 0 where
  pub id : Text
  pub layer : Text
  pub category : Text
  pub weight : ℕ

-- What `run_case` returns.
pub record Outcome : Type 0 where
  pub passed : Bool
  pub actual : Text
  pub expected : Text
  pub stderr : Text
  pub exit_code : ℕ

abbrev pub timed_out : Outcome
timed_out = record {
  passed = false;
  actual = [];
  expected = codes "complete before timeout";
  stderr = codes "timeout";
  exit_code = 124;
}

pub record Result : Type 0 where
  pub case_of : Case
  pub outcome : Outcome

-- `run_case`, with `none` for `TimeoutExpired`
abbrev pub results_of : (Case → Option Outcome) → List Case → List Result
results_of run_case cases =
    map (λ (c : Case). record { case_of = c; outcome = get_or (run_case c) timed_out }) cases

pub record Bucket : Type 0 where
  pub weight : ℕ
  pub passed_weight : ℕ
  pub cases : ℕ
  pub passed : ℕ

abbrev pub no_cases : Bucket
no_cases = record { weight = 0; passed_weight = 0; cases = 0; passed = 0 }

abbrev pub counted : Result → Bucket → Bucket
counted r b = record {
  weight = b.weight + r.case_of.weight;
  passed_weight = if r.outcome.passed then b.passed_weight + r.case_of.weight else b.passed_weight;
  cases = suc b.cases;
  passed = if r.outcome.passed then suc b.passed else b.passed;
}

-- `by_layer[key]` and `by_category[key]`, counted by the key that a result has.
unfoldable pub bucket_all : (Result → Text) → List Result → Dict Text Bucket → Dict Text Bucket
bucket_all key [] found = found
bucket_all key (r ∷ results) found =
    bucket_all key results
      (insert (key r) (counted r (get_or (lookup (key r) found) no_cases)) found)

-- An access to the `defaultdict`, which leaves an empty bucket where there was none.
abbrev pub touch : Text → Dict Text Bucket → Dict Text Bucket
touch key found = insert key (get_or (lookup key found) no_cases) found

module _ (F : Floats) where
  open F use {Float, ratio, sub}

  abbrev pub share : ℕ → ℕ → Float
  share part whole = if eqb whole 0 then ratio 0 1 else ratio part whole

  abbrev pub bucket_score : Bucket → Float
  bucket_score b = share b.passed_weight b.weight

  -- The difference of the scores stands for `gap_pp`, which is its hundredfold.
  pub record Report : Type 0 where
    pub total_cases : ℕ
    pub passed_cases : ℕ
    pub total_weight : ℕ
    pub passed_weight : ℕ
    pub score_of : Float
    pub unit_score : Float
    pub system_score : Float
    pub gap : Float
    pub layers : Dict Text Bucket
    pub categories : Dict Text Bucket
    pub failed_cases : List Result

  unfoldable pub score_results : List Result → Report
  score_results results =
      let layers =
        touch (codes "system")
          (touch (codes "unit") (bucket_all (λ r. r.case_of.layer) results [])) in
      let unit = get_or (lookup (codes "unit") layers) no_cases in
      let system = get_or (lookup (codes "system") layers) no_cases in
      let total = sum_of (λ (r : Result). r.case_of.weight) results in
      let part =
        sum_of (λ (r : Result). r.case_of.weight)
          (keep (λ (r : Result). r.outcome.passed) results) in
      record {
        total_cases = length results;
        passed_cases = count_if (λ (r : Result). r.outcome.passed) results;
        total_weight = total;
        passed_weight = part;
        score_of = share part total;
        unit_score = bucket_score unit;
        system_score = bucket_score system;
        gap = sub (bucket_score unit) (bucket_score system);
        layers = layers;
        categories = bucket_all (λ r. r.case_of.category) results [];
        failed_cases = keep (λ (r : Result). not r.outcome.passed) results;
      }

  abbrev pub score_cases : (Case → Option Outcome) → List Case → Report
  score_cases run_case cases = score_results (results_of run_case cases)
