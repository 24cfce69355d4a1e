-- ===== src/Tests/Score.antt =====
-- The theorems of the scoring of a task at concrete inputs.
use mathlib.Core.List.{map}
use bmk_dev.Base.{
  ℕ, Option, none, some, List, [], ◌∷◌, ◌≡◌, ◌↔◌, refl, string_eq, list_eq, nat_eq, option_eq,
  length, sum_of, contains,
}
use bmk_dev.Base.Text.{Text, codes}
use bmk_dev.Base.Dict.{update, Dict, lookup, insert, has_key}
use bmk_dev.Runners.{Runner}
use bmk_dev.Sandbox.Docker.{ok, ◌>>=◌, docker, docker_cp, exec}
use bmk_dev.Sandbox.Docker.Laws.{AlwaysFinishes}
use bmk_dev.Sandbox.Provenance.{Row, check_provenance, judge, bad_of}
use bmk_dev.Sandbox.Provenance.Laws.{Decodes, AllResolved, judge-accepts}
use mathlib.Core.Option.{or_else}
use bmk_dev.Base.Int.{pos}
use bmk_dev.Sandbox.Outcomes.{aggregate, append_at, reduce}
use bmk_dev.Sandbox.Suite.{
  batch_loop, run_batch, read_report, or_raise, settled, batch_execution_errors, SuiteRun, BatchLog,
  run_suite, set_all, settle,
}
use bmk_dev.Sandbox.Suite.Parts.{part_of}
use bmk_dev.Sandbox.Suite.Denominator.{run_suite-denominator}
use bmk_dev.Sandbox.Suite.Total.{Returns, run_suite-Returns}
use bmk_dev.Sandbox.Results.{finish}
use bmk_dev.Sandbox.Score.{
  score, get_runner, score_with, run_and_clean, run_in_container, prepare, copy_extra, audited,
  run_suites,
}
use bmk_dev.Sandbox.Score.Complete.{IsComplete, score-IsComplete}
use bmk_dev.Sandbox.Score.Cleanup.{with_log, remove_container, score-removes_container}
use bmk_dev.Tests.Sample.{numbers, runner, machine, answer}

always : AlwaysFinishes answer
always cmd timeout w = tt

abbrev ids : List Text
ids = codes "atomic::a" ∷ codes "atomic::b" ∷ []

run_suite-Returns_example : Returns (run_suite runner answer 180 (codes "c") (codes "atomic") ids) 0
unfolding or_else
run_suite-Returns_example =
    run_suite-Returns answer always (λ cmd timeout w. (pos 0, refl)) runner
      (λ report stdout. (_, refl)) 180 (codes "c") (codes "atomic") ids 0

abbrev sample : SuiteRun
sample = record {
  tests = (codes "atomic::a", "passed") ∷ (codes "atomic::b", "failed") ∷ [];
  cases =
      (codes "atomic::a", "passed")
      ∷ (codes "atomic::b", "failed")
      ∷ (codes "integration::a", "passed")
      ∷ (codes "integration::b", "passed")
      ∷ [];
  batches = record { suite = codes "atomic"; offset = 0; size = 2; rc = pos 0; status = "ok" } ∷ [];
  raw_parts = codes "__RC__=0" ∷ [];
}

sample_run : (run_suite runner answer 180 (codes "c") (codes "atomic") ids 0).0 ≡ ok sample
unfolding run_suite batch_loop run_batch read_report or_raise settled settle aggregate append_at
    reduce set_all update exec ◌>>=◌ lookup insert list_eq nat_eq string_eq or_else
sample_run = refl

run_suite-denominator_example :
    ((k : Text) → has_key sample.tests k ≡ contains (map runner.function_of ids) k)
    × (map part_of sample.batches ≡ (0, 2) ∷ [])
    × (sum_of (λ (b : BatchLog). b.size) sample.batches ≡ 2)
    × (length sample.batches ≡ 1)
run_suite-denominator_example =
    run_suite-denominator runner answer 180 (codes "c") (codes "atomic") ids 0 sample sample_run

abbrev registry : Dict Text (Runner ℕ)
registry = (codes "python", runner) ∷ []

-- Both suites in one report: the sample runner answers for either.
no_error :
    (score numbers machine registry
      (λ task. none)
      none
      (codes "c")
      (codes "t")
      0
      0
      none
      none
      0).0.error
    ≡ none
unfolding score score_with get_runner run_and_clean run_in_container prepare copy_extra docker
    docker_cp check_provenance audited run_suites finish run_suite batch_loop run_batch read_report
    or_raise settled settle aggregate append_at reduce set_all update exec ◌>>=◌ lookup insert
    list_eq nat_eq string_eq or_else batch_execution_errors
no_error = refl

score-IsComplete_example :
    (r : Runner ℕ) × (get_runner registry none ≡ some r)
    × IsComplete numbers r
        (r.discover 0 (codes "atomic"))
        (r.discover 0 (codes "integration"))
        (score numbers machine registry
          (λ task. none)
          none
          (codes "c")
          (codes "t")
          0
          0
          none
          none
          0).0
score-IsComplete_example =
    score-IsComplete numbers machine registry (λ task. none) none (codes "c") (codes "t") 0 0 none
      none 0 no_error

found : get_runner registry none ≡ some runner
unfolding get_runner lookup list_eq nat_eq
found = refl

score-removes_container_example :
    (before : List (List Text)) × ((score numbers
        (with_log machine)
        registry
        (λ task. none)
        none
        (codes "c")
        (codes "t")
        0
        0
        none
        none
        (0, [])).1.1
      ≡ remove_container (codes "c") ∷ before)
score-removes_container_example =
    score-removes_container numbers machine registry (λ task. none) none (codes "c") (codes "t") 0 0
      none none 0 [] runner found

abbrev rows : Text → Option (List Row)
rows line = some (
    record {
      name = codes "pkg";
      error = none;
      paths = codes "/eval/workspace/pkg" ∷ [];
      direct_urls = [];
    }
    ∷ [])

judge-accepts_example : (judge rows (codes "__PROVENANCE__[]") ≡ none) ↔ (
    (found_rows : List Row) × Decodes rows (codes "__PROVENANCE__[]") found_rows
    × AllResolved found_rows)
judge-accepts_example = judge-accepts rows (codes "__PROVENANCE__[]")

-- A directory beside the workspace whose path begins like the workspace's passes the audit.
sibling_passes :
    bad_of (record {
      name = codes "pkg";
      error = none;
      paths = codes "/opt/pkg" ∷ [];
      direct_urls = codes "file:///eval/workspace2/pkg" ∷ [];
    })
    ≡ []
unfolding bad_of list_eq nat_eq
sibling_passes = refl
