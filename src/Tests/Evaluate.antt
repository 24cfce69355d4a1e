-- ===== src/Tests/Evaluate.antt =====
-- The theorems of the evaluation at a driver whose agent ends with success.
use mathlib.Core.Path.{◌≡◌, refl}
use bmk_dev.Base.{
  ℕ, ◌+◌, true, false, Option, none, some, [], ◌∷◌, ◌⊎◌, list_eq, nat_eq, string_eq, ◌==◌,
}
use mathlib.Core.Option.{or_else}
use bmk_dev.Base.Text.{codes}
use bmk_dev.Base.Dict.{lookup, insert, update}
use bmk_dev.Runners.{Runner}
use bmk_dev.Core.Layout.{Location}
use bmk_dev.Sandbox.Docker.{docker, docker_cp, exec, ◌>>=◌}
use bmk_dev.Sandbox.Provenance.{check_provenance}
use bmk_dev.Sandbox.Outcomes.{aggregate, append_at, reduce}
use bmk_dev.Sandbox.Suite.{
  run_suite, batch_loop, run_batch, read_report, or_raise, settled, settle, set_all,
  batch_execution_errors,
}
use bmk_dev.Sandbox.Results.{ScoringResult, finish}
use bmk_dev.Sandbox.Score.{
  get_runner, chosen_language, score, score_with, run_and_clean, run_in_container, prepare,
  copy_extra, audited, run_suites,
}
use bmk_dev.Sandbox.Score.Complete.{IsComplete}
use bmk_dev.Evaluate.{
  Driver, agent_status, partial_of, scored, score_status, tail_of, run_one, run_agent, run_score,
  oracle_of,
}
use bmk_dev.Evaluate.Status.{run_one-ok}
use bmk_dev.Tests.Sample.{numbers, answer}
use bmk_dev.Tests.Sample
use bmk_dev.Tests.Layout.{disk}

abbrev runner : Runner Location
runner = record {
  discover = λ host suite. Sample.runner.discover 0 suite;
  setup = λ env. [];
  batch = Sample.runner.batch;
  outcomes = Sample.runner.outcomes;
  function_of = Sample.runner.function_of;
  synthetic_id = Sample.runner.synthetic_id;
  dependencies = λ host. Sample.runner.dependencies 0;
  provenance = λ env. none;
}

abbrev driver : Driver numbers ℕ
driver = record {
  root = [];
  disk = disk;
  machine = record {
    run = answer;
    host_path = λ h. codes "/host";
    is_file = λ h. true;
    loads = λ line. some [];
    target_imports = (codes "t", codes "pkg" ∷ []) ∷ [];
    batch_timeout = 180;
  };
  registry = (codes "python", runner) ∷ [];
  pool_language = λ path. none;
  sandbox_language = λ task_id. none;
  cid = λ w. codes "c";
  exists = λ path w. true;
  is_filled = λ path w. true;
  mkdir = λ path w. w + 1;
  solve = λ task_id spec workspace lang w.
      (record { success = true; exit_status = codes "Submitted"; error = none }, w + 1);
  write_result = λ path out w. w + 1;
}

abbrev pool : Option Location
pool = some (codes "pool" ∷ [])

status_ok :
    score_status numbers (run_one numbers driver (codes "t") [] false pool pool 0).0.score_block
    ≡ "ok"
unfolding run_one run_agent run_score score score_with get_runner run_and_clean run_in_container
    prepare copy_extra docker docker_cp check_provenance audited run_suites finish run_suite
    batch_loop run_batch read_report or_raise settled settle aggregate append_at reduce set_all
    update exec ◌>>=◌ lookup insert list_eq nat_eq string_eq or_else batch_execution_errors
status_ok = refl

run_one-ok_example :
    let out = (run_one numbers driver (codes "t") [] false pool pool 0).0 in
    let oracle = oracle_of numbers driver pool (codes "t") in
    (r : ScoringResult numbers) × (found : Runner Location) × (out.score_block
      ≡ scored r (partial_of out.agent) (tail_of numbers r))
    × (r.error ≡ none)
    × (get_runner driver.registry (chosen_language none none) ≡ some found)
    × IsComplete numbers found
        (found.discover oracle (codes "atomic"))
        (found.discover oracle (codes "integration"))
        r
    × (partial_of out.agent ≡ none
        → (agent_status out.agent ≡ "ok") ⊎ (agent_status out.agent ≡ "skipped (score-only)"))
run_one-ok_example = run_one-ok numbers driver (codes "t") [] false pool pool 0 status_ok

not_all : (codes "t, u" == codes "all") ≡ false
unfolding list_eq nat_eq
not_all = refl
