-- ===== src/Sandbox/Score.antt =====
-- harness/sandbox.py: `ScoringSandbox.score` and `ScoringSandbox._run`, with `get_runner` of
-- harness/runners/__init__.py.
pub mod Complete
pub mod Bounds
pub mod Cleanup
pub mod Every
pub mod PythonTask
pub mod GoTask
use bmk_dev.Base.{
  ℕ, zero, suc, ◌+◌, ◌-◌, ◌*◌, ◌/◌, max, Bool, true, false, ◌&&◌, ◌||◌, Option, none, some, List,
  [], ◌∷◌, ◌++◌, String, ◌==◌, string_eq, list_eq, nat_eq, if◌then◌else◌, length, sum_of, count_if,
  eqb,
}
use mathlib.Core.Option.{get_or}
use bmk_dev.Base.Text.{Text, codes, decimal, lower, starts_with}
use bmk_dev.Base.Dict.{update, update-NodupKeys, Dict, lookup}
use bmk_dev.Base.Floats.{Floats}
use bmk_dev.Runners.{Runner, Env, Step}
use bmk_dev.Sandbox.Outcomes.{Outcomes}
use bmk_dev.Sandbox.Gap.{Gap, compute_adjusted_gap, suite_prefix}
use bmk_dev.Sandbox.Docker.{
  Process, Exec, Exn, Result, ok, raised, pure, raise, docker, docker_cp, exec, cleanup,
  timeout_expired, os_error, ◌>>=◌, ◌>>◌,
}
use bmk_dev.Sandbox.Provenance.{Row, Provenance, check_provenance}
use bmk_dev.Sandbox.Results.{
  Failure, no_runner, timed_out, failed, bad_provenance, incomplete, ScoringResult, error_result,
  finish,
}
use bmk_dev.Sandbox.Suite.{
  BatchLog, SuiteRun, ScoreError, atomic_count_zero, integration_count_zero, score_batch_size,
  run_suite, batch_execution_errors,
}

abbrev pub score_setup_timeout : ℕ
score_setup_timeout = 480

abbrev pub default_image : Text
default_image = codes "spec2repo-base:latest"

abbrev pub image_for_language : Dict Text Text
image_for_language =
    (codes "go", codes "spec2repo-go:latest")
    ∷ (codes "java", codes "spec2repo-java:latest")
    ∷ (codes "rust", codes "spec2repo-rust:latest")
    ∷ (codes "typescript", codes "spec2repo-typescript:latest")
    ∷ []

abbrev pub reference_distributions : Dict Text (List Text)
reference_distributions =
    (codes "dbt-core-fullrepro-001", codes "dbt-core" ∷ [])
    ∷ (codes "nbformat-notebook-fullrepro-001", codes "nbformat" ∷ [])
    ∷ (codes "sqlalchemy-fullrepro-001", codes "SQLAlchemy" ∷ [])
    ∷ (codes "packaging-core-fullrepro-001", codes "packaging" ∷ [])
    ∷ []

-- `a or b`, for a string that may be missing
abbrev pub or_text : Option Text → Text → Text
or_text none b = b
or_text (some []) b = b
or_text (some (c ∷ s)) b = c ∷ s

-- `get_runner`, over the registry of the runners by language.
unfoldable pub get_runner :
    {Host : Type 0} → Dict Text (Runner Host) → Option Text → Option (Runner Host)
get_runner registry language = lookup (lower (or_text language (codes "python"))) registry

-- `language or _task_language(task_id)`
abbrev pub chosen_language : Option Text → Option Text → Option Text
chosen_language declared none = declared
chosen_language declared (some []) = declared
chosen_language declared (some (c ∷ s)) = some (c ∷ s)

unfoldable pub image_of : Option Text → Option Text → Text
image_of (some (c ∷ image)) language = c ∷ image
image_of _ language =
    get_or (lookup (or_text language (codes "python")) image_for_language) default_image

abbrev pub batches_for : List Text → ℕ
batches_for ids = (length ids + score_batch_size - 1) / score_batch_size

-- The seconds that the container lives.
unfoldable pub lifetime : ℕ → List Step → List Text → List Text → ℕ
lifetime batch_timeout steps atomic_ids integration_ids =
    max score_setup_timeout (sum_of (λ (s : Step). s.timeout) steps)
    + (batches_for atomic_ids + batches_for integration_ids) * (batch_timeout + 60)

-- The host and the container runtime, with the table of the import roots (`TARGET_IMPORTS`) and
-- the time limit of a batch.
pub record Machine (World Host : Type 0) : Type 0 where
  pub run : Process World
  pub host_path : Host → Text
  pub is_file : Host → Bool
  -- `json.loads` of the line that a provenance probe prints
  pub loads : Text → Option (List Row)
  pub target_imports : Dict Text (List Text)
  pub batch_timeout : ℕ

module _ (F : Floats) where
  module _ {World Host : Type 0} (machine : Machine World Host) where
    open machine use {run, host_path, is_file, loads, target_imports, batch_timeout}

    -- `for step in runner.setup(env)`, with the install log
    unfoldable pub prepare : Text → List Step → Text → Exec World Text
    prepare cid [] install_log = pure install_log
    prepare cid (step ∷ steps) install_log = do
      out ← exec run cid step.command step.timeout step.required
      prepare cid steps (if step.capture then install_log ++ out else install_log)

    unfoldable pub copy_extra : Text → Option Host → Exec World (Unit {0})
    copy_extra cid none = pure tt
    copy_extra cid (some path) =
        if is_file path
        then docker_cp run (host_path path) (cid ++ codes ":/eval/extra-requirements.txt") 30
        else raise (os_error (codes "extra requirements file not found"))

    abbrev pub env_of : Text → Host → Host → Option Host → Env Host
    env_of task_id workspace_path oracle_path extra = record {
      workspace = codes "/eval/workspace";
      oracle = codes "/eval/oracle";
      extra_requirements = elim extra [
        | none ↦ none
        | some _ ↦ some (codes "/eval/extra-requirements.txt")
      ];
      target_modules = get_or (lookup task_id target_imports) [];
      shadowing = get_or (lookup task_id reference_distributions) [];
      workspace_host = some workspace_path;
      oracle_host = some oracle_path;
    }

    module _ (runner : Runner Host) (cid task_id : Text) (oracle_path : Host) where
      -- Step 5 on: the two suites, in their order, and the result.
      unfoldable pub run_suites : List Text → List Text → Text → Text → Exec World (ScoringResult F)
      run_suites atomic_ids integration_ids install_log provenance_log = do
        atomic ← run_suite runner run batch_timeout cid (codes "atomic") atomic_ids
        integration ← run_suite runner run batch_timeout cid (codes "integration") integration_ids
        pure (
            finish F runner task_id oracle_path atomic_ids integration_ids install_log
              provenance_log atomic integration)

      -- The result after the audit: an error ends the scoring before any test is run.
      unfoldable pub audited :
          List Text → List Text → Text → Text × Option Provenance → Exec World (ScoringResult F)
      audited atomic_ids integration_ids install_log (log, none) =
          run_suites atomic_ids integration_ids install_log log
      audited atomic_ids integration_ids install_log (log, some why) =
          pure (record (error_result F task_id (bad_provenance why)) {
            install_log = install_log;
            provenance_log = log;
          })

      abbrev pub docker_run_args : Text → ℕ → List Text
      docker_run_args image seconds =
          codes "-d"
          ∷ codes "--name"
          ∷ cid
          ∷ codes "--memory"
          ∷ codes "1g"
          ∷ codes "--cpus=2"
          ∷ codes "--pids-limit"
          ∷ codes "256"
          ∷ codes "--security-opt"
          ∷ codes "no-new-privileges"
          ∷ codes "-w"
          ∷ codes "/eval"
          ∷ image
          ∷ codes "sleep"
          ∷ decimal seconds
          ∷ []

      unfoldable pub run_in_container : Host → Option Host → Text → Exec World (ScoringResult F)
      run_in_container workspace_path extra image = do
        let atomic_ids = runner.discover oracle_path (codes "atomic")
        let integration_ids = runner.discover oracle_path (codes "integration")
        let env = env_of task_id workspace_path oracle_path extra
        let seconds = lifetime batch_timeout (runner.setup env) atomic_ids integration_ids
        docker run (codes "run") (docker_run_args image seconds) 30 true
        docker_cp run (host_path workspace_path) (cid ++ codes ":/eval/workspace") 120
        docker_cp run (host_path oracle_path) (cid ++ codes ":/eval/oracle") 30
        copy_extra cid extra
        install_log ← prepare cid (runner.setup env) []
        docker run (codes "network") (codes "disconnect" ∷ codes "bridge" ∷ cid ∷ []) 15 false
        audit ← check_provenance loads run cid runner env
        audited atomic_ids integration_ids install_log audit

      -- `except` and `finally`: whatever happens, the container is removed.
      abbrev pub caught : Result (ScoringResult F) → ScoringResult F
      caught (ok result) = result
      caught (raised timeout_expired) = error_result F task_id timed_out
      caught (raised e) = error_result F task_id (failed e)

      unfoldable pub run_and_clean : Host → Option Host → Text → World → ScoringResult F × World
      run_and_clean workspace_path extra image w =
          let (r, w') = run_in_container workspace_path extra image w in
          (caught r, cleanup run cid w')

    -- A language without a runner is an error before any container is made.
    unfoldable pub score_with :
        Option (Runner Host)
        → Option Text
        → Option Text
        → Text
        → Text
        → Host
        → Host
        → Option Host
        → World
        → ScoringResult F × World
    score_with none chosen image cid task_id workspace_path oracle_path extra w =
        (error_result F task_id (no_runner (or_text chosen (codes "python"))), w)
    score_with (some runner) chosen image cid task_id workspace_path oracle_path extra w =
        run_and_clean runner cid task_id oracle_path workspace_path extra (image_of image chosen) w

    -- `score`: `task_language` reads the field of the task's `task.json`.
    unfoldable pub score :
        Dict Text (Runner Host)
        → (Text → Option Text)
        → Option Text
        → Text
        → Text
        → Host
        → Host
        → Option Host
        → Option Text
        → World
        → ScoringResult F × World
    score registry task_language image cid task_id workspace_path oracle_path extra language w =
        let chosen = chosen_language (task_language task_id) language in
        score_with (get_runner registry chosen) chosen image cid task_id workspace_path oracle_path
          extra w
