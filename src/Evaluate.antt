-- ===== src/Evaluate.antt =====
-- harness/evaluate.py: the tasks that are asked for, the run of one task and the run of all of them.
-- Elapsed times, costs, the echoed figures and the printed lines are left out.
pub mod Status
pub mod Tasks
use bmk_dev.Base.{
  ℕ, Bool, true, false, ◌&&◌, ◌||◌, not, Option, none, some, List, [], ◌∷◌, ◌++◌, String, ◌==◌,
  contains, string_eq, list_eq, nat_eq, if◌then◌else◌, keep, map, length, count_if, is_nil,
}
use mathlib.Core.Option.{get_or}
use bmk_dev.Base.Text.{Text, codes, strip, split_on}
use bmk_dev.Base.Sorting.{sorted, le_text}
use bmk_dev.Base.Dict.{Dict, lookup}
use bmk_dev.Base.Floats.{Floats}
use bmk_dev.Runners.{Runner}
use bmk_dev.Core.Layout.{Location, Disk, task_ids, declared_language, spec_path, oracle_dir}
use bmk_dev.Sandbox.Suite.{last_chars}
use bmk_dev.Sandbox.Results.{ScoringResult, Failure}
use bmk_dev.Sandbox.Score.{Machine, score, or_text}

-- What `agent.solve` returns of the agent's run.
pub record AgentResult : Type 0 where
  pub success : Bool
  pub exit_status : Text
  pub error : Option Text

-- The `agent` part of a result.
pub data AgentBlock : Type 0 where
  no_spec : AgentBlock
  not_asked : AgentBlock
  ran : AgentResult → AgentBlock

abbrev pub agent_status : AgentBlock → String
agent_status no_spec = "skipped"
agent_status not_asked = "skipped (score-only)"
agent_status (ran a) =
    if a.success
    then "ok"
    else if a.exit_status == codes "LimitsExceeded"
    then "incomplete"
    else "failed"

abbrev pub agent_exit_status : AgentBlock → Option Text
agent_exit_status (ran a) = some a.exit_status
agent_exit_status no_spec = none
agent_exit_status not_asked = none

-- `agent_incomplete`, without its constant note
pub record Partial : Type 0 where
  pub status : String
  pub exit_status : Option Text

abbrev pub partial_of : AgentBlock → Option Partial
partial_of block =
    if agent_status block == "ok" || agent_status block == "skipped (score-only)"
    then none
    else some (record { status = agent_status block; exit_status = agent_exit_status block })

-- The tasks of a run. `flat` are the entries of the directory that is given for the tasks, each with
-- its tests `is_dir` and `spec.md` exists.
unfoldable pub all_ids : Location → Disk → Option (List (Text × Bool × Bool)) → List Text
all_ids root disk none = task_ids root disk
all_ids root disk (some flat) =
    sorted le_text
      (map (λ (name, _, _). name) (keep (λ (_, is_dir, has_spec). is_dir && has_spec) flat))

unfoldable pub resolve_tasks : Text → List Text → List Text
resolve_tasks task_arg ids =
    if task_arg == codes "all"
    then ids
    else keep (contains ids) (map strip (split_on b',' task_arg))

-- `args.limit if args.limit is not None else ec.get(name, 0)`
abbrev pub limit_of : Option ℕ → Option ℕ → ℕ
limit_of (some asked) configured = asked
limit_of none configured = get_or configured 0

module _ (F : Floats) where
  -- The `score` part of a result; its figures are those of the scoring result.
  pub data ScoreBlock : Type 0 where
    no_oracle : ScoreBlock
    empty_workspace : ScoreBlock
    scored : ScoringResult F → Option Partial → Option Text → ScoreBlock

  abbrev pub status_of_error : Option Failure → String
  status_of_error none = "ok"
  status_of_error (some why) = "error"

  abbrev pub score_status : ScoreBlock → String
  score_status no_oracle = "skipped"
  score_status empty_workspace = "skipped"
  score_status (scored r partial tail) = status_of_error r.error

  -- `install_log_tail`, on the error path
  abbrev pub tail_of : ScoringResult F → Option Text
  tail_of r = elim r.error [ none ↦ none | some why ↦ some (last_chars 4000 r.install_log) ]

  pub record TaskResult : Type 0 where
    pub task_id : Text
    pub language : Text
    pub agent : AgentBlock
    pub score_block : ScoreBlock

  -- What a run works with: the repository, the agent, the files it asks for and writes, the scoring
  -- machine with the registered runners, and the `language` fields that `task_language` and the
  -- sandbox's own function read. `cid` is the name of the next container.
  pub record Driver (World : Type 0) : Type 0 where
    pub root : Location
    pub disk : Disk
    pub machine : Machine World Location
    pub registry : Dict Text (Runner Location)
    pub pool_language : Location → Option Text
    pub sandbox_language : Text → Option Text
    pub cid : World → Text
    pub exists : Location → World → Bool
    pub is_filled : Location → World → Bool
    pub mkdir : Location → World → World
    pub solve : Text → Location → Location → Text → World → AgentResult × World
    pub write_result : Location → TaskResult → World → World

  module _ {World : Type 0} (driver : Driver World) where
    open driver use {
      root, disk, machine, registry, pool_language, sandbox_language, cid, exists, is_filled, mkdir,
      solve, write_result,
    }

    abbrev pub nonexistent : Location
    nonexistent = codes "nonexistent" ∷ []

    abbrev pub task_language : Option Location → Text → Option Text
    task_language none task_id = declared_language root disk task_id
    task_language (some tasks_root) task_id =
        pool_language (codes "task.json" ∷ task_id ∷ tasks_root)

    abbrev pub spec_of : Option Location → Text → Location
    spec_of none task_id = get_or (spec_path root disk task_id) nonexistent
    spec_of (some tasks_root) task_id = codes "spec.md" ∷ task_id ∷ tasks_root

    abbrev pub oracle_of : Option Location → Text → Location
    oracle_of none task_id = get_or (oracle_dir root disk task_id) nonexistent
    oracle_of (some oracle_root) task_id = task_id ∷ oracle_root

    -- Phase 1.
    unfoldable pub run_agent : Bool → Text → Location → Location → Text → World → AgentBlock × World
    run_agent true task_id spec workspace lang w = (not_asked, w)
    run_agent false task_id spec workspace lang w =
        if exists spec w
        then (let (a, w') = solve task_id spec workspace lang (mkdir workspace w) in (ran a, w'))
        else (no_spec, w)

    -- Phase 2.
    unfoldable pub run_score :
        AgentBlock → Text → Location → Location → Option Text → World → ScoreBlock × World
    run_score agent task_id workspace oracle lang w =
        if not (exists oracle w)
        then (no_oracle, w)
        else if not (exists workspace w) || not (is_filled workspace w)
        then (empty_workspace, w)
        else (let (r, w') =
              score F machine registry sandbox_language none (cid w) task_id workspace oracle none
                lang w in
            (scored r (partial_of agent) (tail_of r), w'))

    unfoldable pub run_one :
        Text → Location → Bool → Option Location → Option Location → World → TaskResult × World
    run_one task_id results_dir score_only oracle_root tasks_root w =
        let workspace = codes "workspace" ∷ task_id ∷ results_dir in
        let lang = task_language tasks_root task_id in
        let language = or_text lang (codes "python") in
        let (agent, w1) =
          run_agent score_only task_id (spec_of tasks_root task_id) workspace language w in
        let (block, w2) =
          run_score agent task_id workspace (oracle_of oracle_root task_id) lang w1 in
        let out : TaskResult = record {
          task_id = task_id;
          language = language;
          agent = agent;
          score_block = block;
        } in
        (out, write_result (codes "result.json" ∷ task_id ∷ results_dir) out w2)

    -- The loop over the tasks.
    unfoldable pub run_all :
        List Text
        → Location
        → Bool
        → Option Location
        → Option Location
        → World
        → List TaskResult × World
    run_all [] results_dir score_only oracle_root tasks_root w = ([], w)
    run_all (task_id ∷ ids) results_dir score_only oracle_root tasks_root w =
        let (r, w1) = run_one task_id results_dir score_only oracle_root tasks_root w in
        let (rs, w2) = run_all ids results_dir score_only oracle_root tasks_root w1 in (r ∷ rs, w2)

  -- The counters of `summary.json`.
  abbrev pub total_of : List TaskResult → ℕ
  total_of = length

  abbrev pub scored_of : List TaskResult → ℕ
  scored_of = count_if (λ (r : TaskResult). score_status r.score_block == "ok")
