-- ===== src/Evaluate/Status.antt =====
-- What a result says of the score in it.
use bmk_dev.Base.{
  Bool, false, ◌||◌, not, Option, none, some, ◌∷◌, String, ◌==◌, string_eq, ◌≡◌, refl, sym, ◌∙◌,
  ◌≢◌, Bool-cases, inl, inr, ◌⊎◌, ==-cases,
}
use mathlib.Core.Option.{some-ne-none}
use bmk_dev.Base.Text.{Text, codes}
use bmk_dev.Base.Floats.{Floats}
use bmk_dev.Runners.{Runner}
use bmk_dev.Core.Layout.{Location}
use bmk_dev.Sandbox.Results.{ScoringResult, Failure}
use bmk_dev.Sandbox.Score.{score, get_runner, chosen_language, or_text}
use bmk_dev.Sandbox.Score.Complete.{IsComplete, score-IsComplete}
use bmk_dev.Evaluate.{
  AgentBlock, agent_status, agent_exit_status, partial_of, scored, score_status, status_of_error,
  tail_of, Driver, task_language, spec_of, oracle_of, run_agent, run_score, run_one,
}

marked :
    (block : AgentBlock)
    → (agent_status block == "ok") ≡ false
    → (agent_status block == "skipped (score-only)") ≡ false
    → partial_of block
      ≡ some (record { status = agent_status block; exit_status = agent_exit_status block })
marked block n m = rw (partial_of, n, m) refl

partial_of-none :
    (block : AgentBlock)
    → partial_of block ≡ none
    → (agent_status block ≡ "ok") ⊎ (agent_status block ≡ "skipped (score-only)")
partial_of-none block h = elim (==-cases (agent_status block) "ok") [
  | inl (_, is_ok) ↦ inl is_ok
  | inr (n, _) ↦ elim (==-cases (agent_status block) "skipped (score-only)") [
    | inl (_, skipped) ↦ inr skipped
    | inr (m, _) ↦ absurd (some-ne-none _ (sym (marked block n m) ∙ h))
  ]
]

module _ (F : Floats) {World : Type 0} (driver : Driver F World) where
  open driver use {machine, registry, sandbox_language, cid, exists, is_filled}

  no_failure : (e : Option Failure) → status_of_error F e ≡ "ok" → e ≡ none
  no_failure none h = refl
  no_failure (some why) h = cc

  skipped : ◌≢◌ {A = String} "skipped" "ok"
  skipped h = cc

  run_score-ok :
      (agent : AgentBlock) (task_id : Text) (workspace oracle : Location) (lang : Option Text)
      (w : World)
      → score_status F (run_score F driver agent task_id workspace oracle lang w).0 ≡ "ok"
      → (let r =
            (score F machine registry sandbox_language none
              (cid w)
              task_id
              workspace
              oracle
              none
              lang
              w).0 in
          ((run_score F driver agent task_id workspace oracle lang w).0
            ≡ scored r (partial_of agent) (tail_of F r))
          × (r.error ≡ none))
  unfolding run_score
  run_score-ok agent task_id workspace oracle lang w h = elim (Bool-cases (exists oracle w)) [
    | inr n ↦ absurd (skipped (rw (run_score, n) at h))
    | inl e ↦ elim (Bool-cases (not (exists workspace w) || not (is_filled workspace w))) [
      | inl empty ↦ absurd (skipped (rw (run_score, e, empty) at h))
      | inr filled ↦ (rw (run_score, e, filled) refl, no_failure _ (rw (run_score, e, filled) at h))
    ]
  ]

  module _ (task_id : Text) (results_dir : Location) (score_only : Bool)
      (oracle_root tasks_root : Option Location) (w : World) where
    -- A result with the status "ok" is a complete measurement by the registered runner of the task's
    -- language, and it carries the mark of a partial candidate unless the agent ended with success or
    -- was not asked.
    pub run_one-ok :
        score_status F
            (run_one F driver task_id results_dir score_only oracle_root tasks_root w).0.score_block
          ≡ "ok"
        → (let out = (run_one F driver task_id results_dir score_only oracle_root tasks_root w).0 in
            let oracle = oracle_of F driver oracle_root task_id in
            (r : ScoringResult F) × (runner : Runner Location) × (out.score_block
              ≡ scored r (partial_of out.agent) (tail_of F r))
            × (r.error ≡ none)
            × (get_runner registry (
                  chosen_language
                    (sandbox_language task_id)
                    (task_language F driver tasks_root task_id))
                ≡ some runner)
            × IsComplete F runner
                (runner.discover oracle (codes "atomic"))
                (runner.discover oracle (codes "integration"))
                r
            × (partial_of out.agent ≡ none
                → (agent_status out.agent ≡ "ok")
                  ⊎ (agent_status out.agent ≡ "skipped (score-only)")))
    unfolding run_one
    run_one-ok h =
        let workspace = codes "workspace" ∷ task_id ∷ results_dir in
        let lang = task_language F driver tasks_root task_id in
        let oracle = oracle_of F driver oracle_root task_id in
        let phase =
          run_agent F driver score_only task_id (spec_of F driver tasks_root task_id) workspace
            (or_text lang (codes "python")) w in
        let (block, clean) = run_score-ok phase.0 task_id workspace oracle lang phase.1 h in
        let (runner, found, complete) =
          score-IsComplete F machine registry sandbox_language none (cid phase.1) task_id workspace
            oracle none lang phase.1 clean in
        (_, runner, block, clean, found, complete, partial_of-none phase.0)
