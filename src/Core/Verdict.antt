-- ===== src/Core/Verdict.antt =====
-- harness/core/verdict.py: the machine-written verdict of a packet, and the run that writes or
-- checks the verdicts.
pub mod Evidence
pub mod Drift
pub mod Check
use bmk_dev.Base.{
  keep, is_nil, ◌||◌, ℕ, suc, Bool, true, false, not, Option, none, some, List, [], ◌∷◌, ◌++◌,
  String, ◌==◌, contains, ◌+◌, nat_eq, list_eq, string_eq, if◌then◌else◌,
}
use mathlib.Core.Option.{or_else}
use bmk_dev.Base.Text.{Text, codes, before_first, after_first, starts_with}
use bmk_dev.Base.Floats.{Floats}
use bmk_dev.Base.Json.{Json, null, boolean, number, string, array, object, Fields, get_field}
use bmk_dev.Base.Dict.{Dict, lookup, insert}
use bmk_dev.Core.Slots.{Slot, slots, Entry, evidence_of, extractors}
use bmk_dev.Core.Layout.{Location, Disk, task_dir, task_ids, tier_of, language_of, verdict_path}

-- A line of the report.
pub data Drifted : Type 0 where
  missing differs : Text → Drifted

-- The local variables of `main`, with the files it reads and writes.
pub record Run : Type 0 where
  pub drift : List Drifted
  pub tasks : ℕ
  pub wip : ℕ
  pub files : Dict Location Text

module _ (F : Floats) where
  open F use {Float}

  -- The dict that is written; the constant entries are left out.
  pub record Verdict : Type 0 where
    pub instance_id : Text
    pub language : Option Text
    pub verdict : String
    pub errors : List Text
    pub warnings : List Text
    pub tier : String
    pub tier_reason : Text
    pub filed_under : Option Text
    pub evidence : List (Entry F)
    pub evidence_pending : List Slot
    pub pipeline_note : Option (Json Float)

  abbrev pub reason : List Text → Text
  reason [] = codes "the static gate passes"
  reason (error ∷ errors) = error

  abbrev pub static_verdict : List Text → String
  static_verdict [] = "pass"
  static_verdict (error ∷ errors) = "fail"

  abbrev pub static_tier : List Text → String
  static_tier [] = "tasks"
  static_tier (error ∷ errors) = "wip"

  -- What the run uses: the root and the disk, the packet files as they are decoded, the static gate
  -- of harness/core/verify_task.py, and `json.dumps`.
  pub record Gate : Type 0 where
    pub root : Location
    pub disk : Disk
    pub load_json : Location → Option (Fields Float)
    pub check_task : Text → List Text × List Text
    pub dumps : Verdict → Text

  module _ (gate : Gate) where
    open gate use {root, disk, load_json, check_task, dumps}

    -- `none` is an exception: no packet, or no `task.json` that can be read.
    unfoldable pub build : Text → Option Verdict
    build task_id = elim (task_dir root disk task_id) [
      | none ↦ none
      | some packet ↦ elim (load_json (codes "task.json" ∷ packet)) [
        | none ↦ none
        | some task ↦
            let (errors, warnings) = check_task task_id in
            let (evidence, pending) = evidence_of F task in
            some (record {
              instance_id = task_id;
              language = language_of root disk task_id;
              verdict = static_verdict errors;
              errors = errors;
              warnings = warnings;
              tier = static_tier errors;
              tier_reason = reason errors;
              filed_under = tier_of root disk task_id;
              evidence = evidence;
              evidence_pending = pending;
              pipeline_note = get_field Float (codes "pipeline_note") task;
            })
      ]
    ]

    abbrev pub render : Verdict → Text
    render v = dumps v ++ codes "\n"

  module _ (gate : Gate) where
    open gate use {root, disk}

    abbrev pub tiered : Verdict → Run → Run
    tiered v run = record run {
      tasks = if v.tier == "tasks" then suc run.tasks else run.tasks;
      wip = if v.tier == "tasks" then run.wip else suc run.wip;
    }

    -- What a check finds at the place of one verdict.
    abbrev pub compared : Text → Text → Option Text → List Drifted
    compared task_id text none = missing task_id ∷ []
    compared task_id text (some there) = if there == text then [] else differs task_id ∷ []

    -- The body of the loop, with `write` and without.
    unfoldable pub one : Bool → Text → Run → Option Run
    one write task_id run = elim (build gate task_id) [
      | none ↦ none
      | some v ↦ elim (verdict_path root disk task_id) [
        | none ↦ none
        | some path ↦
            let text = render gate v in
            some (
              if write
              then record (tiered v run) { files = insert path text run.files }
              else record (tiered v run) {
                drift = run.drift ++ compared task_id text (lookup path run.files);
              })
      ]
    ]

    unfoldable pub loop : Bool → List Text → Run → Option Run
    loop write [] run = some run
    loop write (task_id ∷ selected) run = elim (one write task_id run) [
      | none ↦ none
      | some run' ↦ loop write selected run'
    ]

    abbrev pub start : Dict Location Text → Run
    start files = record { drift = []; tasks = 0; wip = 0; files = files }

    abbrev pub exit_code : Run → ℕ
    exit_code run = if is_nil run.drift then 0 else 1

    abbrev pub selected_of : List Text → List Text
    selected_of argv =
        let named = keep (λ (arg : Text). not (starts_with arg (codes "-"))) argv in
        if is_nil named then task_ids root disk else named

    -- The exit code and the files after the run.
    abbrev pub ended : Option Run → Option (ℕ × Dict Location Text)
    ended none = none
    ended (some run) = some (exit_code run, run.files)

    -- `none` is an exception.
    abbrev pub main : List Text → Dict Location Text → Option (ℕ × Dict Location Text)
    main argv files =
        let check = contains argv (codes "--check") in
        let write = contains argv (codes "--write") in
        if check || write
        then ended (loop write (selected_of argv) (start files))
        else some (2, files)
