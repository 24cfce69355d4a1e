-- ===== src/Core/Cleanroom.antt =====
-- harness/core/run.py: the workspace of a candidate run. A workspace that does not exist yet is made, so
-- its tree is that of its own entries: paths below it, first name first, with a file's text.
pub mod Contents
use bmk_dev.Base.{
  Bool, true, false, ◌||◌, ◌&&◌, not, Option, none, some, List, [], ◌∷◌, ◌++◌, contains, list_eq,
  nat_eq, ◌==◌, if◌then◌else◌, is_nil, map, keep, any,
}
use bmk_dev.Base.Text.{Text, codes, starts_with, ends_with, has_text, lower, join}
use bmk_dev.Base.Sorting.{sorted, le_text}

abbrev pub PathBelow : Type 0
PathBelow = List Text

-- A file has a text, and a directory none.
abbrev pub Entries : Type 0
Entries = List (PathBelow × Option Text)

abbrev pub banned_names : List Text
banned_names =
    codes "rubric.json"
    ∷ codes "score_reports"
    ∷ codes "solution-reference"
    ∷ codes "reference"
    ∷ codes "score_summary.csv"
    ∷ codes "MANIFEST.json"
    ∷ codes "CANDIDATES.md"
    ∷ []

-- The names that `_ignore_generated` gives.
abbrev pub is_generated : Text → Bool
is_generated n =
    n == codes "__pycache__" || ends_with n (codes ".pyc") || ends_with n (codes ".pyo")

-- `path.name`
abbrev pub last_name : PathBelow → Text
last_name [] = []
last_name (n ∷ []) = n
last_name (n ∷ m ∷ path) = last_name (m ∷ path)

-- What one path adds to `leaked`: it is added once for each test that finds it.
abbrev pub hits : Text → PathBelow → List PathBelow
hits n path =
    (if contains banned_names n then path ∷ [] else [])
    ++ (if has_text (codes "score_report") (lower n) then path ∷ [] else [])
    ++ (if starts_with n (codes "solution-") && not (n == codes "solution") then path ∷ [] else [])

unfoldable pub leaked_loop : Entries → List PathBelow
leaked_loop [] = []
leaked_loop ((path, _) ∷ entries) = hits (last_name path) path ++ leaked_loop entries

-- The task's directory: its public files by their paths, and what is below the starter, if it
-- exists.
pub record TaskDir : Type 0 where
  pub read : PathBelow → Option Text
  pub starter : Option Entries
  pub source : Text

pub record Manifest : Type 0 where
  pub run_id : Text
  pub model_label : Text
  pub task_dir_source : Text
  pub public_packet : Text
  pub starter : Option Text
  pub solution_dir : Text
  pub program_file : Text
  pub included : List Text

pub data CleanroomError : Type 0 where
  workspace_exists : Text → CleanroomError
  no_spec_or_prd : CleanroomError
  banned_paths : List Text → CleanroomError

pub data Outcome : Type 0 where
  made : Entries → Outcome
  -- an exception, with what it leaves of the workspace
  failed : CleanroomError → Entries → Outcome

-- `shutil.copytree` with `_ignore_generated`, below `starter`.
unfoldable pub copy_tree : Entries → Entries
copy_tree [] = []
copy_tree ((path, item) ∷ entries) =
    let rest = copy_tree entries in
    if any is_generated path then rest else (codes "starter" ∷ path, item) ∷ rest

abbrev pub starter_entries : Option Entries → Entries
starter_entries none = []
starter_entries (some entries) = (codes "starter" ∷ [], none) ∷ copy_tree entries

abbrev pub packet_file : Text → Option Text → Entries
packet_file n none = []
packet_file n (some text) = (codes "public_packet" ∷ n ∷ [], some text) ∷ []

abbrev pub is_file_item : Option Text → Bool
is_file_item none = false
is_file_item (some text) = true

-- `included`, of the entries in the packet and the starter.
abbrev pub included_paths : Entries → List Text
included_paths entries =
    sorted le_text (
      map (λ (path, _). join (codes "/") path)
        (keep (λ ((path, item) : PathBelow × Option Text). is_file_item item) entries))
    ++ (codes "task_prompt.txt" ∷ [])

module _ (dumps : Manifest → Text) (task : TaskDir)
    (output_root run_id program_file model_label : Text) (include_source_repo_note : Bool) where
  abbrev pub workspace_path : Text
  workspace_path = output_root ++ codes "/" ++ run_id

  unfoldable pub prompt : Text
  prompt =
      codes
        "You are solving an isolated SWE-E2E benchmark task.\n\nThis is a fresh candidate run for "
      ++ model_label
      ++ codes ".\n\nRead only the public packet in this workspace:\n"
      ++ workspace_path
      ++ codes "/public_packet"
      ++ codes "\n\nIf a starter skeleton exists, preserve its public module boundaries and\n"
      ++ codes "implement the solution by copying or extending it inside the solution directory:\n"
      ++ workspace_path
      ++ codes "/starter"
      ++ codes "\n\nImplement the requested solution in this directory only:\n"
      ++ workspace_path
      ++ codes "/solution"
      ++ codes
          "\n\nDo not inspect parent directories, benchmark repositories, source repositories,\n"
      ++ codes "rubrics, score reports, reference solutions, or prior candidate solutions.\n"
      ++ codes "When finished, ensure the requested program file is present at:\n"
      ++ workspace_path
      ++ codes "/solution/"
      ++ program_file
      ++ codes "\n"

  abbrev pub manifest_of : Entries → Manifest
  manifest_of entries = record {
    run_id = run_id;
    model_label = model_label;
    task_dir_source = task.source;
    public_packet = workspace_path ++ codes "/public_packet";
    starter = elim task.starter [
      | none ↦ none
      | some _ ↦ some (workspace_path ++ codes "/starter")
    ];
    solution_dir = workspace_path ++ codes "/solution";
    program_file = program_file;
    included = included_paths entries;
  }

  -- The packet and the starter, from the file that is the specification.
  abbrev pub public_entries : Entries → Entries
  public_entries spec =
      (codes "public_packet" ∷ [], none) ∷ spec
      ++ packet_file (codes "public_packet.md")
          (task.read (codes "candidate_task" ∷ codes "public_packet.md" ∷ []))
      ++ (if include_source_repo_note
          then packet_file (codes "source_repo.md")
              (task.read (codes "doc" ∷ codes "source_repo.md" ∷ []))
          else [])
      ++ starter_entries task.starter

  abbrev pub all_entries : Entries → Entries
  all_entries entries =
      (codes "solution" ∷ [], none) ∷ entries
      ++ ((codes "task_prompt.txt" ∷ [], some prompt)
          ∷ (codes "cleanroom_manifest.json" ∷ [], some (dumps (manifest_of entries)))
          ∷ [])

  unfoldable pub assert_no_banned_paths : Entries → Outcome
  unfolding leaked_loop
  assert_no_banned_paths entries =
      let leaked = leaked_loop entries in
      if is_nil leaked
      then made entries
      else failed (banned_paths (map (join (codes "/")) leaked)) entries

  abbrev pub finish_workspace : Entries → Outcome
  finish_workspace spec = assert_no_banned_paths (all_entries (public_entries spec))

  unfoldable pub create_cleanroom : Bool → Outcome
  unfolding prompt assert_no_banned_paths copy_tree
  create_cleanroom exists =
      if exists
      then failed (workspace_exists workspace_path) []
      else elim (task.read (codes "spec.md" ∷ [])) [
        | some text ↦ finish_workspace (packet_file (codes "spec.md") (some text))
        | none ↦ elim (task.read (codes "prd.md" ∷ [])) [
          | some text ↦ finish_workspace (packet_file (codes "prd.md") (some text))
          | none ↦ failed no_spec_or_prd ((codes "solution" ∷ [], none) ∷ [])
        ]
      ]
