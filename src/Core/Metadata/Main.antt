-- ===== src/Core/Metadata/Main.antt =====
-- harness/core/sync_task_metadata.py: `task_ids` and `main`, with the files that it rewrites.
use bmk_dev.Base.{
  ℕ, Bool, true, false, ◌&&◌, ◌||◌, not, Option, none, some, List, [], ◌∷◌, ◌++◌, list_eq, nat_eq,
  if◌then◌else◌, is_nil,
}
use mathlib.Core.Option.{get_or}
use bmk_dev.Base.Text.{Text, codes, starts_with, strip_prefix}
use bmk_dev.Base.Sorting.{sorted, le_text}
use bmk_dev.Base.Dict.{Dict, lookup, insert}
use bmk_dev.Base.Json.{Json, object, Fields, same_json}
use bmk_dev.Core.Layout.{Location, Disk, task_dirs}
use bmk_dev.Core.Metadata.{Library, Packet, synchronized_metadata}

-- The test on a packet in `task_ids`.
abbrev has_suite : Disk → Location → Bool
has_suite disk path =
    let oracle = codes "oracle" ∷ path in
    let exists : Location → Bool = λ p. disk.is_file p || disk.is_dir p in
    exists (codes "task.json" ∷ path)
    && ((exists (codes "test_atomic.py" ∷ oracle) && exists (codes "test_integration.py" ∷ oracle))
        || disk.is_dir (codes "atomic" ∷ codes "java" ∷ codes "test" ∷ codes "src" ∷ oracle))

unfoldable ids_with_suite : Disk → Dict Text Location → List Text
ids_with_suite disk [] = []
ids_with_suite disk ((task_id, path) ∷ more) =
    let rest = ids_with_suite disk more in if has_suite disk path then task_id ∷ rest else rest

unfoldable pub task_ids : Location → Disk → List Text
unfolding ids_with_suite
task_ids root disk = sorted le_text (ids_with_suite disk (task_dirs root disk))

-- The bytes of the files, by their places.
abbrev pub Files : Type 0
Files = Dict Location Text

-- How `main` ends: with the stale ids and the exit code, or with an exception, which is exit code 1.
pub data Ending : Type 0 where
  ended : List Text → ℕ → Ending
  raised : Ending

abbrev pub byte_order_mark : Text
byte_order_mark = 239 ∷ 187 ∷ 191 ∷ []

module _ (L : Library) where
  -- `json.loads(raw.decode("utf-8-sig"))`
  abbrev pub decoded : Text → Option (Json L.Number)
  decoded raw = L.loads (get_or (strip_prefix byte_order_mark raw) raw)

  abbrev pub prefix_of : Text → Text
  prefix_of raw = if starts_with raw byte_order_mark then byte_order_mark else []

  module _ {Host : Type 0} (packets : Text → Option (Packet Host)) (check : Bool) where
    abbrev pub meta_path : Packet Host → Location
    meta_path packet = codes "task.json" ∷ packet.location

    -- The comparison, and the file that is written: whether the task is stale, and the files.
    unfoldable pub compare_task :
        Location → Text → Fields L.Number → Fields L.Number → Files → Bool × Files
    compare_task path raw current expected files =
        if same_json L.Number L.same L.of_Bool (object current) (object expected)
        then (false, files)
        else (
          true,
          if check then files else insert path (prefix_of raw ++ L.dumps (object expected)) files,
        )

    -- From the decoded file on; a file that is no object raises.
    unfoldable pub sync_decoded :
        Text → Packet Host → Text → Option (Json L.Number) → Files → Option (Bool × Files)
    unfolding compare_task
    sync_decoded task_id packet raw (some (object current)) files =
        elim (synchronized_metadata L packet task_id current) [
          | none ↦ none
          | some expected ↦ some (compare_task (meta_path packet) raw current expected files)
        ]
    sync_decoded task_id packet raw _ files = none

    unfoldable pub sync_file : Text → Packet Host → Option Text → Files → Option (Bool × Files)
    unfolding sync_decoded
    sync_file task_id packet none files = none
    sync_file task_id packet (some raw) files = sync_decoded task_id packet raw (decoded raw) files

    -- The body of the loop.
    unfoldable pub sync_task : Text → Files → Option (Bool × Files)
    unfolding sync_file
    sync_task task_id files = elim (packets task_id) [
      | none ↦ none
      | some packet ↦ sync_file task_id packet (lookup (meta_path packet) files) files
    ]

    unfoldable pub sync_loop : List Text → List Text → Files → Ending × Files
    unfolding sync_task
    sync_loop [] stale files = (ended stale (if check && not (is_nil stale) then 1 else 0), files)
    sync_loop (task_id ∷ selected) stale files = elim (sync_task task_id files) [
      | none ↦ (raised, files)
      | some result ↦
          sync_loop selected (if result.0 then stale ++ (task_id ∷ []) else stale) result.1
    ]

    -- `main` from the selected ids on; without one the parser ends it with 2.
    unfoldable pub main : List Text → Files → Ending × Files
    unfolding sync_loop
    main [] files = (ended [] 2, files)
    main (task_id ∷ selected) files = sync_loop (task_id ∷ selected) [] files
