-- ===== src/Core/Layout.antt =====
-- harness/core/layout.py: where a packet or a bench lives. The disk is a record of what the source
-- asks of it at one moment.
pub mod Laws
pub mod Standing
pub mod Resolution
use bmk_dev.Base.{
  ℕ, Bool, true, false, ◌&&◌, ◌||◌, not, Option, none, some, List, [], ◌∷◌, ◌++◌, String, ◌==◌,
  contains, nat_eq, list_eq, option_eq, if◌then◌else◌, keep, map, first,
}
use mathlib.Core.Option.{or_else}
use mathlib.Core.List.{flat_map}
use bmk_dev.Base.Text.{Text, codes, starts_with}
use bmk_dev.Base.Sorting.{sorted, le_text}
use bmk_dev.Base.Dict.{Dict, keys, lookup, insert, update, has_key}

-- A `Path` by its parts, the last one first: `p / name` is `name ∷ p`.
abbrev pub Location : Type 0
Location = List Text

-- What is asked of the disk. `read_json` is `json.loads` of a file's text, for a JSON object, and
-- `none` where reading or decoding raises.
pub record Disk : Type 0 where
  pub is_dir : Location → Bool
  pub is_file : Location → Bool
  pub iterdir : Location → List Text
  pub read_json : Location → Option (Dict Text Text)

abbrev pub name_of : Location → Text
name_of [] = []
name_of (name ∷ _) = name

abbrev pub parent_of : Location → Location
parent_of [] = []
parent_of (_ ∷ parent) = parent

-- `path.parents`
abbrev pub parents : Location → List Location
parents [] = []
parents (_ ∷ parent) = parent ∷ parents parent

abbrev pub languages : List Text
languages = codes "python" ∷ codes "java" ∷ codes "rust" ∷ codes "typescript" ∷ codes "go" ∷ []

abbrev pub not_a_task : List Text
not_a_task =
    codes ".gitkeep" ∷ codes "_stage1" ∷ codes "GLOBAL_PROGRESS.md" ∷ codes "PROGRESS.md" ∷ []

abbrev pub packet_dirname : Text
packet_dirname = codes "packet"

module _ (disk : Disk) where
  -- The loop over `sorted(bucket.iterdir())`.
  unfoldable pub bucket_loop : Location → List Text → Dict Text Location → Dict Text Location
  bucket_loop bucket [] found = found
  bucket_loop bucket (name ∷ names) found =
      let path = name ∷ bucket in
      bucket_loop bucket names (
        if disk.is_dir path && not (contains not_a_task name)
        then insert name path found
        else found)

  -- The loop over the languages.
  unfoldable pub languages_loop : Location → List Text → Dict Text Location → Dict Text Location
  languages_loop tree [] found = found
  languages_loop tree (language ∷ more) found =
      let bucket = language ∷ tree in
      languages_loop tree more (
        if disk.is_dir bucket
        then bucket_loop bucket (sorted le_text (disk.iterdir bucket)) found
        else found)

  abbrev pub bucketed : Location → Dict Text Location
  bucketed tree = languages_loop tree languages []

  -- The loop over the benches.
  unfoldable pub packet_loop : Dict Text Location → Dict Text Location → Dict Text Location
  packet_loop [] found = found
  packet_loop ((task_id, bench) ∷ more) found =
      let packet = packet_dirname ∷ bench in
      packet_loop more (if disk.is_dir packet then insert task_id packet found else found)

-- `ROOT` is what the file's own place gives.
module _ (root : Location) where
  abbrev pub tasks : Location
  tasks = codes "tasks" ∷ root

  abbrev pub benches : Location
  benches = codes "wip" ∷ root

  module _ (disk : Disk) where
    abbrev pub graduated_dirs : Dict Text Location
    graduated_dirs = bucketed disk tasks

    abbrev pub benched_packet_dirs : Dict Text Location
    benched_packet_dirs = packet_loop disk (bucketed disk benches) []

    abbrev pub bench_dirs : Dict Text Location
    bench_dirs = bucketed disk benches

    abbrev pub task_dirs : Dict Text Location
    task_dirs = update benched_packet_dirs graduated_dirs

    abbrev pub duplicates : List Text
    duplicates = sorted le_text (keep (contains (keys benched_packet_dirs)) (keys graduated_dirs))

    abbrev pub task_ids : List Text
    task_ids = sorted le_text (keys task_dirs)

    abbrev pub task_dir : Text → Option Location
    task_dir task_id = lookup task_id task_dirs

    abbrev pub tier_of_path : Location → Text
    tier_of_path path = if contains (parents path) tasks then codes "tasks" else codes "wip"

    abbrev pub tier_of : Text → Option Text
    tier_of task_id = elim (task_dir task_id) [ none ↦ none | some path ↦ some (tier_of_path path) ]

    -- The loop over `path.parents`.
    abbrev pub language_loop : List Location → Option Text
    language_loop [] = none
    language_loop (parent ∷ more) =
        let rest = language_loop more in
        if contains languages (name_of parent) && contains (tasks ∷ benches ∷ []) (parent_of parent)
        then some (name_of parent)
        else rest

    abbrev pub language_of : Text → Option Text
    language_of task_id = elim (task_dir task_id) [
      | none ↦ none
      | some path ↦ language_loop (parents path)
    ]

    -- `none` stands for an unreadable file as for an absent field.
    abbrev pub declared_language : Text → Option Text
    declared_language task_id = elim (task_dir task_id) [
      | none ↦ none
      | some path ↦
          let meta = codes "task.json" ∷ path in
          if disk.is_file meta
          then elim (disk.read_json meta) [ none ↦ none | some j ↦ lookup (codes "language") j ]
          else none
    ]

    abbrev pub under : Text → Text → Option Location
    under name task_id = elim (task_dir task_id) [ none ↦ none | some path ↦ some (name ∷ path) ]

    abbrev pub oracle_dir : Text → Option Location
    oracle_dir = under (codes "oracle")

    abbrev pub spec_path : Text → Option Location
    spec_path = under (codes "spec.md")

    abbrev pub meta_path : Text → Option Location
    meta_path = under (codes "task.json")

    abbrev pub bench_language : Text → Option Text
    bench_language task_id =
        first (λ language. disk.is_dir (task_id ∷ language ∷ benches)) languages

    -- `none` is the `ValueError`.
    abbrev pub bench_dir : Text → Option Text → Option Location
    bench_dir task_id language =
        elim (or_else (language_of task_id) (or_else (bench_language task_id) language)) [
          | none ↦ none
          | some resolved ↦ some (task_id ∷ resolved ∷ benches)
        ]

    abbrev pub existing_bench_dir : Text → Option Location
    existing_bench_dir task_id = elim (bench_language task_id) [
      | none ↦ none
      | some language ↦ some (task_id ∷ language ∷ benches)
    ]

    abbrev pub verdict_path : Text → Option Location
    verdict_path task_id = elim (task_dir task_id) [
      | none ↦ none
      | some path ↦ some (
          codes "verdict.json"
          ∷ (if tier_of task_id == some (codes "wip") then parent_of path else path))
    ]

    abbrev pub is_stray : Location → Text → Bool
    is_stray tree name =
        disk.is_dir (name ∷ tree)
        && not (contains languages name)
        && not (starts_with name (codes "_"))
        && not (contains not_a_task name)

    abbrev pub strays : List Location
    strays =
        flat_map
          (λ (tree : Location).
            if disk.is_dir tree
            then map (λ (name : Text). name ∷ tree)
                (keep (is_stray tree) (sorted le_text (disk.iterdir tree)))
            else [])
          (tasks ∷ benches ∷ [])
