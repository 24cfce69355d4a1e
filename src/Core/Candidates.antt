-- ===== src/Core/Candidates.antt =====
-- harness/core/validate_ledger.py: the table of CANDIDATES.md, the warnings of the ledger and the
-- exit code of the gate.
pub mod Warnings
use bmk_dev.Base.{
  ℕ, zero, suc, ◌+◌, ◌-◌, Bool, true, false, not, ◌||◌, ◌&&◌, Option, none, some, List, [], ◌∷◌,
  ◌++◌, String, ◌==◌, contains, nat_eq, list_eq, string_eq, option_eq, if◌then◌else◌, eqb, leb,
  keep, map, length, any, all, is_nil,
}
use mathlib.Core.Option.{get_or}
use mathlib.Core.List.{reverse, flat_map}
use bmk_dev.Base.Text.{Text, codes, strip, starts_with, ends_with, split_lines, is_empty, join}
use bmk_dev.Base.Sorting.{sorted, le_text}
use bmk_dev.Base.Dict.{Dict, keys, lookup, insert, update, has_key}
use bmk_dev.Core.Layout.{Location, Disk, task_ids, strays, duplicates, verdict_path, tier_of}

abbrev pub bar : ℕ
bar = 124

-- `s.strip("|")`
abbrev pub lstrip_bars : Text → Text
lstrip_bars [] = []
lstrip_bars (c ∷ s) = let rest = lstrip_bars s in if eqb c bar then rest else c ∷ s

abbrev pub strip_bars : Text → Text
strip_bars s = reverse (lstrip_bars (reverse (lstrip_bars s)))

-- `s.split("|")`
abbrev pub split_bars : Text → List Text
split_bars [] = [] ∷ []
split_bars (c ∷ s) = elim (split_bars s) [
  | [] ↦ []
  | cell ∷ cells ↦ if eqb c bar then [] ∷ cell ∷ cells else (c ∷ cell) ∷ cells
]

-- The rest of `:?-{3,}:?` behind the first colon, by the dashes that were read.
abbrev pub dashes : ℕ → Text → Bool
dashes n [] = leb 3 n
dashes n (c ∷ s) =
    let more = dashes (suc n) s in if eqb c b'-' then more else eqb c b':' && is_empty s && leb 3 n

abbrev pub is_rule : Text → Bool
is_rule [] = false
is_rule (c ∷ s) = if eqb c b':' then dashes 0 s else dashes 0 (c ∷ s)

-- `dict(zip(header, cells))`, with the cells that are missing empty
abbrev pub row_of : List Text → List Text → Dict Text Text
row_of [] cells = []
row_of (name ∷ header) [] = (name, []) ∷ row_of header []
row_of (name ∷ header) (cell ∷ cells) = (name, cell) ∷ row_of header cells

abbrev pub cells_of : Text → List Text
cells_of stripped = map strip (split_bars (strip_bars stripped))

-- The loop over the lines.
unfoldable pub table_loop : List Text → Option (List Text) → List (Dict Text Text)
table_loop [] header = []
table_loop (line ∷ lines) header =
    let stripped = strip line in
    let cells = cells_of stripped in
    let skipped = table_loop lines header in
    let started = table_loop lines (some cells) in
    if not (starts_with stripped (codes "|")) || not (ends_with stripped (codes "|"))
    then skipped
    else if all is_rule cells
    then skipped
    else elim header [ none ↦ started | some names ↦ update [] (row_of names cells) ∷ skipped ]

-- `none` is a file that does not exist.
abbrev pub parse_markdown_table : Option Text → List (Dict Text Text)
parse_markdown_table none = []
parse_markdown_table (some text) = table_loop (split_lines text) none

abbrev pub allowed_statuses : List Text
allowed_statuses =
    codes "SELECTED"
    ∷ codes "RETIRED"
    ∷ codes "QUALIFIED"
    ∷ codes "REOPENED"
    ∷ codes "SUPERSEDED"
    ∷ []

abbrev pub cell : Text → Dict Text Text → Text
cell name row = strip (get_or (lookup name row) [])

abbrev pub repo_of : Dict Text Text → Text
repo_of = cell (codes "repo")

abbrev pub status_of : Dict Text Text → Text
status_of = cell (codes "status")

-- A warning, with what its line shows.
pub data Warning : Type 0 where
  unknown_status : Text → Text → Warning
  no_packet : Dict Text Text → Text → Warning
  stray : Location → Warning
  both_trees : Text → Warning
  tier_differs : Text → Text → Option Text → Warning
  contradiction : Text → List Text → Warning

unfoldable pub status_warnings : List (Dict Text Text) → List Warning
status_warnings [] = []
status_warnings (row ∷ rows) =
    let rest = status_warnings rows in
    let status = status_of row in
    if not (is_empty status) && not (contains allowed_statuses status)
    then unknown_status status (repo_of row) ∷ rest
    else rest

-- `by_repo[repo].add(status)`
abbrev pub add_status : Text → List Text → List Text
add_status status statuses =
    if contains statuses status then statuses else statuses ++ (status ∷ [])

unfoldable pub add_row : Dict Text Text → Dict Text (List Text) → Dict Text (List Text)
add_row row found =
    let repo = repo_of row in
    if is_empty repo
    then found
    else insert repo (add_status (status_of row) (get_or (lookup repo found) [])) found

unfoldable pub by_repo : List (Dict Text Text) → Dict Text (List Text) → Dict Text (List Text)
by_repo [] found = found
by_repo (row ∷ rows) found = by_repo rows (add_row row found)

abbrev pub is_gone : Text → Bool
is_gone status = contains (codes "RETIRED" ∷ codes "SUPERSEDED" ∷ []) status

-- `find_ids` is `TASK_ID_RE.findall`.
abbrev pub packet_warnings : (Text → List Text) → List Text → List (Dict Text Text) → List Warning
packet_warnings find_ids known rows =
    flat_map
      (λ (row : Dict Text Text).
        map (λ (task_id : Text). no_packet row task_id)
          (keep (λ task_id. not (contains known task_id) && not (is_gone (status_of row)))
            (find_ids (join (codes " ") (map (λ (_, value). value) row)))))
      rows

abbrev pub repo_warnings : Dict Text (List Text) → List Warning
repo_warnings found =
    flat_map
      (λ (repo : Text).
        let statuses = get_or (lookup repo found) [] in
        if contains statuses (codes "QUALIFIED") && contains statuses (codes "RETIRED")
        then contradiction repo (sorted le_text statuses) ∷ []
        else [])
      (sorted le_text (keys found))

-- The tier of a verdict file: an exception that is caught, the `TypeError` of a value that is no
-- object, or the field.
pub data TierRead : Type 0 where
  caught_error : TierRead
  no_object : TierRead
  tier_text : Text → TierRead

module _ (root : Location) (disk : Disk) where
  -- `tier_in` reads the tier of a verdict file.
  module _ (tier_in : Location → TierRead) where
    -- `none` is the `TypeError`.
    unfoldable pub tier_warning : Text → Option (List Warning)
    tier_warning task_id = elim (verdict_path root disk task_id) [
      | none ↦ some []
      | some path ↦
          if disk.is_file path
          then elim (tier_in path) [
            | caught_error ↦ some []
            | no_object ↦ none
            | tier_text tier ↦
                if some tier == tier_of root disk task_id
                then some []
                else some (tier_differs task_id tier (tier_of root disk task_id) ∷ [])
          ]
          else some []
    ]

    unfoldable pub tier_warnings : List Text → Option (List Warning)
    tier_warnings [] = some []
    tier_warnings (task_id ∷ ids) =
        let rest = tier_warnings ids in
        elim (tier_warning task_id) [
          | none ↦ none
          | some here ↦ elim rest [ none ↦ none | some later ↦ some (here ++ later) ]
        ]

    abbrev pub ledger_warnings : (Text → List Text) → Option Text → Option (List Warning)
    ledger_warnings find_ids candidates =
        let rows = parse_markdown_table candidates in
        elim (tier_warnings (task_ids root disk)) [
          | none ↦ none
          | some tiers ↦ some (
              status_warnings rows
              ++ (packet_warnings find_ids (task_ids root disk) rows
                  ++ (map stray (strays root disk)
                      ++ (map both_trees (duplicates root disk)
                          ++ (tiers ++ repo_warnings (by_repo rows []))))))
        ]

  -- `check_task` is the gate of harness/core/verify_task.py.
  module _ (check_task : Text → List Text × List Text) where
    abbrev pub failures : List Text → ℕ
    failures [] = 0
    failures (task_id ∷ ids) =
        let more = failures ids in if is_nil (check_task task_id).0 then more else suc more

    abbrev pub selected_ids : List Text → List Text
    selected_ids argv = if is_nil argv then task_ids root disk else argv

    -- The exit code, where the warnings raise no exception.
    abbrev pub gate : List Text → ℕ
    gate argv = if eqb (failures (selected_ids argv)) 0 then 0 else 1
