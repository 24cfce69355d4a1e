-- ===== src/Analysis/EvalLib.antt =====
-- analysis/eval_lib.py: the rows of a results directory and the curated attribution. The counters of
-- a row are natural numbers.
use bmk_dev.Base.{
  ℕ, ◌+◌, Bool, ◌||◌, Option, none, some, List, [], ◌∷◌, String, ◌==◌, contains, nat_eq, list_eq,
  string_eq, option_eq, if◌then◌else◌, ltb, eqb, is_nil,
}
use mathlib.Core.Option.{get_or}
use bmk_dev.Base.Text.{Text, codes, ends_with}
use bmk_dev.Base.Sorting.{sorted, le_text}
use bmk_dev.Base.Floats.{Floats}
use bmk_dev.Base.Dict.{Dict, lookup}

pub record Row : Type 0 where
  pub task : Text
  pub language : Text
  pub status : Text
  pub atomic_passed : ℕ
  pub atomic_total : ℕ
  pub integ_passed : ℕ
  pub integ_total : ℕ

abbrev pub total : Row → ℕ
total r = r.atomic_total + r.integ_total

abbrev pub passed : Row → ℕ
passed r = r.atomic_passed + r.integ_passed

abbrev pub klass : Row → String
klass r = if r.status == codes "ok" then "ok" else if ltb 0 (total r) then "partial" else "zero"

abbrev pub avg : (F : Floats) → Row → Option F.Float
avg F r = if eqb (total r) 0 then none else some (F.ratio (passed r) (total r))

-- The `result.json` of a directory: reading or decoding it raises, a field that is read of the decoded
-- value raises, or it gives a row.
pub data ReadResult : Type 0 where
  unreadable : ReadResult
  field_error : ReadResult
  row_read : Row → ReadResult

abbrev pub put_row : Row → Option (List Row) → Option (List Row)
put_row row none = none
put_row row (some rows) = some (row ∷ rows)

-- The names are those of the directories that have the file; `none` is the exception of a field, which
-- is not caught.
abbrev pub rows_loop : (Text → ReadResult) → List Text → Option (List Row)
rows_loop read [] = some []
rows_loop read (name ∷ names) =
    let rest = rows_loop read names in
    if ends_with name (codes ".old") then rest else elim (read name) [
      | unreadable ↦ rest
      | field_error ↦ none
      | row_read row ↦ put_row row rest
    ]

abbrev pub iter_rows : (Text → ReadResult) → List Text → Option (List Row)
iter_rows read names = rows_loop read (sorted le_text names)

-- `names` is `none` where the run directory is none; the result is `none` for `SystemExit` and for the
-- exception of a field.
abbrev pub load_rows : (Text → ReadResult) → Option (List Text) → Option (List Row)
load_rows read none = none
load_rows read (some names) = elim (iter_rows read names) [
  | none ↦ none
  | some rows ↦ if is_nil rows then none else some rows
]

-- The curated lists of tasks.
abbrev pub Attribution : Type 0
Attribution = Dict Text (List Text)

abbrev pub listed : Attribution → Text → List Text
listed attr key = get_or (lookup key attr) []

-- The loop over the keys and their letters.
abbrev pub bucket_loop : Attribution → Text → List (Text × String) → Option String
bucket_loop attr task [] = none
bucket_loop attr task ((key, letter) ∷ more) =
    let rest = bucket_loop attr task more in
    if contains (listed attr key) task then some letter else rest

abbrev pub buckets : List (Text × String)
buckets =
    (codes "A_candidate_fail", "A") ∷ (codes "B_spec_gap", "B") ∷ (codes "C_pending", "C") ∷ []

abbrev pub bucket_of : Attribution → Text → Option String
bucket_of attr task = bucket_loop attr task buckets

abbrev pub is_trusted : Attribution → Row → Bool
is_trusted attr r = klass r == "ok" || bucket_of attr r.task == some "A"

abbrev pub lang_order : Dict Text ℕ
lang_order =
    (codes "python", 0) ∷ (codes "java", 1) ∷ (codes "rust", 2) ∷ (codes "typescript", 3) ∷ []

abbrev pub lang_key : Text → ℕ
lang_key lang = get_or (lookup lang lang_order) 9
