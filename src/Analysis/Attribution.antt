-- ===== src/Analysis/Attribution.antt =====
-- analysis/attribution.py: the report on the tasks that did not score cleanly, and the check of the
-- curated buckets.
pub mod Coverage
use bmk_dev.Base.{
  ℕ, ◌+◌, ◌-◌, Bool, true, false, not, ◌||◌, ◌&&◌, Option, none, some, List, [], ◌∷◌, ◌++◌, String,
  ◌==◌, contains, nat_eq, list_eq, string_eq, option_eq, if◌then◌else◌, ltb, eqb, keep, map, length,
  any, all, is_nil,
}
use bmk_dev.Base.Text.{Text, codes, starts_with, has_text, is_space, split_lines, decimal}
use bmk_dev.Base.Sorting.{sorted, le_text}
use bmk_dev.Analysis.EvalLib.{Row, klass, passed, Attribution, listed, bucket_of, lang_key}

-- What `layout.spec_path` and the run of the lint give: `exists` and `spec` are of the packet, and
-- `lint` is the output of the command, or the text of the exception.
pub data Linted : Type 0 where
  printed failed : Text → Linted

-- The verdict on the lines that are not blank.
abbrev pub judge_lines : List Text → Text
judge_lines [] = codes "no-output"
judge_lines (line ∷ more) =
    if starts_with line (codes "LINT_PASS")
    then codes "PASS"
    else if any (has_text (codes "missing")) (line ∷ more)
    then codes "oracle-missing"
    else codes "FAIL(" ++ decimal (length more) ++ codes ")"

-- `none` is the `AttributeError` of `spec.exists()` where the path is `None`.
unfoldable pub lint_verdict : Option Bool → Linted → Option Text
lint_verdict none lint = none
lint_verdict (some false) lint = some (codes "no-spec")
lint_verdict (some true) (failed exc) = some (codes "error:" ++ exc)
lint_verdict (some true) (printed out) =
    some (judge_lines (keep (λ line. not (all is_space line)) (split_lines out)))

abbrev pub non_ok : List Row → List Row
non_ok = keep (λ r. not (klass r == "ok"))

abbrev pub bucket_order : Option String → ℕ
bucket_order bucket =
    if bucket == some "A"
    then 0
    else if bucket == some "B"
    then 1
    else if bucket == some "C"
    then 2
    else 3

abbrev pub le_report : Attribution → Row → Row → Bool
le_report attr r s =
    let rb = bucket_order (bucket_of attr r.task) in
    let sb = bucket_order (bucket_of attr s.task) in
    let rl = lang_key r.language in
    let sl = lang_key s.language in
    ltb rb sb || eqb rb sb && (ltb rl sl || eqb rl sl && le_text r.task s.task)

abbrev pub report_rows : Attribution → List Row → List Row
report_rows attr rows = sorted (le_report attr) (non_ok rows)

-- Sets as lists; what is asked of one is only which tasks it has.
abbrev pub zero_part : List Row → List Text
zero_part rows =
    map (λ (r : Row). r.task) (keep (λ r. klass r == "partial" && eqb (passed r) 0) rows)

abbrev pub curated : Attribution → List Text
curated attr =
    listed attr (codes "A_candidate_fail")
    ++ (listed attr (codes "B_spec_gap") ++ listed attr (codes "C_pending"))

pub record Verified : Type 0 where
  pub missing : List Text
  pub extra : List Text
  pub ok : Bool

-- The lists may name a task more than once; the source's have it once.
unfoldable pub view_verify : Attribution → List Row → Verified
view_verify attr rows =
    let missing = sorted le_text (keep (λ t. not (contains (curated attr) t)) (zero_part rows)) in
    let extra = sorted le_text (keep (λ t. not (contains (zero_part rows) t)) (curated attr)) in
    record { missing = missing; extra = extra; ok = is_nil missing && is_nil extra }
