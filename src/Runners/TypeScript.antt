-- ===== src/Runners/TypeScript.antt =====
-- harness/lang/typescript/runner.py: `TypeScriptRunner`. The host's disk, the matches of the patterns
-- and the decoding of JSON are parameters; the digits and the word characters of `function_of` are
-- ASCII's.
pub mod Titles
pub mod Cases
use mathlib.Core.List.{flat_map, reverse}
use mathlib.Core.Option
use mathlib.Core.Option.{get_or, or_else}
use bmk_dev.Base.{
  ℕ, ◌&&◌, ◌||◌, Bool, true, false, not, Option, none, some, List, [], ◌∷◌, ◌++◌, String, map,
  contains, list_eq, nat_eq, if◌then◌else◌, is_nil, ◌==◌, leb, eqb, drop, keep, get_elem?,
  string_eq, option_eq,
}
use bmk_dev.Base.Text.{
  Text, codes, starts_with, join, strip, quote, decimal, is_digit, is_space, is_empty, strip_prefix,
  after_last, split_text, split_on,
}
use bmk_dev.Base.Sorting.{sorted, le_text}
use bmk_dev.Base.Dict.{Dict, insert}
use bmk_dev.Runners.{Batch, Env, Runner, Step, Loaded, not_json, other_shape, decoded}
use bmk_dev.Runners.TypeScriptSetup.{ts_setup, ts_provenance}
use bmk_dev.Runners.Rust.{set_of}
use bmk_dev.Runners.Scopes.{nested_names}
use bmk_dev.Runners.Comments.{depends_on_above}

-- An assertion of the report, and the entry of a file, with the fields that are read; a status is
-- a name of vitest.
pub record Assertion : Type 0 where
  pub status : Option String
  pub ancestor_titles : List Text
  pub title : Text

pub record FileResult : Type 0 where
  pub name_of : Text
  pub assertions : List Assertion

pub record TsHost (Host : Type 0) : Type 0 where
  pub is_dir : Host → Text → Bool
  -- the texts of the `*.test.ts` files below a directory, sorted by their paths
  pub sources : Host → Text → List Text
  -- the matches of `_DESCRIBE_CALL` and `_TEST_CALL`, by their start and their title
  pub describes : Text → List (ℕ × Text)
  pub tests : Text → List (ℕ × Text)
  -- the entries of `testResults`; `none` is the `ValueError`
  pub loads : Text → Loaded (List FileResult)
  pub dumps : List Text → Text
  pub re_escape : Text → Text

-- What stands behind the characters that pass a test, and whether there is one.
abbrev pub rest_of : (ℕ → Bool) → Text → Text
rest_of p [] = []
rest_of p (c ∷ s) = let rest = rest_of p s in if p c then rest else c ∷ s

abbrev pub begins_with : (ℕ → Bool) → Text → Bool
begins_with p [] = false
begins_with p (c ∷ s) = p c

-- `X+`, and what follows it.
abbrev pub past_some : (ℕ → Bool) → Text → Option Text
past_some p s = if begins_with p s then some (rest_of p s) else none

abbrev pub is_letter : ℕ → Bool
is_letter c = (leb b'a' c && leb c b'z') || (leb b'A' c && leb c b'Z')

abbrev pub is_word : ℕ → Bool
is_word c = is_letter c || is_digit c || eqb c b'_'

abbrev pub trim : Text → Text
trim = rest_of is_space

-- The patterns stand at the end of a title, so that they are read in the title turned around: what
-- is left of it. `\[\d+\]`:
abbrev pub drop_index : Text → Option Text
drop_index s = elim (strip_prefix (codes "]") s) [
  | none ↦ none
  | some t ↦ elim (past_some is_digit t) [ none ↦ none | some u ↦ strip_prefix (codes "[") u ]
]

-- `%[#a-zA-Z]`
abbrev pub drop_percent : Text → Option Text
drop_percent [] = none
drop_percent (c ∷ s) = if is_letter c || eqb c b'#' then strip_prefix (codes "%") s else none

-- `\$\w+`
abbrev pub drop_dollar : Text → Option Text
drop_dollar s = elim (past_some is_word s) [ none ↦ none | some t ↦ strip_prefix (codes "$") t ]

-- `(?:\.\d+)?`, from the digits behind the point: the digits before it are there too.
abbrev pub drop_fraction : Text → Text
drop_fraction s = elim (strip_prefix (codes ".") s) [
  | none ↦ s
  | some t ↦ get_or (past_some is_digit t) s
]

-- `-?\d+(?:\.\d+)?`
abbrev pub drop_number : Text → Option Text
drop_number s = elim (past_some is_digit s) [
  | none ↦ none
  | some t ↦ let u = drop_fraction t in some (get_or (strip_prefix (codes "-") u) u)
]

-- `re.sub(r"\s*X\s*$", "", leaf)`, turned around.
abbrev pub sub_end : (Text → Option Text) → Text → Text
sub_end x s = elim (x (trim s)) [ none ↦ s | some t ↦ trim t ]

-- The alternatives, the one that reaches furthest first.
abbrev pub drop_case : Text → Option Text
drop_case s = or_else (drop_percent s) (or_else (drop_dollar s) (drop_number s))

-- The two substitutions and `rstrip`.
unfoldable pub fold_title : Text → Text
fold_title leaf = reverse (trim (sub_end drop_case (sub_end drop_index (reverse leaf))))

-- `test.rpartition(sep)[0]` where the separator occurs
abbrev pub before_last : Text → Text → Option Text
before_last sep [] = none
before_last sep (c ∷ s) = elim (before_last sep s) [
  | some t ↦ some (c ∷ t)
  | none ↦ if starts_with (c ∷ s) sep then some [] else none
]

abbrev pub with_head : Text → Text → Text
with_head [] leaf = leaf
with_head (c ∷ head) leaf = c ∷ head ++ codes "::" ++ leaf

unfoldable pub ts_function_of : Text → Text
ts_function_of test =
    with_head (get_or (before_last (codes "::") test) [])
      (fold_title (after_last (codes "::") test))

-- `_full_name`
abbrev pub full_name : Text → Text
full_name test = join (codes " ") (drop 1 (split_text (codes "::") test))

-- `path.parts`, without the parts that stand for the directory itself.
abbrev pub path_parts : Text → List Text
path_parts path =
    (if starts_with path (codes "/") then codes "/" ∷ [] else [])
    ++ keep (λ (part : Text). not (is_empty part || part == codes ".")) (split_on b'/' path)

-- `path.relative_to(root).parts` where it does not raise.
abbrev pub relative_to : List Text → List Text → Option (List Text)
relative_to [] parts = some parts
relative_to (part ∷ root) [] = none
relative_to (part ∷ root) (first_part ∷ parts) =
    let rest = relative_to root parts in if part == first_part then rest else none

-- `_suite_of`. The root itself is no file; for it the source raises, and here stands no suite.
unfoldable pub suite_of : Text → Text
suite_of path =
    elim (relative_to (codes "/" ∷ codes "eval" ∷ codes "oracle" ∷ []) (path_parts path)) [
      | some parts ↦ get_or (get_elem? parts 0) []
      | none ↦ get_or (get_elem? (path_parts path) 1) []
    ]

abbrev pub outcome_of_status : Option String → String
outcome_of_status none = "failed"
outcome_of_status (some status) = if status == "" then "failed" else status

abbrev pub assertion_key : Text → Assertion → Text
assertion_key suite assertion =
    if is_empty suite
    then assertion.title
    else join (codes "::") (suite ∷ assertion.ancestor_titles ++ (assertion.title ∷ []))

-- The loop over the assertions of a file.
unfoldable pub assertions_loop : Text → List Assertion → Dict Text String → Dict Text String
assertions_loop suite [] results = results
assertions_loop suite (assertion ∷ more) results = assertions_loop suite more (
    if assertion.status == some "skipped"
    then results
    else insert (assertion_key suite assertion) (outcome_of_status assertion.status) results)

unfoldable pub file_results_loop : List FileResult → Dict Text String → Dict Text String
unfolding assertions_loop suite_of
file_results_loop [] results = results
file_results_loop (file ∷ files) results =
    file_results_loop files (assertions_loop (suite_of file.name_of) file.assertions results)

-- `none` is the exception, and `some none` the result `None`.
unfoldable pub ts_outcomes :
    (Text → Loaded (List FileResult)) → Text → Text → Option (Option (Dict Text String))
unfolding file_results_loop
ts_outcomes loads report stdout =
    if is_empty (strip report) then some none else elim (loads (strip report)) [
      | not_json ↦ some none
      | other_shape ↦ none
      | decoded files ↦
          let results = file_results_loop files [] in
          some (if is_nil results then none else some results)
    ]

module _ {Host : Type 0} (host : TsHost Host) where
  unfoldable pub ts_batch : Text → List Text → ℕ → ℕ → Batch
  unfolding ts_function_of
  ts_batch suite tests offset timeout =
      let names = join (codes "|") (
        sorted le_text (
          set_of (
            map (λ (t : Text). codes "^" ++ host.re_escape (full_name (ts_function_of t)))
              tests))) in
      let report = codes "/eval/rb_" ++ suite ++ codes "_" ++ decimal offset ++ codes ".json" in
      record {
        command =
            codes "cd /eval/oracle && timeout "
            ++ decimal timeout
            ++ codes " npx vitest run --reporter=json --outputFile="
            ++ report
            ++ codes " -t "
            ++ quote names
            ++ codes " "
            ++ quote suite
            ++ codes " > /dev/null 2>&1";
        report = some report;
      }

  -- The starts of the matches lie in the text, so that `nested_names` raises no exception.
  abbrev pub ids_in_file : Text → Text → List Text
  ids_in_file suite text =
      map (λ (chain : List Text). join (codes "::") (suite ∷ chain))
        (get_or (nested_names text (host.describes text) (host.tests text)) [])

  unfoldable pub ts_discover : Host → Text → List Text
  ts_discover oracle suite =
      if not (host.is_dir oracle suite)
      then []
      else flat_map (ids_in_file suite) (host.sources oracle suite)

  -- The loop over the tests of a file.
  unfoldable pub calls_above :
      Text → List (ℕ × Text) → Dict Text (List Text) → Dict Text (List Text)
  unfolding ts_function_of
  calls_above text [] result = result
  calls_above text ((start, title) ∷ found) result =
      let names = depends_on_above text start in
      calls_above text found
        (if is_nil names then result else insert (ts_function_of title) names result)

  unfoldable pub ts_sources_loop : List Text → Dict Text (List Text) → Dict Text (List Text)
  unfolding calls_above
  ts_sources_loop [] result = result
  ts_sources_loop (text ∷ sources) result =
      ts_sources_loop sources (calls_above text (host.tests text) result)

  unfoldable pub ts_dependencies : Host → Dict Text (List Text)
  unfolding ts_sources_loop
  ts_dependencies oracle =
      if not (host.is_dir oracle (codes "integration"))
      then []
      else ts_sources_loop (host.sources oracle (codes "integration")) []

  unfoldable pub ts_runner : Runner Host
  ts_runner = record {
    discover = ts_discover;
    setup = ts_setup;
    batch = ts_batch;
    outcomes = ts_outcomes host.loads;
    function_of = ts_function_of;
    synthetic_id = λ suite. suite ++ codes "::placeholder";
    dependencies = ts_dependencies;
    provenance = ts_provenance host.dumps;
  }
