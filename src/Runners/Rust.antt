-- ===== src/Runners/Rust.antt =====
-- harness/lang/rust/runner.py: `RustRunner`. The host's disk, the matches of the patterns, the packages
-- of a cargo workspace and the decoding of JSON are parameters.
pub mod Names
use mathlib.Core.List.{flat_map}
use mathlib.Core.Option.{get_or}
use bmk_dev.Base.{
  ℕ, ◌&&◌, ◌||◌, Bool, true, false, not, Option, none, some, List, [], ◌∷◌, ◌++◌, String, map,
  contains, list_eq, nat_eq, if◌then◌else◌, is_nil, ◌==◌,
}
use bmk_dev.Base.Text.{
  Text, codes, starts_with, join, before_first, after_first, splitlines, strip, quote, decimal,
}
use bmk_dev.Base.Sorting.{sorted, le_text}
use bmk_dev.Base.Dict.{Dict, insert, lookup}
use bmk_dev.Runners.{Batch, Env, Runner}
use bmk_dev.Runners.RustSetup.{Package, rust_setup, rust_provenance}
use bmk_dev.Runners.Scopes.{nested_names}
use bmk_dev.Runners.Comments.{depends_on_above}

-- An event of the report, with the fields that are read.
pub record RustEvent : Type 0 where
  pub type_of : Option Text
  pub event : Option Text
  pub name_of : Option Text

pub record RustHost (Host : Type 0) : Type 0 where
  pub is_dir : Host → Text → Bool
  -- the texts of the `*.rs` files below a directory, sorted by their paths
  pub sources : Host → Text → List Text
  -- the matches of `_MOD_DECL` and `_TEST_FN`, by their start and their group
  pub modules : Text → List (ℕ × Text)
  pub tests : Text → List (ℕ × Text)
  -- `_workspace_packages`; `none` stands for no manifest or an exception
  pub packages : Host → Option (List Package)
  pub loads : Text → Option RustEvent
  pub repr : List Text → Text

abbrev pub filter_name : Text → Text
filter_name test = get_or (after_first (codes "::") test) test

abbrev pub join_id : Text → Text → Text
join_id [] path = path
join_id (c ∷ crate) path = (c ∷ crate) ++ codes "::" ++ path

unfoldable pub reported_to_id : Text → Text
reported_to_id reported =
    join_id (get_or (before_first (codes "::") reported) [])
      (get_or (after_first (codes "$") reported) reported)

-- `sorted(set(tests))`
abbrev pub set_of : List Text → List Text
set_of [] = []
set_of (test ∷ tests) = let rest = set_of tests in if contains rest test then rest else test ∷ rest

unfoldable pub rust_batch : Text → List Text → ℕ → ℕ → Batch
rust_batch suite tests offset timeout =
    let names = join (codes " + ") (
      map (λ (t : Text). codes "test(=" ++ filter_name t ++ codes ")")
        (sorted le_text (set_of tests))) in
    let report = codes "/eval/rb_" ++ suite ++ codes "_" ++ decimal offset ++ codes ".json" in
    record {
      command =
          codes "cd "
          ++ quote (codes "/eval/oracle/" ++ suite)
          ++ codes " && NEXTEST_EXPERIMENTAL_LIBTEST_JSON=1 timeout "
          ++ decimal timeout
          ++ codes " cargo nextest run --message-format libtest-json -E "
          ++ quote names
          ++ codes " > "
          ++ report
          ++ codes " 2>/dev/null";
      report = some report;
    }

abbrev pub rust_translate : Dict Text String
rust_translate =
    (codes "ok", "passed") ∷ (codes "failed", "failed") ∷ (codes "ignored", "skipped") ∷ []

unfoldable pub rust_event_outcome : RustEvent → Option (Text × String)
unfolding reported_to_id
rust_event_outcome event =
    if not (get_or event.type_of [] == codes "test") then none else elim (get_or event.name_of []) [
      | [] ↦ none
      | c ∷ n ↦ elim (lookup (get_or event.event []) rust_translate) [
        | none ↦ none
        | some outcome ↦ some (reported_to_id (c ∷ n), outcome)
      ]
    ]

abbrev rust_line_outcome : (Text → Option RustEvent) → Text → Option (Text × String)
rust_line_outcome loads line =
    if not (starts_with (strip line) (codes "{"))
    then none
    else elim (loads (strip line)) [ none ↦ none | some event ↦ rust_event_outcome event ]

unfoldable pub rust_lines_loop :
    (Text → Option RustEvent) → List Text → Dict Text String → Dict Text String
rust_lines_loop loads [] results = results
rust_lines_loop loads (line ∷ lines) results =
    rust_lines_loop loads lines (elim (rust_line_outcome loads line) [
      | none ↦ results
      | some (id, outcome) ↦ insert id outcome results
    ])

unfoldable pub rust_outcomes : (Text → Option RustEvent) → Text → Text → Option (Dict Text String)
unfolding rust_lines_loop
rust_outcomes loads report stdout =
    let results = rust_lines_loop loads (splitlines report) [] in
    if is_nil results then none else some results

module _ {Host : Type 0} (host : RustHost Host) where
  -- The starts of the matches lie in the text, so that `nested_names` raises no exception.
  abbrev pub paths_in_file : Text → List Text
  paths_in_file text =
      map (join (codes "::")) (get_or (nested_names text (host.modules text) (host.tests text)) [])

  unfoldable pub rust_discover : Host → Text → List Text
  rust_discover oracle suite =
      if not (host.is_dir oracle suite)
      then []
      else flat_map
          (λ (text : Text). map (λ (path : Text). suite ++ codes "::" ++ path) (paths_in_file text))
          (host.sources oracle suite)

  -- The inner loop of `dependencies`, over the tests of a file.
  unfoldable pub tests_above :
      Text → List (ℕ × Text) → Dict Text (List Text) → Dict Text (List Text)
  tests_above text [] result = result
  tests_above text ((start, n) ∷ found) result =
      let names = depends_on_above text start in
      tests_above text found (if is_nil names then result else insert n names result)

  unfoldable pub sources_above : List Text → Dict Text (List Text) → Dict Text (List Text)
  unfolding tests_above
  sources_above [] result = result
  sources_above (text ∷ sources) result =
      sources_above sources (tests_above text (host.tests text) result)

  unfoldable pub rust_dependencies : Host → Dict Text (List Text)
  unfolding sources_above
  rust_dependencies oracle =
      if not (host.is_dir oracle (codes "integration"))
      then []
      else sources_above (host.sources oracle (codes "integration")) []

  abbrev pub packages_at : Option Host → Option (List Package)
  packages_at none = none
  packages_at (some root) = host.packages root

  unfoldable pub rust_runner : Runner Host
  rust_runner = record {
    discover = rust_discover;
    setup = λ env. rust_setup (packages_at env.workspace_host) env;
    batch = rust_batch;
    outcomes = λ report stdout. some (rust_outcomes host.loads report stdout);
    function_of = λ test. test;
    synthetic_id = λ suite. suite ++ codes "::placeholder";
    dependencies = rust_dependencies;
    provenance = rust_provenance host.repr;
  }
