-- ===== src/Core/Gate.antt =====
-- harness/core/verify_task.py: `check_task` and `main`.
pub mod Checks
pub mod Soundness
use bmk_dev.Base.{
  ℕ, ◌+◌, ◌||◌, ◌&&◌, Bool, true, false, not, Option, none, some, List, [], ◌∷◌, ◌++◌, map,
  contains, list_eq, nat_eq, option_eq, ◌==◌, if◌then◌else◌, is_nil, length, eqb,
}
use mathlib.Core.Option.{get_or}
use bmk_dev.Base.Text.{Text, codes, lower}
use bmk_dev.Base.Dict.{Dict}
use bmk_dev.Base.Floats.{Floats}
use bmk_dev.Runners.{Runner}
use bmk_dev.Core.GateChecks.{
  GateError, no_packet, no_spec, no_task_json, task_json_invalid, no_runner_found,
  instance_id_differs, empty_suite, no_target_imports, no_requirements, required_headings,
  forbidden_body_terms, error_if, section_errors, leakage_errors, Meta, language_errors, distinct,
  floor_errors, leaf_key, taxonomy_errors, dependency_errors,
}
use bmk_dev.Core.PythonChecks.{
  Span, Annotations, import_errors, annotate_lines, atomic_annotations, composition_errors,
  duplicate_imports, fixture_errors,
}

-- What is read of the Python files of an oracle: the imports and the kinds of the atomic suite with
-- the lines of the external helpers, then what binds names and fixtures in either suite.
pub record PythonFiles : Type 0 where
  pub has_requirements : Bool
  pub promised : Text → Bool
  pub atomic_imports : List (Text × ℕ)
  pub annotations : Annotations
  pub atomic_spans : List Span
  pub helper_lines : List ℕ
  pub bound_names : Text → List (Text × ℕ)
  pub fixture_paths : Text → List (List Text)
  pub fixture_exists : List Text → Bool

-- A packet on the disk, and the registry of the runners.
pub record PacketFiles (Host : Type 0) : Type 0 where
  pub oracle : Host
  pub has_spec : Bool
  pub has_task_json : Bool
  pub headings : List Text
  pub mentions : Text → Bool
  -- `none` is the `JSONDecodeError`
  pub task_json : Option Meta
  pub filed_under : Option Text
  pub runner_for : Text → Option (Runner Host)
  pub target_imports : List Text
  pub python_files : PythonFiles

-- What `check_task` returns: only errors, or errors and warnings.
pub data Checked : Type 0 where
  only_errors : List GateError → Checked
  checked : List GateError → List GateError → Checked

abbrev pub missing_files : Bool → Bool → List GateError
missing_files has_spec has_task_json =
    error_if (not has_spec) no_spec ++ error_if (not has_task_json) no_task_json

module _ (F : Floats) {Host : Type 0} (packet : PacketFiles Host) where
  unfoldable pub spec_errors : List GateError
  spec_errors =
      section_errors packet.headings required_headings
      ++ leakage_errors packet.mentions forbidden_body_terms

  abbrev pub suite_errors : List Text → List Text → List GateError
  suite_errors atomic_ids integration_ids =
      error_if (is_nil atomic_ids) (empty_suite (codes "atomic"))
      ++ error_if (is_nil integration_ids) (empty_suite (codes "integration"))

  -- From the layer floors to the import roots.
  unfoldable pub layer_errors : Runner Host → Meta → List Text → List Text → List GateError
  layer_errors runner data_of atomic_ids integration_ids =
      let atomic = length (distinct (map runner.function_of atomic_ids)) in
      let integration = length (distinct (map runner.function_of integration_ids)) in
      let atomic_keys = map (λ (test : Text). leaf_key (runner.function_of test)) atomic_ids in
      let integration_keys =
        map (λ (test : Text). leaf_key (runner.function_of test)) integration_ids in
      floor_errors atomic integration data_of
      ++ taxonomy_errors atomic_keys integration_keys data_of
      ++ dependency_errors F (runner.dependencies packet.oracle) integration atomic_keys
      ++ error_if (is_nil packet.target_imports) no_target_imports

  abbrev pub composition : List GateError
  composition =
      let files = packet.python_files in
      composition_errors F (
        atomic_annotations (annotate_lines files.atomic_spans files.annotations files.helper_lines))

  abbrev pub fixtures : List GateError
  fixtures =
      let files = packet.python_files in
      fixture_errors files.fixture_exists (files.fixture_paths (codes "test_atomic.py"))
      ++ fixture_errors files.fixture_exists (files.fixture_paths (codes "test_integration.py"))

  -- What follows the guard on the language, with the errors so far.
  unfoldable pub check_python : Meta → List GateError → Checked
  check_python data_of errors =
      let files = packet.python_files in
      checked
        (errors
          ++ error_if (not files.has_requirements) no_requirements
          ++ import_errors packet.target_imports files.promised files.atomic_imports
          ++ (if data_of.has_validation then composition else [])
          ++ fixtures)
        ((if data_of.has_validation then [] else composition)
          ++ duplicate_imports [] (files.bound_names (codes "test_atomic.py"))
          ++ duplicate_imports [] (files.bound_names (codes "test_integration.py")))

  -- From the guard on the language on.
  unfoldable pub check_language : Meta → List GateError → Checked
  unfolding check_python
  check_language data_of errors =
      if not (lower data_of.language == codes "python")
      then checked errors []
      else check_python data_of errors

  -- From the enumeration of the suites on, with the errors so far.
  unfoldable pub check_suites : Runner Host → Meta → List GateError → Checked
  unfolding layer_errors check_language
  check_suites runner data_of before =
      let atomic_ids = runner.discover packet.oracle (codes "atomic") in
      let integration_ids = runner.discover packet.oracle (codes "integration") in
      let errors = before ++ suite_errors atomic_ids integration_ids in
      if not (is_nil errors) && is_nil atomic_ids && is_nil integration_ids
      then checked errors []
      else check_language data_of (errors ++ layer_errors runner data_of atomic_ids integration_ids)

  -- From the runner on.
  unfoldable pub check_runner : Text → Meta → List GateError → Option (Runner Host) → Checked
  unfolding check_suites
  check_runner task_id data_of errors none = only_errors (errors ++ (no_runner_found ∷ []))
  check_runner task_id data_of errors (some runner) =
      check_suites runner data_of
        (errors ++ error_if (not (data_of.instance_id == some task_id)) instance_id_differs)

  -- From task.json on, with what is decoded.
  unfoldable pub check_meta : Text → List GateError → Option Meta → Checked
  unfolding check_runner
  check_meta task_id errors none = only_errors (errors ++ (task_json_invalid ∷ []))
  check_meta task_id errors (some data_of) =
      check_runner task_id data_of
        (errors ++ language_errors (lower data_of.language) packet.filed_under)
        (packet.runner_for (lower data_of.language))

  unfoldable pub check_packet : Text → List GateError → Checked
  unfolding spec_errors check_meta
  check_packet task_id (error ∷ missing) = only_errors (error ∷ missing)
  check_packet task_id [] = check_meta task_id spec_errors packet.task_json

-- `check_task`: `task_dir` is the packet that layout.task_dir finds.
unfoldable pub check_task :
    Floats → {Host : Type 0} → (Text → Option (PacketFiles Host)) → Text → Checked
unfolding check_packet
check_task F task_dir task_id = elim (task_dir task_id) [
  | none ↦ only_errors (no_packet ∷ [])
  | some packet ↦ check_packet F packet task_id (missing_files packet.has_spec packet.has_task_json)
]

abbrev pub errors_of : Checked → List GateError
errors_of (only_errors errors) = errors
errors_of (checked errors warnings) = errors

-- The exit code of `main`.
unfoldable pub main : Floats → {Host : Type 0} → (Text → Option (PacketFiles Host)) → List Text → ℕ
unfolding check_task
main F task_dir (task_id ∷ []) = if is_nil (errors_of (check_task F task_dir task_id)) then 0 else 1
main F task_dir _ = 2
