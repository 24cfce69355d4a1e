-- ===== src/Core/GateChecks.antt =====
-- harness/core/verify_task.py: the checks of `check_task` on a packet of any language.
use bmk_dev.Base.{
  ℕ, ◌+◌, ◌||◌, ◌&&◌, Bool, not, Option, none, some, List, [], ◌∷◌, ◌++◌, map, contains, list_eq,
  nat_eq, option_eq, ◌==◌, if◌then◌else◌, length, any, all, keep, count_if, ltb, eqb, max,
}
use mathlib.Core.List.{flat_map}
use mathlib.Core.Option.{get_or}
use bmk_dev.Base.Text.{Text, codes, has_text, before_first, after_first, after_last, strip, lower}
use bmk_dev.Base.Sorting.{sorted, le_text}
use bmk_dev.Base.Dict.{Dict, keys, lookup}
use bmk_dev.Base.Floats.{Floats}

-- What an error shows.
pub data GateError : Type 0 where
  no_packet no_spec no_task_json task_json_invalid no_runner_found instance_id_differs : GateError
  missing_section leakage_term : Text → GateError
  language_differs : Text → Text → GateError
  empty_suite : Text → GateError
  layer_floor : ℕ → ℕ → GateError
  layer_counts_below : ℕ → ℕ → ℕ → ℕ → GateError
  stats_differ_from_count : GateError
  case_floor : ℕ → GateError
  taxonomy_keys_differ atomic_layer_invalid integration_layer_invalid base_counts_exceed : GateError
  coverage_below_floor : ℕ → ℕ → GateError
  unknown_dependencies : List Text → GateError
  no_target_imports no_requirements : GateError
  import_not_promised : Text → ℕ → GateError
  too_few_positive : ℕ → ℕ → GateError
  without_check : List Text → GateError
  duplicate_import : Text → ℕ → ℕ → GateError
  fixture_missing : List Text → GateError

abbrev pub required_headings : Dict Text (List Text)
required_headings =
    (codes "overview", codes "product overview" ∷ [])
    ∷ (codes "scope", codes "scope" ∷ codes "non-goals" ∷ [])
    ∷ (
      codes "surface",
      codes "installable surface"
          ∷ codes "public import surface"
          ∷ codes "public interface"
          ∷ codes "public api"
          ∷ [],
    )
    ∷ (
      codes "state",
      codes "product state model" ∷ codes "notebook json state model" ∷ codes "state model" ∷ [],
    )
    ∷ (codes "errors", codes "error semantics" ∷ codes "validation and error reporting" ∷ [])
    ∷ (codes "cross_view", codes "cross-view invariants" ∷ codes "cross-component invariants" ∷ [])
    ∷ (codes "workflow", codes "representative workflow" ∷ codes "representative workflows" ∷ [])
    ∷ (codes "non_goals", codes "non-goals" ∷ [])
    ∷ (
      codes "invocation",
      codes "invocation protocol" ∷ codes "public interface" ∷ codes "public api" ∷ [],
    )
    ∷ (codes "environment", codes "environment" ∷ [])
    ∷ (
      codes "evaluation",
      codes "evaluation notes" ∷ codes "implementation guidance" ∷ codes "assessment notes" ∷ [],
    )
    ∷ []

abbrev pub forbidden_body_terms : List Text
forbidden_body_terms =
    codes "task_id"
    ∷ codes "source_boundary"
    ∷ codes "candidate-visible"
    ∷ codes "benchmark"
    ∷ codes "oracle"
    ∷ codes "judge"
    ∷ codes "scoring"
    ∷ []

abbrev pub atomic_test_min : ℕ
atomic_test_min = 30

abbrev pub integration_test_min : ℕ
integration_test_min = 25

abbrev pub total_test_min : ℕ
total_test_min = 60

-- A check that is made of one test.
abbrev pub error_if : Bool → GateError → List GateError
error_if b error = if b then error ∷ [] else []

abbrev pub has_section : List Text → List Text → Bool
has_section headings alternatives =
    any (λ heading. any (λ alt. has_text alt heading) alternatives) headings

-- `headings` are the matches of the pattern of a second-level heading.
unfoldable pub section_errors : List Text → Dict Text (List Text) → List GateError
section_errors headings [] = []
section_errors headings ((label, alternatives) ∷ more) =
    error_if (not (has_section (map (λ (h : Text). lower (strip h)) headings) alternatives))
      (missing_section label)
    ++ section_errors headings more

-- `mentions` searches the prose for a whole word.
unfoldable pub leakage_errors : (Text → Bool) → List Text → List GateError
leakage_errors mentions [] = []
leakage_errors mentions (term ∷ terms) =
    error_if (mentions term) (leakage_term term) ++ leakage_errors mentions terms

-- The fields of task.json, with their defaults.
pub record Meta : Type 0 where
  pub language : Text
  pub instance_id : Option Text
  pub has_validation : Bool
  pub atomic : ℕ
  pub integration : ℕ
  pub system_e2e : ℕ
  pub count : ℕ
  pub taxonomy : Dict Text Text

unfoldable pub language_errors : Text → Option Text → List GateError
language_errors language none = []
language_errors language (some filed_under) =
    error_if (not (language == filed_under)) (language_differs language filed_under)

-- A set, as a list of its elements.
unfoldable pub distinct : List Text → List Text
distinct [] = []
distinct (x ∷ xs) = let rest = distinct xs in if contains rest x then rest else x ∷ rest

-- `set(xs) == set(ys)`
abbrev pub same_set : List Text → List Text → Bool
same_set xs ys = all (contains ys) xs && all (contains xs) ys

unfoldable pub floor_errors : ℕ → ℕ → Meta → List GateError
floor_errors atomic integration data_of =
    let score_atomic = data_of.atomic in
    let score_integration = data_of.integration + data_of.system_e2e in
    error_if (ltb atomic atomic_test_min || ltb integration integration_test_min)
      (layer_floor atomic integration)
    ++ error_if (ltb score_atomic atomic || ltb score_integration integration)
        (layer_counts_below score_atomic score_integration atomic integration)
    ++ error_if (not (eqb (score_atomic + score_integration) data_of.count)) stats_differ_from_count
    ++ error_if (ltb data_of.count total_test_min) (case_floor data_of.count)

-- The body of the loop in `_leaf_keys`, for the key of a test.
abbrev pub leaf_of_parts : Text → Text → Text
leaf_of_parts suite [] = suite
leaf_of_parts suite (c ∷ rest) = suite ++ codes "::" ++ after_last (codes ".") (c ∷ rest)

abbrev pub leaf_key : Text → Text
leaf_key key =
    leaf_of_parts (get_or (before_first (codes "::") key) key)
      (get_or (after_first (codes "::") key) [])

abbrev pub layer_count : Text → Dict Text Text → ℕ
layer_count layer = count_if (λ (_, value). value == layer)

unfoldable pub taxonomy_errors : List Text → List Text → Meta → List GateError
taxonomy_errors atomic_keys integration_keys data_of =
    let taxonomy = data_of.taxonomy in
    error_if (not (same_set (keys taxonomy) (atomic_keys ++ integration_keys))) taxonomy_keys_differ
    ++ error_if
        (any (λ (key : Text). not (lookup key taxonomy == some (codes "atomic"))) atomic_keys)
        atomic_layer_invalid
    ++ error_if
        (any
          (λ (key : Text). not (
            contains (some (codes "integration") ∷ some (codes "system_e2e") ∷ [])
              (lookup key taxonomy)))
          integration_keys)
        integration_layer_invalid
    ++ error_if
        (ltb data_of.atomic (layer_count (codes "atomic") taxonomy)
          || ltb data_of.integration (layer_count (codes "integration") taxonomy)
          || ltb data_of.system_e2e (layer_count (codes "system_e2e") taxonomy))
        base_counts_exceed

-- `referenced_atomic - atomic_leaves`
abbrev pub unknown_names : Dict Text (List Text) → List Text → List Text
unknown_names dependency_map atomic_keys =
    keep
      (λ (dependency : Text). not (contains (map (after_last (codes "::")) atomic_keys) dependency))
      (distinct (flat_map (λ (_, dependencies). dependencies) dependency_map))

abbrev pub names_error : List Text → List GateError
names_error [] = []
names_error (n ∷ names) = unknown_dependencies (sorted le_text (n ∷ names)) ∷ []

unfoldable pub dependency_errors : Floats → Dict Text (List Text) → ℕ → List Text → List GateError
dependency_errors F dependency_map integration atomic_keys =
    error_if (F.ltb (F.ratio (length dependency_map) (max integration 1)) (F.ratio 50 100))
      (coverage_below_floor (length dependency_map) integration)
    ++ names_error (unknown_names dependency_map atomic_keys)
