-- ===== src/Core/PythonChecks.antt =====
-- harness/core/verify_task.py: the checks of `check_task` that read Python source. What the lint of the
-- imports, the annotations of the assertions and the parser give of the files are arguments.
use bmk_dev.Base.{
  ℕ, ◌-◌, ◌&&◌, Bool, not, Option, none, some, List, [], ◌∷◌, ◌++◌, contains, list_eq, nat_eq, ◌==◌,
  String, string_eq, if◌then◌else◌, is_nil, length, keep, count_if, leb, ltb,
}
use mathlib.Core.Option.{get_or}
use bmk_dev.Base.Text.{Text, codes, starts_with, before_first}
use bmk_dev.Base.Sorting.{sorted, le_text}
use bmk_dev.Base.Dict.{Dict, keys, lookup, insert}
use bmk_dev.Base.Floats.{Floats}
use bmk_dev.Core.GateChecks.{
  GateError, import_not_promised, too_few_positive, without_check, duplicate_import,
  fixture_missing, error_if,
}

-- A function of a file, with its first and its last line.
pub record Span : Type 0 where
  pub name_of : Text
  pub lineno : ℕ
  pub end_lineno : ℕ

-- `node.end_lineno - node.lineno`, of a function that does not end before it begins.
abbrev pub lines_of : Span → ℕ
lines_of span = span.end_lineno - span.lineno

-- `min` by this key; the first of equal ones.
abbrev pub least : Span → List Span → Span
least best [] = best
least best (span ∷ spans) = least (if ltb (lines_of span) (lines_of best) then span else best) spans

abbrev pub covers : ℕ → Span → Bool
covers line span =
    starts_with span.name_of (codes "test_") && leb span.lineno line && leb line span.end_lineno

unfoldable pub test_at_line : List Span → ℕ → Option Text
test_at_line spans line = elim (keep (covers line) spans) [
  | [] ↦ none
  | span ∷ more ↦ some (least span more).name_of
]

-- The loop over the imports; `promised` searches the spec's public surface for a module.
unfoldable pub import_errors : List Text → (Text → Bool) → List (Text × ℕ) → List GateError
import_errors targets promised [] = []
import_errors targets promised ((imported, lineno) ∷ imports) =
    error_if
      (contains targets (get_or (before_first (codes ".") imported) imported)
        && not (promised imported))
      (import_not_promised imported lineno)
    ++ import_errors targets promised imports

-- The kind of a test's checks.
abbrev pub Annotations : Type 0
Annotations = Dict Text String

-- One line on which an external helper is called.
unfoldable pub annotate_line : List Span → Annotations → ℕ → Annotations
unfolding test_at_line
annotate_line spans annotations line = elim (test_at_line spans line) [
  | none ↦ annotations
  | some owner ↦ elim (lookup (codes "test_atomic::" ++ owner) annotations) [
    | none ↦ annotations
    | some kind ↦
        if kind == "no_check"
        then insert (codes "test_atomic::" ++ owner) "failure_path" annotations
        else annotations
  ]
]

-- The lines of both helpers, in the order of the table; an empty owner has no entry.
unfoldable pub annotate_lines : List Span → Annotations → List ℕ → Annotations
annotate_lines spans annotations [] = annotations
annotate_lines spans annotations (line ∷ lines) =
    annotate_lines spans (annotate_line spans annotations line) lines

abbrev pub atomic_annotations : Annotations → Annotations
atomic_annotations = keep (λ (k, _). starts_with k (codes "test_atomic::"))

abbrev pub names_without_check : Annotations → List Text
names_without_check annotations = keys (keep (λ (_, kind). kind == "no_check") annotations)

abbrev pub unchecked_errors : List Text → List GateError
unchecked_errors [] = []
unchecked_errors (n ∷ names) = without_check (sorted le_text (n ∷ names)) ∷ []

-- What the gate on the composition of the atomic layer reports.
unfoldable pub composition_errors : Floats → Annotations → List GateError
composition_errors F atomic_ann =
    let positive = count_if (λ (_, kind). kind == "positive") atomic_ann in
    if is_nil atomic_ann
    then []
    else error_if (F.ltb (F.ratio positive (length atomic_ann)) (F.ratio 60 100))
        (too_few_positive positive (length atomic_ann))
      ++ unchecked_errors (names_without_check atomic_ann)

-- `_check_duplicate_imports`, over the names that the top-level `from` imports bind.
unfoldable pub duplicate_imports : Dict Text ℕ → List (Text × ℕ) → List GateError
duplicate_imports seen [] = []
duplicate_imports seen ((n, lineno) ∷ names) = elim (lookup n seen) [
  | none ↦ duplicate_imports (insert n lineno seen) names
  | some first_line ↦ duplicate_import n first_line lineno ∷ duplicate_imports seen names
]

-- `_check_fixture_references`, over the parts of the matched paths.
unfoldable pub fixture_errors : (List Text → Bool) → List (List Text) → List GateError
fixture_errors exists [] = []
fixture_errors exists (parts ∷ matches) =
    error_if (not (exists parts)) (fixture_missing parts) ++ fixture_errors exists matches
