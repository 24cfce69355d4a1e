-- ===== src/Core/Filter.antt =====
-- harness/core/filter.py: the objective signals of a source repository. What pathlib says of a path
-- and what is read from it are fields of a record.
pub mod Signals
use bmk_dev.Base.{
  ℕ, ◌+◌, ◌||◌, ◌&&◌, Bool, true, false, not, Option, none, some, List, [], ◌∷◌, ◌++◌, map,
  contains, list_eq, nat_eq, if◌then◌else◌, is_nil, length, any, all, keep, count_if, leb, eqb,
  take, ◌==◌,
}
use mathlib.Core.Option.{get_or}
use bmk_dev.Base.Text.{Text, codes, has_text, strip, lower, is_empty, splitlines, join}
use bmk_dev.Base.Int.{ℤ, is_ℕ}
use bmk_dev.Base.Sorting.{sorted}
use bmk_dev.Base.Dict.{Dict, lookup, insert}

abbrev pub text_exts : List Text
text_exts =
    codes ".py"
    ∷ codes ".js"
    ∷ codes ".ts"
    ∷ codes ".tsx"
    ∷ codes ".jsx"
    ∷ codes ".go"
    ∷ codes ".rs"
    ∷ codes ".java"
    ∷ codes ".kt"
    ∷ codes ".scala"
    ∷ codes ".ex"
    ∷ codes ".exs"
    ∷ codes ".erl"
    ∷ codes ".hrl"
    ∷ codes ".c"
    ∷ codes ".h"
    ∷ codes ".cc"
    ∷ codes ".cpp"
    ∷ codes ".hpp"
    ∷ codes ".cs"
    ∷ codes ".rb"
    ∷ codes ".php"
    ∷ codes ".sh"
    ∷ codes ".ps1"
    ∷ codes ".lua"
    ∷ codes ".sql"
    ∷ codes ".toml"
    ∷ codes ".yaml"
    ∷ codes ".yml"
    ∷ codes ".json"
    ∷ codes ".md"
    ∷ codes ".rst"
    ∷ codes ".txt"
    ∷ codes ".xml"
    ∷ codes ".proto"
    ∷ []

abbrev pub doc_names : List Text
doc_names =
    codes "readme"
    ∷ codes "docs"
    ∷ codes "doc"
    ∷ codes "examples"
    ∷ codes "example"
    ∷ codes "guides"
    ∷ codes "guide"
    ∷ []

abbrev pub test_markers : List Text
test_markers = codes "test" ∷ codes "tests" ∷ codes "spec" ∷ codes "specs" ∷ codes "__tests__" ∷ []

-- A file: its parts below the repository, its suffix and its stem, and its text, without one where
-- reading it raises.
pub record RepoFile : Type 0 where
  pub parts : List Text
  pub suffix : Text
  pub stem : Text
  pub text : Option Text

-- `list_files`, from the answer of git and the files that a walk finds; `above` are the parts of the
-- repository's own path, which `p.parts` begins with.
unfoldable pub list_files : List Text → ℤ → Text → (Text → RepoFile) → List RepoFile → List RepoFile
list_files above returncode stdout tracked walked =
    if is_ℕ returncode 0 && not (is_empty (strip stdout))
    then map tracked (keep (λ (line : Text). not (is_empty line)) (map strip (splitlines stdout)))
    else keep (λ (file : RepoFile). not (contains (above ++ file.parts) (codes ".git"))) walked

unfoldable pub count_nonblank : Option Text → ℕ
count_nonblank none = 0
count_nonblank (some text) =
    count_if (λ (line : Text). not (is_empty (strip line))) (splitlines text)

-- `counter[key] += n`
abbrev pub bump : Text → ℕ → Dict Text ℕ → Dict Text ℕ
bump key n counter = insert key (get_or (lookup key counter) 0 + n) counter

pub record Summary : Type 0 where
  pub suffix_counts : Dict Text ℕ
  pub loc_by_suffix : Dict Text ℕ
  pub top_dirs : Dict Text ℕ
  pub doc_files : List Text
  pub test_files : List Text
  pub example_files : List Text
  pub text_files : ℕ
  pub total_loc : ℕ

abbrev pub no_summary : Summary
no_summary = record {
  suffix_counts = [];
  loc_by_suffix = [];
  top_dirs = [];
  doc_files = [];
  test_files = [];
  example_files = [];
  text_files = 0;
  total_loc = 0;
}

abbrev pub suffix_of : RepoFile → Text
suffix_of file = if is_empty file.suffix then codes "<none>" else lower file.suffix

abbrev pub is_doc : RepoFile → Bool
is_doc file = any (contains doc_names) (map lower file.parts) || lower file.stem == codes "readme"

abbrev pub is_test_file : RepoFile → Bool
is_test_file file =
    any (contains test_markers) (map lower file.parts)
    || has_text (codes "test") (lower file.stem)
    || has_text (codes "spec") (lower file.stem)

abbrev pub is_example : RepoFile → Bool
is_example file = any (λ (part : Text). has_text (codes "example") (lower part)) file.parts

abbrev pub count_dir : List Text → Dict Text ℕ → Dict Text ℕ
count_dir [] counter = counter
count_dir (part ∷ parts) counter = bump part 1 counter

-- `str(Path(*parts))`
abbrev pub path_text : RepoFile → Text
path_text file = join (codes "/") file.parts

abbrev pub add_if : Bool → RepoFile → List Text → List Text
add_if b file paths = if b then paths ++ (path_text file ∷ []) else paths

-- The body of the loop.
unfoldable pub count_file : RepoFile → Summary → Summary
unfolding count_nonblank
count_file file s =
    let is_text = contains text_exts (suffix_of file) in
    let loc = count_nonblank file.text in
    record {
      suffix_counts = bump (suffix_of file) 1 s.suffix_counts;
      loc_by_suffix =
          if is_text then bump (suffix_of file) loc s.loc_by_suffix else s.loc_by_suffix;
      top_dirs = count_dir file.parts s.top_dirs;
      doc_files = add_if (is_doc file) file s.doc_files;
      test_files = add_if (is_test_file file) file s.test_files;
      example_files = add_if (is_example file) file s.example_files;
      text_files = if is_text then s.text_files + 1 else s.text_files;
      total_loc = if is_text then s.total_loc + loc else s.total_loc;
    }

unfoldable pub summary_loop : List RepoFile → Summary → Summary
unfolding count_file
summary_loop [] s = s
summary_loop (file ∷ files) s = summary_loop files (count_file file s)

abbrev pub summarize : List RepoFile → Summary
summarize files = summary_loop files no_summary

-- `counter.most_common(n)`
abbrev pub most_common : ℕ → Dict Text ℕ → Dict Text ℕ
most_common n counter = take n (sorted (λ (a b : Text × ℕ). leb b.1 a.1) counter)

pub record ScaleGate : Type 0 where
  pub tracked_files_ge_50 : Bool
  pub nonblank_loc_ge_2000 : Bool
  pub doc_signal_present : Bool
  pub test_signal_present : Bool
  pub multi_dir_signal : Bool

unfoldable pub scale_gate : List RepoFile → ScaleGate
scale_gate files =
    let s = summarize files in
    record {
      tracked_files_ge_50 = leb 50 (length files);
      nonblank_loc_ge_2000 = leb 2000 s.total_loc;
      doc_signal_present = not (is_nil s.doc_files);
      test_signal_present = not (is_nil s.test_files);
      multi_dir_signal = leb 3 (length s.top_dirs);
    }

-- `gate_passed_objective_signals`
unfoldable pub gate_passed : List RepoFile → Bool
unfolding scale_gate
gate_passed files =
    let gate = scale_gate files in
    gate.tracked_files_ge_50 && gate.nonblank_loc_ge_2000 && gate.doc_signal_present
    && gate.test_signal_present && gate.multi_dir_signal
