-- ===== src/Runners/Python.antt =====
-- harness/lang/python/runner.py: `PythonRunner`. What lies on the host's disk, the parser of Python
-- and the decoding of pytest's report are parameters.
pub mod Keys
pub mod Dependencies
pub mod Cases
use mathlib.Core.Option.{get_or}
use bmk_dev.Base.{
  ℕ, ◌-◌, ◌&&◌, ◌||◌, Bool, true, false, not, Option, none, some, List, [], ◌∷◌, ◌++◌, String, map,
  contains, list_eq, nat_eq, if◌then◌else◌, is_nil, length, take, ◌==◌,
}
use bmk_dev.Base.Text.{
  Text, codes, starts_with, ends_with, join, before_first, after_last, split_text, replace_char,
  strip, is_empty, quote, decimal, remove_prefix,
}
use bmk_dev.Base.Dict.{Dict, insert}
use bmk_dev.Runners.{Batch, Runner, Loaded, not_json, other_shape, decoded}
use bmk_dev.Runners.PythonSetup.{setup, provenance}
use bmk_dev.Runners.Syntax.{
  Argument, constant, other_argument, Decorator, call, bare, Function, Member, method, other_member,
  Statement, function, class_def, assign, other_statement, Tree,
}
use bmk_dev.Runners.Markers.{marker, dotted_name, names_among}

abbrev pub is_test : Function → Bool
is_test f = starts_with f.name_of (codes "test")

abbrev pub methods_of : Text → List Member → List Text
methods_of front [] = []
methods_of front (method m ∷ members) =
    let rest = methods_of front members in if is_test m then (front ++ m.name_of) ∷ rest else rest
methods_of front (other_member ∷ members) = methods_of front members

-- The loop over `tree.body` in `discover`; `front` is the name of the file and the separator.
unfoldable pub discover_loop : Text → List Statement → List Text
discover_loop front [] = []
discover_loop front (function f ∷ body) =
    let rest = discover_loop front body in if is_test f then (front ++ f.name_of) ∷ rest else rest
discover_loop front (class_def n members ∷ body) =
    let rest = discover_loop front body in
    if starts_with n (codes "Test")
    then methods_of (front ++ n ++ codes "::") members ++ rest
    else rest
discover_loop front (assign value targets ∷ body) = discover_loop front body
discover_loop front (other_statement ∷ body) = discover_loop front body

abbrev pub suite_file : Text → Text
suite_file suite = codes "test_" ++ suite ++ codes ".py"

-- `stem[:-3] if stem.endswith(".py") else stem`
abbrev drop_py : Text → Text
drop_py stem = if ends_with stem (codes ".py") then take (length stem - 3) stem else stem

abbrev key_of_parts : List Text → Text
key_of_parts [] = []
key_of_parts (file ∷ names) =
    drop_py (after_last (codes "/") file) ++ codes "::" ++ join (codes ".") names

unfoldable pub function_of : Text → Text
function_of test = key_of_parts (
    split_text (codes "::") (replace_char b'\\' b'/' (get_or (before_first (codes "[") test) test)))

-- An entry of the report: `nodeid` and `outcome`, which may be missing.
pub record Entry : Type 0 where
  pub nodeid : Option Text
  pub outcome : Option String

unfoldable pub entries_loop : List Entry → Dict Text String → Dict Text String
entries_loop [] result = result
entries_loop (entry ∷ tests) result =
    entries_loop tests (insert (get_or entry.nodeid []) (get_or entry.outcome "error") result)

-- `loads` gives the `tests` of the report. `none` is the exception, and `some none` the result `None`.
unfoldable pub outcomes :
    (Text → Loaded (List Entry)) → Text → Text → Option (Option (Dict Text String))
unfolding entries_loop
outcomes loads report stdout =
    if is_empty (strip report) then some none else elim (loads (strip report)) [
      | not_json ↦ some none
      | other_shape ↦ none
      | decoded tests ↦ some (some (entries_loop tests []))
    ]

unfoldable pub batch : Text → List Text → ℕ → ℕ → Batch
batch suite tests offset timeout =
    let report = codes "/eval/rb_" ++ suite ++ codes "_" ++ decimal offset ++ codes ".json" in
    let args = join (codes " ") (map (λ (t : Text). quote (codes "/eval/oracle/" ++ t)) tests) in
    record {
      command =
          codes "cd /eval && timeout "
          ++ decimal timeout
          ++ codes " python3 -m pytest "
          ++ args
          ++ codes " -q --no-header --timeout=30 -p no:cacheprovider -o asyncio_mode=auto "
          ++ codes "-o 'markers=depends_on(*names): atomic test prerequisites' "
          ++ codes "--json-report --json-report-file="
          ++ report
          ++ codes " --json-report-omit collectors log traceback streams warnings 2>&1";
      report = some report;
    }

-- `_depends_on_args`
unfoldable pub marker_args : List Argument → List Text
marker_args [] = []
marker_args (constant value ∷ args) = remove_prefix (codes "test_atomic::") value ∷ marker_args args
marker_args (other_argument ∷ args) = marker_args args

unfoldable pub depends_on_args : List Text → Decorator → List Text
depends_on_args aliases bare = []
depends_on_args aliases (call f args) =
    if not (contains aliases (dotted_name f)) then [] else marker_args args

-- The loop over `tree.body` in `dependencies`.
unfoldable pub update_aliases : List Statement → List Text → List Text
update_aliases [] aliases = aliases
update_aliases (assign value targets ∷ body) aliases =
    if not (dotted_name value == marker)
    then update_aliases body aliases
    else update_aliases body (aliases ++ names_among targets)
update_aliases (function f ∷ body) aliases = update_aliases body aliases
update_aliases (class_def n members ∷ body) aliases = update_aliases body aliases
update_aliases (other_statement ∷ body) aliases = update_aliases body aliases

-- The two loops over the decorators of a function and the dependencies of one of them.
unfoldable pub append_missing : List Text → List Text → List Text
append_missing dependencies [] = dependencies
append_missing dependencies (dependency ∷ more) =
    append_missing
      (if not (contains dependencies dependency)
        then dependencies ++ (dependency ∷ [])
        else dependencies)
      more

unfoldable pub decorators_loop : List Text → List Text → List Decorator → List Text
decorators_loop aliases dependencies [] = dependencies
decorators_loop aliases dependencies (decorator ∷ decorators) =
    decorators_loop aliases (append_missing dependencies (depends_on_args aliases decorator))
      decorators

abbrev pub record_one : Text → List Text → Dict Text (List Text) → Dict Text (List Text)
record_one n [] result = result
record_one n (dependency ∷ dependencies) result = insert n (dependency ∷ dependencies) result

-- The loop over `ast.walk(tree)`.
unfoldable pub walk_loop : List Text → Dict Text (List Text) → List Function → Dict Text (List Text)
walk_loop aliases result [] = result
walk_loop aliases result (f ∷ functions) =
    walk_loop aliases
      (if is_test f
        then record_one f.name_of (decorators_loop aliases [] f.decorators) result
        else result)
      functions

unfoldable pub tree_dependencies : Tree → Dict Text (List Text)
unfolding walk_loop update_aliases
tree_dependencies tree = walk_loop (update_aliases tree.body (marker ∷ [])) [] tree.functions

-- What the host holds and what the libraries read from it: `parse` is `ast.parse`, with `none` for
-- its `SyntaxError`.
pub record PythonHost (Host : Type 0) : Type 0 where
  pub exists : Host → Text → Bool
  pub parse : Host → Text → Option Tree
  pub loads : Text → Loaded (List Entry)
  pub repr : List Text → Text

module _ {Host : Type 0} (host : PythonHost Host) where
  unfoldable pub discover : Host → Text → List Text
  unfolding discover_loop
  discover oracle suite =
      if not (host.exists oracle (suite_file suite))
      then []
      else elim (host.parse oracle (suite_file suite)) [
        | none ↦ []
        | some tree ↦ discover_loop (suite_file suite ++ codes "::") tree.body
      ]

  unfoldable pub dependencies : Host → Dict Text (List Text)
  unfolding tree_dependencies
  dependencies oracle =
      if not (host.exists oracle (codes "test_integration.py"))
      then []
      else elim (host.parse oracle (codes "test_integration.py")) [
        | none ↦ []
        | some tree ↦ tree_dependencies tree
      ]

  abbrev pub synthetic_id : Text → Text
  synthetic_id suite = suite_file suite ++ codes "::test_placeholder"

  unfoldable pub python_runner : Runner Host
  python_runner = record {
    discover = discover;
    setup = setup host.exists;
    batch = batch;
    outcomes = outcomes host.loads;
    function_of = function_of;
    synthetic_id = synthetic_id;
    dependencies = dependencies;
    provenance = provenance host.repr;
  }
