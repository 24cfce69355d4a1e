-- ===== src/Runners/Markers.antt =====
-- harness/core/depends_on.py: the dependency markers of a Python test file.
use bmk_dev.Base.{
  ◌==◌, ◌||◌, not, Option, none, some, List, [], ◌∷◌, ◌++◌, contains, list_eq, nat_eq,
  if◌then◌else◌, is_nil,
}
use mathlib.Core.List.{reverse}
use bmk_dev.Base.Text.{Text, codes, starts_with, join, remove_prefix}
use bmk_dev.Base.Dict.{Dict, insert}
use bmk_dev.Runners.Syntax.{
  Expr, name, attribute, other_expr, Argument, constant, other_argument, Decorator, call, bare,
  Function, Statement, function, class_def, assign, other_statement, Tree,
}

abbrev pub marker : Text
marker = codes "pytest.mark.depends_on"

-- The loop over the attributes, with `parts`.
unfoldable pub dotted_loop : Expr → List Text → Text
dotted_loop (attribute value attr) parts = dotted_loop value (parts ++ (attr ∷ []))
dotted_loop (name id) parts = join (codes ".") (reverse (parts ++ (id ∷ [])))
dotted_loop other_expr parts = []

abbrev pub dotted_name : Expr → Text
dotted_name node = dotted_loop node []

abbrev pub names_among : List (Option Text) → List Text
names_among [] = []
names_among (none ∷ targets) = names_among targets
names_among (some id ∷ targets) = id ∷ names_among targets

-- `aliases`: a set, of which is asked only what it has.
unfoldable pub aliases_loop : List Statement → List Text → List Text
aliases_loop [] aliases = aliases
aliases_loop (assign value targets ∷ body) aliases =
    aliases_loop body
      (if dotted_name value == marker then aliases ++ names_among targets else aliases)
aliases_loop (function f ∷ body) aliases = aliases_loop body aliases
aliases_loop (class_def n members ∷ body) aliases = aliases_loop body aliases
aliases_loop (other_statement ∷ body) aliases = aliases_loop body aliases

abbrev pub dependency_of : Text → Text
dependency_of value =
    if starts_with value (codes "test_atomic::")
    then remove_prefix (codes "test_atomic::") value
    else value

unfoldable pub args_loop : List Argument → List Text
args_loop [] = []
args_loop (constant value ∷ args) = dependency_of value ∷ args_loop args
args_loop (other_argument ∷ args) = args_loop args

-- `_extract_depends_on_args`
unfoldable pub extract_depends_on_args : Decorator → List Text → List Text
unfolding args_loop
extract_depends_on_args bare aliases = []
extract_depends_on_args (call f args) aliases =
    let recognized = if is_nil aliases then marker ∷ [] else aliases in
    if contains recognized (dotted_name f) then args_loop args else []

-- `if dep not in dependencies: dependencies.append(dep)`
unfoldable pub add_new : List Text → List Text → List Text
add_new [] dependencies = dependencies
add_new (dep ∷ deps) dependencies =
    add_new deps (if contains dependencies dep then dependencies else dependencies ++ (dep ∷ []))

unfoldable pub marked_loop : (Decorator → List Text) → List Decorator → List Text → List Text
marked_loop extract [] dependencies = dependencies
marked_loop extract (d ∷ decorators) dependencies =
    marked_loop extract decorators (add_new (extract d) dependencies)

-- The loop over the functions of the tree.
unfoldable pub functions_loop :
    (Decorator → List Text) → List Function → Dict Text (List Text) → Dict Text (List Text)
functions_loop extract [] result = result
functions_loop extract (f ∷ functions) result =
    let dependencies = marked_loop extract f.decorators [] in
    functions_loop extract functions (
      if not (starts_with f.name_of (codes "test")) || is_nil dependencies
      then result
      else insert f.name_of dependencies result)

-- `_parse_depends_on`, from what `ast.parse` gives; `none` is its `SyntaxError`.
unfoldable pub parse_depends_on : Option Tree → Dict Text (List Text)
unfolding functions_loop
parse_depends_on none = []
parse_depends_on (some tree) =
    let aliases = aliases_loop tree.body (marker ∷ []) in
    functions_loop (λ d. extract_depends_on_args d aliases) tree.functions []
