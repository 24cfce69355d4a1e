-- ===== src/Runners/Python/Dependencies.antt =====
-- The dependency map of the Python runner is that of harness/core/depends_on.py.
use bmk_dev.Base.{
  false, not, ◌||◌, some, List, [], ◌∷◌, ◌++◌, ◌≡◌, refl, sym, contains, list_eq, nat_eq,
  if◌then◌else◌, is_nil, ◌==◌, Bool-cases, Option-cases, inl, inr,
}
use bmk_dev.Base.Text.{Text, codes, starts_with, remove_prefix, strip_prefix}
use bmk_dev.Base.Dict.{Dict, insert}
use bmk_dev.Runners.Syntax.{
  Argument, constant, other_argument, Decorator, call, bare, Function, Statement, function,
  class_def, assign, other_statement, Tree,
}
use bmk_dev.Runners.Markers.{
  marker, dotted_name, names_among, aliases_loop, dependency_of, args_loop, extract_depends_on_args,
  add_new, marked_loop, functions_loop, parse_depends_on,
}
use bmk_dev.Runners.Python.{
  marker_args, depends_on_args, update_aliases, append_missing, decorators_loop, record_one,
  walk_loop, tree_dependencies, dependencies, PythonHost,
}

dependency_of-any :
    (value : Text) → dependency_of value ≡ remove_prefix (codes "test_atomic::") value
dependency_of-any value = elim (Option-cases (strip_prefix (codes "test_atomic::") value)) [
  | inl none_found ↦ rw none_found refl
  | inr (rest, found) ↦ rw found refl
]

args_loop-eq : (args : List Argument) → args_loop args ≡ marker_args args
unfolding args_loop marker_args
args_loop-eq [] = refl
args_loop-eq (constant value ∷ args) = rw (dependency_of-any value, args_loop-eq args) refl
args_loop-eq (other_argument ∷ args) = args_loop-eq args

extract-eq :
    (aliases : List Text)
    → is_nil aliases ≡ false
    → (d : Decorator) → extract_depends_on_args d aliases ≡ depends_on_args aliases d
unfolding extract_depends_on_args depends_on_args
extract-eq aliases h bare = refl
extract-eq aliases h (call f args) = elim (Bool-cases (contains aliases (dotted_name f))) [
  | inl known ↦ rw (h, known) (args_loop-eq args)
  | inr unknown ↦ rw (h, unknown) refl
]

aliases_loop-eq :
    (body : List Statement) (aliases : List Text)
    → aliases_loop body aliases ≡ update_aliases body aliases
unfolding aliases_loop update_aliases
aliases_loop-eq [] aliases = refl
aliases_loop-eq (assign value targets ∷ body) aliases =
    elim (Bool-cases (dotted_name value == marker)) [
      | inl named ↦ rw (named, aliases_loop-eq body (aliases ++ names_among targets)) refl
      | inr other ↦ rw (other, aliases_loop-eq body aliases) refl
    ]
aliases_loop-eq (function f ∷ body) aliases = aliases_loop-eq body aliases
aliases_loop-eq (class_def n members ∷ body) aliases = aliases_loop-eq body aliases
aliases_loop-eq (other_statement ∷ body) aliases = aliases_loop-eq body aliases

-- No assignment takes an alias away.
aliases_kept :
    (body : List Statement) (a : Text) (aliases : List Text)
    → (b : Text) × (more : List Text) × (update_aliases body (a ∷ aliases) ≡ b ∷ more)
unfolding update_aliases
aliases_kept [] a aliases = (a, aliases, refl)
aliases_kept (assign value targets ∷ body) a aliases =
    elim (Bool-cases (dotted_name value == marker)) [
      | inl named ↦ rw named (aliases_kept body a (aliases ++ names_among targets))
      | inr other ↦ rw other (aliases_kept body a aliases)
    ]
aliases_kept (function f ∷ body) a aliases = aliases_kept body a aliases
aliases_kept (class_def n members ∷ body) a aliases = aliases_kept body a aliases
aliases_kept (other_statement ∷ body) a aliases = aliases_kept body a aliases

add_new-eq :
    (found dependencies : List Text)
    → add_new found dependencies ≡ append_missing dependencies found
unfolding add_new append_missing
add_new-eq [] dependencies = refl
add_new-eq (d ∷ found) dependencies = elim (Bool-cases (contains dependencies d)) [
  | inl known ↦ rw (known, add_new-eq found dependencies) refl
  | inr fresh ↦ rw (fresh, add_new-eq found (dependencies ++ (d ∷ []))) refl
]

marked_loop-eq :
    (aliases : List Text)
    → is_nil aliases ≡ false
    → (decorators : List Decorator) (dependencies : List Text)
    → marked_loop (λ d. extract_depends_on_args d aliases) decorators dependencies
      ≡ decorators_loop aliases dependencies decorators
unfolding marked_loop decorators_loop
marked_loop-eq aliases h [] dependencies = refl
marked_loop-eq aliases h (d ∷ decorators) dependencies =
    rw (extract-eq aliases h d, add_new-eq (depends_on_args aliases d) dependencies)
      (marked_loop-eq aliases h decorators _)

record_one-cond :
    (n : Text) (deps : List Text) (result : Dict Text (List Text))
    → (if is_nil deps then result else insert n deps result) ≡ record_one n deps result
record_one-cond n [] result = refl
record_one-cond n (d ∷ deps) result = refl

record_one-eq :
    (f : Function) (deps : List Text) (result : Dict Text (List Text))
    → (if not (starts_with f.name_of (codes "test")) || is_nil deps
        then result
        else insert f.name_of deps result)
      ≡ (if starts_with f.name_of (codes "test") then record_one f.name_of deps result else result)
record_one-eq f deps result = elim (Bool-cases (starts_with f.name_of (codes "test"))) [
  | inr other ↦ rw other refl
  | inl test ↦ rw test (record_one-cond f.name_of deps result)
]

functions_loop-eq :
    (aliases : List Text)
    → is_nil aliases ≡ false
    → (functions : List Function) (result : Dict Text (List Text))
    → functions_loop (λ d. extract_depends_on_args d aliases) functions result
      ≡ walk_loop aliases result functions
unfolding functions_loop walk_loop
functions_loop-eq aliases h [] result = refl
functions_loop-eq aliases h (f ∷ functions) result =
    rw
      (
        marked_loop-eq aliases h f.decorators [],
        record_one-eq f (decorators_loop aliases [] f.decorators) result,
      )
      (functions_loop-eq aliases h functions _)

tree_dependencies-eq : (tree : Tree) → parse_depends_on (some tree) ≡ tree_dependencies tree
unfolding parse_depends_on tree_dependencies
tree_dependencies-eq tree =
    let (b, more, kept) = aliases_kept tree.body marker [] in
    rw (aliases_loop-eq tree.body (marker ∷ []), kept)
      (functions_loop-eq (b ∷ more) refl tree.functions [])

module _ {Host : Type 0} (host : PythonHost Host) where
  -- Where the integration suite is on the disk, the runner's map of prerequisites is the one that
  -- `_parse_depends_on` reads from the same file, with the same functions in the same order; where
  -- it is not, the map is empty.
  pub dependencies-parse_depends_on :
      (oracle : Host)
      → dependencies host oracle ≡ (
          if host.exists oracle (codes "test_integration.py")
          then parse_depends_on (host.parse oracle (codes "test_integration.py"))
          else [])
  unfolding dependencies parse_depends_on
  dependencies-parse_depends_on oracle =
      elim (Bool-cases (host.exists oracle (codes "test_integration.py"))) [
        | inr absent ↦ rw absent refl
        | inl present ↦ elim (Option-cases (host.parse oracle (codes "test_integration.py"))) [
          | inl unreadable ↦ rw (present, unreadable) refl
          | inr (tree, parsed) ↦ rw (present, parsed) (sym (tree_dependencies-eq tree))
        ]
      ]
