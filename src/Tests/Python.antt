-- ===== src/Tests/Python.antt =====
-- The Python runner at concrete inputs.
use mathlib.Core.Option.{or_else}
use bmk_dev.Base.{
  ℕ, ◌≤◌, true, none, some, List, [], ◌∷◌, ◌≡◌, refl, if◌then◌else◌, list_eq, nat_eq, ◌==◌,
}
use bmk_dev.Base.Text.{Text, codes}
use bmk_dev.Base.Dict.{Dict, lookup, insert}
use bmk_dev.Runners.{Runner, decoded}
use bmk_dev.Runners.Syntax.{
  name, attribute, constant, call, bare, Function, method, function, class_def, assign, Tree, Expr,
  Decorator,
}
use bmk_dev.Runners.Markers.{parse_depends_on, dotted_loop}
use bmk_dev.Runners.Python.{
  PythonHost, python_runner, discover, discover_loop, function_of, dependencies, decorators_loop,
  append_missing, depends_on_args, marker_args,
}
use bmk_dev.Runners.Python.Dependencies.{dependencies-parse_depends_on}
use bmk_dev.Sandbox.Score.{score, get_runner}
use bmk_dev.Sandbox.Score.PythonTask.{score-within_totals}
use bmk_dev.Tests.Sample.{numbers, machine}

-- `depends_on("test_atomic::test_a", "test_b")`, by the alias of the module.
abbrev marked : Decorator
marked =
    call (name (codes "depends_on"))
      (constant (codes "test_atomic::test_a") ∷ constant (codes "test_b") ∷ [])

abbrev plain : Text → Function
plain n = record { name_of = n; decorators = [] }

abbrev joins : Function
joins = record { name_of = codes "test_joins"; decorators = marked ∷ bare ∷ [] }

abbrev mark : Expr
mark = attribute (attribute (name (codes "pytest")) (codes "mark")) (codes "depends_on")

abbrev integration_tree : Tree
integration_tree = record {
  body =
      assign mark (some (codes "depends_on") ∷ none ∷ [])
      ∷ function joins
      ∷ function (plain (codes "helper"))
      ∷ [];
  functions = joins ∷ plain (codes "helper") ∷ [];
}

abbrev atomic_tree : Tree
atomic_tree = record {
  body =
      function (plain (codes "test_b"))
      ∷ class_def (codes "TestA") (method (plain (codes "test_a")) ∷ [])
      ∷ [];
  functions = plain (codes "test_b") ∷ plain (codes "test_a") ∷ [];
}

abbrev host : PythonHost ℕ
host = record {
  exists = λ h file. true;
  parse = λ h file. some (if file == codes "test_atomic.py" then atomic_tree else integration_tree);
  loads = λ text. decoded (
      record { nodeid = some (codes "test_atomic.py::test_b[1]"); outcome = some "passed" }
      ∷ record { nodeid = none; outcome = none }
      ∷ []);
  repr = λ names. [];
}

abbrev found_ids : List Text
found_ids = codes "test_atomic.py::test_b" ∷ codes "test_atomic.py::TestA::test_a" ∷ []

discovered : discover host 0 (codes "atomic") ≡ found_ids
unfolding discover discover_loop list_eq nat_eq
discovered = refl

key_of_method :
    function_of (codes "oracle/test_atomic.py::TestA::test_a[x::y]")
    ≡ codes "test_atomic::TestA.test_a"
unfolding function_of or_else
key_of_method = refl

read_dependencies :
    dependencies host 0 ≡ (codes "test_joins", codes "test_a" ∷ codes "test_b" ∷ []) ∷ []
unfolding dependencies list_eq nat_eq dotted_loop insert decorators_loop append_missing
    depends_on_args marker_args
read_dependencies = refl

dependencies-parse_depends_on_example :
    dependencies host 0 ≡ parse_depends_on (some integration_tree)
unfolding list_eq nat_eq
dependencies-parse_depends_on_example = dependencies-parse_depends_on host 0

abbrev registry : Dict Text (Runner ℕ)
registry = (codes "python", python_runner host) ∷ []

found : get_runner registry none ≡ some (python_runner host)
unfolding get_runner lookup list_eq nat_eq
found = refl

score-within_totals_example :
    let r =
      (score numbers machine registry
        (λ task. none)
        none
        (codes "c")
        (codes "t")
        0
        0
        none
        none
        0).0 in
    (r.atomic_passed ≤ r.atomic_total) × (r.integration_passed ≤ r.integration_total)
score-within_totals_example =
    score-within_totals numbers machine host registry (λ task. none) none (codes "c") (codes "t") 0
      0 none none 0 found
