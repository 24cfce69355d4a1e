-- ===== src/Tests/Java.antt =====
-- The names and a report of surefire.
use mathlib.Core.Option.{or_else}
use bmk_dev.Base.{Option, none, some, List, [], ◌∷◌, ◌++◌, list_eq, nat_eq, ◌≡◌, refl}
use bmk_dev.Base.Text.{Text, codes}
use bmk_dev.Base.Dict.{insert, lookup}
use bmk_dev.Runners.TypeScript.Cases.{colon}
use bmk_dev.Runners.Java.{
  TestSuite, java_function_of, method_of, outside, java_outcomes, suites_loop, cases_loop,
  outcome_of_tags, by_class_loop,
}
use bmk_dev.Runners.Java.Methods.{function_of-parameterised}

function_of-parameterised_example :
    java_function_of (
      codes "atomic::ATest"
      ++ (colon ∷ colon ∷ codes "adds"
          ++ (b'(' ∷ codes "int, int" ++ (b')' ∷ b'[' ∷ codes "12" ++ (b']' ∷ [])))))
    ≡ java_function_of (codes "atomic::ATest" ++ (colon ∷ colon ∷ codes "adds"))
function_of-parameterised_example =
    function_of-parameterised (codes "atomic::ATest") (codes "adds") (codes "int, int") (codes "12")
      refl refl refl

folds : java_function_of (codes "atomic::ATest::adds(int)[1]") ≡ codes "atomic::ATest::adds"
unfolding java_function_of method_of outside or_else nat_eq
folds = refl

groups :
    by_class_loop
      (codes "atomic::B::y" ∷ codes "atomic::A::x" ∷ codes "stray" ∷ codes "atomic::B::z" ∷ [])
      []
    ≡ (codes "B", codes "y" ∷ codes "z" ∷ []) ∷ (codes "A", codes "x" ∷ []) ∷ []
unfolding by_class_loop insert lookup list_eq nat_eq
groups = refl

abbrev suites : Text → Option (List TestSuite)
suites text = some (
    record {
      name_of = codes "atomic.ATest";
      cases =
          record { name_of = codes "x"; classname = codes "atomic.ATest"; tags = [] }
          ∷ record { name_of = codes "y"; classname = codes "y()"; tags = codes "error" ∷ [] }
          ∷ record {
            name_of = codes "z";
            classname = codes "atomic.ATest";
            tags = codes "skipped" ∷ [];
          }
          ∷ [];
    }
    ∷ [])

-- The class of a case that has none of its own is the suite's.
reported :
    java_outcomes suites [] (codes "x<reports></reports>__RC__=0")
    ≡ some (
        (codes "atomic::ATest::x", "passed")
        ∷ (codes "atomic::ATest::y", "failed")
        ∷ (codes "atomic::ATest::z", "skipped")
        ∷ [])
unfolding java_outcomes suites_loop cases_loop outcome_of_tags insert or_else list_eq nat_eq
reported = refl

no_report : java_outcomes suites [] (codes "BUILD FAILURE") ≡ none
unfolding java_outcomes
no_report = refl
