-- ===== src/Tests/TypeScript.antt =====
-- The titles and a report of vitest.
use mathlib.Core.Option.{or_else}
use bmk_dev.Base.{
  false, some, List, [], ◌∷◌, ◌++◌, contains, list_eq, nat_eq, string_eq, option_eq, ◌≡◌, refl,
}
use bmk_dev.Base.Text.{Text, codes}
use bmk_dev.Base.Dict.{insert}
use bmk_dev.Runners.{Loaded, decoded}
use bmk_dev.Runners.TypeScript.{
  FileResult, fold_title, ts_function_of, suite_of, assertions_loop, file_results_loop, ts_outcomes,
}
use bmk_dev.Runners.TypeScript.Cases.{colon, function_of-case}

stem_is_plain : contains (codes "handles factor") colon ≡ false
unfolding nat_eq
stem_is_plain = refl

function_of-case_example :
    ts_function_of
      (codes "integration" ++ (colon ∷ colon ∷ codes "handles factor" ++ (b' ' ∷ codes "12")))
    ≡ ts_function_of (
        codes "integration"
        ++ (colon ∷ colon ∷ codes "handles factor" ++ (b' ' ∷ b'%' ∷ b'i' ∷ [])))
function_of-case_example =
    function_of-case (codes "integration") (codes "handles factor") (codes "12") b'i' stem_is_plain
      refl refl refl

folds : ts_function_of (codes "atomic::Math::adds -1.5 ") ≡ codes "atomic::Math::adds"
unfolding ts_function_of fold_title or_else list_eq nat_eq
folds = refl

folds_index : ts_function_of (codes "atomic::Math::row [3]") ≡ codes "atomic::Math::row"
unfolding ts_function_of fold_title or_else list_eq nat_eq
folds_index = refl

folds_name : ts_function_of (codes "takes $value_1") ≡ codes "takes"
unfolding ts_function_of fold_title or_else list_eq nat_eq
folds_name = refl

abbrev report : Text → Loaded (List FileResult)
report text = decoded (
    record {
      name_of = codes "/eval/oracle/atomic/a.test.ts";
      assertions =
          record {
            status = some "passed";
            ancestor_titles = codes "Math" ∷ [];
            title = codes "adds";
          }
          ∷ record { status = some "skipped"; ancestor_titles = []; title = codes "waits" }
          ∷ record { status = some "pending"; ancestor_titles = []; title = codes "later" }
          ∷ [];
    }
    ∷ [])

-- A test that is not skipped is in the outcomes whatever was asked for.
reported :
    ts_outcomes report (codes "{}") []
    ≡ some (some ((codes "atomic::Math::adds", "passed") ∷ (codes "atomic::later", "pending") ∷ []))
unfolding ts_outcomes file_results_loop assertions_loop suite_of insert list_eq nat_eq string_eq
    option_eq
reported = refl
