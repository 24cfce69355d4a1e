-- ===== src/Sandbox/Score/Complete.antt =====
-- A score without an error is a complete measurement: nothing is missing from it and no batch was
-- cut short.
use mathlib.Core.List.{map}
use bmk_dev.Base.{
  ℕ, ◌+◌, ◌<◌, Bool, true, ◌&&◌, ◌||◌, not, Option, none, some, List, [], ◌∷◌, ◌++◌, String, ◌≡◌,
  refl, ◌∙◌, arith, list_eq, nat_eq, string_eq, contains, length, sum_of, sum_of-append, all,
  count_if,
}
use bmk_dev.Base.Text.{Text, codes}
use bmk_dev.Base.Dict.{update, Dict, insert, lookup-insert, lookup-nil, lookup-cons, has_key}
use bmk_dev.Base.Floats.{Floats}
use bmk_dev.Runners.{Runner}
use bmk_dev.Sandbox.Outcomes.{Outcomes}
use bmk_dev.Sandbox.Suite.{BatchLog, SuiteRun, is_timed_out, is_invalid, batch_execution_errors}
use bmk_dev.Base.{Option-cases, inl, inr}
use bmk_dev.Sandbox.Score.Every.{score_every}
use bmk_dev.Sandbox.Results.{ScoringResult, error_result, finish, parse_errors, joined_errors}
use bmk_dev.Sandbox.Score.{get_runner, score, score_with, Machine, chosen_language}

abbrev pub size_sum : List BatchLog → ℕ
size_sum = sum_of (λ (b : BatchLog). b.size)

-- The batch ran to its end, and its report could be used.
abbrev pub is_sound : BatchLog → Bool
is_sound b = not (is_timed_out b) && not (is_invalid b)

sound_of_no_errors :
    (bs : List BatchLog)
    → count_if is_timed_out bs ≡ 0
    → count_if is_invalid bs ≡ 0
    → all is_sound bs ≡ true
sound_of_no_errors [] h k = refl
sound_of_no_errors (b ∷ bs) h k = ground (arith, sound_of_no_errors bs)

no_errors_sound : (bs : List BatchLog) → batch_execution_errors bs ≡ [] → all is_sound bs ≡ true
unfolding batch_execution_errors
no_errors_sound bs h = sound_of_no_errors bs (ground arith) (ground arith)

pub has_key-update :
    (d e : Outcomes) (k : Text) → has_key (update d e) k ≡ (has_key e k || has_key d k)
unfolding update
has_key-update d [] k = ground (arith, lookup-nil {V = String} k)
has_key-update d ((j, v) ∷ e) k =
    has_key-update (insert j v d) e k ∙ ground (arith, lookup-insert k j v d, lookup-cons k j v e)

module _ (F : Floats) {Host : Type 0} (runner : Runner Host) where
  -- The result of scoring the discovered tests `A` and `I` holds nothing but their outcomes, and
  -- all of them; its batches are all of the tests, and none was cut short.
  abbrev pub IsComplete : List Text → List Text → ScoringResult F → Type 0
  IsComplete A I r =
      (0 < length A)
      × (0 < length I)
      × (r.atomic_total ≡ length A)
      × (r.integration_total ≡ length I)
      × (all is_sound r.batches ≡ true)
      × (size_sum r.batches ≡ length A + length I)
      × ((k : Text)
          → has_key r.tests k
            ≡ (contains (map runner.function_of I) k || contains (map runner.function_of A) k))

  no_parse_errors :
      (at it : ℕ) (bs : List BatchLog)
      → joined_errors F (parse_errors F at it bs) ≡ none
      → (0 < at) × (0 < it) × (batch_execution_errors bs ≡ [])
  no_parse_errors at it bs h = ground arith

  finish-IsComplete :
      (task_id : Text) (oracle : Host) (A I : List Text) (log provenance : Text) (a i : SuiteRun)
      → ((k : Text) → has_key a.tests k ≡ contains (map runner.function_of A) k)
      → ((k : Text) → has_key i.tests k ≡ contains (map runner.function_of I) k)
      → size_sum a.batches ≡ length A
      → size_sum i.batches ≡ length I
      → (finish F runner task_id oracle A I log provenance a i).error ≡ none
      → IsComplete A I (finish F runner task_id oracle A I log provenance a i)
  unfolding finish
  finish-IsComplete task_id oracle A I log provenance a i ka ki sa si h =
      let (some_atomic, some_integration, no_errors) =
        no_parse_errors (length A) (length I) (a.batches ++ i.batches) h in
      (
        some_atomic,
        some_integration,
        refl,
        refl,
        no_errors_sound _ no_errors,
        omega (arith, sum_of-append {0} (λ (b : BatchLog). b.size) a.batches i.batches),
        λ k.
            has_key-update (update [] a.tests) i.tests k
            ∙ ground (arith, has_key-update [] a.tests k, lookup-nil {V = String} k, ka k, ki k),
      )

module _ (F : Floats) {World Host : Type 0} (machine : Machine World Host) where
  module _ (registry : Dict Text (Runner Host)) (task_language : Text → Option Text)
      (image : Option Text) (cid task_id : Text) (workspace oracle : Host) (extra : Option Host)
      (language : Option Text) (w : World) where
    -- A score that reports no error is complete: it was made by the registered runner of the task's
    -- language, both suites have a test, every discovered test has an outcome and nothing else has,
    -- the batches are together as large as the suites, and none of them timed out or had an
    -- unusable report.
    pub score-IsComplete :
        (score F machine registry task_language image cid task_id workspace oracle extra language
            w).0.error
          ≡ none
        → (runner : Runner Host) × (get_runner registry
              (chosen_language (task_language task_id) language)
            ≡ some runner)
          × IsComplete F runner
              (runner.discover oracle (codes "atomic"))
              (runner.discover oracle (codes "integration"))
              (score F machine registry task_language image cid task_id workspace oracle extra
                language w).0
    unfolding score
    score-IsComplete h =
        elim (Option-cases
          (get_runner registry (chosen_language (task_language task_id) language))) [
            | inl missing ↦ absurd (unfold score_with error_result in ground arith)
            | inr (runner, found) ↦ (
              runner,
              found,
              score_every F machine runner cid task_id oracle
                  (λ r.
                    r.error ≡ none
                    → IsComplete F runner (runner.discover oracle (codes "atomic"))
                        (runner.discover oracle (codes "integration")) r)
                  (λ why log provenance no_error. absurd (unfold error_result in ground arith))
                  (λ log provenance a i (ka, sa) (ki, si).
                    finish-IsComplete F runner task_id oracle _ _ log provenance a i ka ki sa si)
                  registry task_language image workspace extra language w found h,
            )
          ]
