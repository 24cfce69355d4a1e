-- ===== src/Tests/Rubric.antt =====
-- The totals of a score at two results.
use bmk_dev.Base.{◌≤◌, true, false, [], ◌∷◌, List, ◌≡◌}
use bmk_dev.Base.Text.{codes}
use bmk_dev.Core.Rubric.{Result, Outcome, score_results}
use bmk_dev.Core.Rubric.Totals.{over, score_results-totals}
use bmk_dev.Tests.Sample.{numbers}

abbrev outcome : Outcome
outcome = record { passed = true; actual = []; expected = []; stderr = []; exit_code = 0 }

abbrev results : List Result
results =
    record {
      case_of = record { id = codes "a"; layer = codes "unit"; category = codes "io"; weight = 3 };
      outcome = outcome;
    }
    ∷ record {
      case_of = record {
        id = codes "b";
        layer = codes "system";
        category = codes "io";
        weight = 2;
      };
      outcome = record outcome { passed = false };
    }
    ∷ []

score_results-totals_example :
    (over (λ b. b.weight) (score_results numbers results).layers
      ≡ (score_results numbers results).total_weight)
    × (over (λ b. b.weight) (score_results numbers results).categories
        ≡ (score_results numbers results).total_weight)
    × (over (λ b. b.passed_weight) (score_results numbers results).layers
        ≡ (score_results numbers results).passed_weight)
    × ((score_results numbers results).passed_weight ≤ (score_results numbers results).total_weight)
score_results-totals_example = score_results-totals numbers results
