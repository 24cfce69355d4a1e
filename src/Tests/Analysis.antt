-- ===== src/Tests/Analysis.antt =====
-- The theorems of the reports at three rows.
use bmk_dev.Base.{
  ℕ, ◌+◌, ◌&&◌, ◌||◌, ◌==◌, not, keep, any, some, true, [], ◌∷◌, List, String, contains, sum_of,
  list_eq, nat_eq, string_eq, option_eq, ◌≡◌, ◌↔◌, refl,
}
use bmk_dev.Base.Text.{Text, codes}
use bmk_dev.Base.Sorting.{sorted}
use bmk_dev.Base.Dict.{lookup}
use bmk_dev.Analysis.EvalLib.{Row, Attribution, listed, bucket_of}
use bmk_dev.Analysis.Ledger.{view_trust}
use bmk_dev.Analysis.Ledger.Partition.{view_trust-partition}
use bmk_dev.Analysis.Attribution.{view_verify}
use bmk_dev.Analysis.Attribution.Coverage.{scored_nothing, view_verify-ok, bucket_of-verified}

abbrev row : String → String → ℕ → ℕ → Row
row task status atomic total = record {
  task = codes task;
  language = codes "go";
  status = codes status;
  atomic_passed = atomic;
  atomic_total = total;
  integ_passed = 0;
  integ_total = 0;
}

abbrev rows : List Row
rows = row "a" "ok" 3 4 ∷ row "b" "failed" 0 5 ∷ row "c" "failed" 0 0 ∷ []

abbrev attr : Attribution
attr = (codes "B_spec_gap", codes "b" ∷ []) ∷ []

abbrev atomic_total : Row → ℕ
atomic_total r = r.atomic_total

view_trust-partition_example :
    ((view_trust attr rows).ok ≡ keep (λ r. r.status == codes "ok") rows)
    × ((view_trust attr rows).candidate_fail
        ≡ keep
            (λ r.
              not (r.status == codes "ok")
              && contains (listed attr (codes "A_candidate_fail")) r.task)
            rows)
    × ((view_trust attr rows).untrusted
        ≡ keep
            (λ r.
              not (r.status == codes "ok")
              && not (contains (listed attr (codes "A_candidate_fail")) r.task))
            rows)
    × (sum_of atomic_total (view_trust attr rows).trusted
          + sum_of atomic_total (view_trust attr rows).untrusted
        ≡ sum_of atomic_total rows)
    × (sum_of atomic_total (view_trust attr rows).ok
          + sum_of atomic_total (view_trust attr rows).candidate_fail
        ≡ sum_of atomic_total (view_trust attr rows).trusted)
view_trust-partition_example = view_trust-partition attr atomic_total rows

view_verify-ok_example : ((view_verify attr rows).ok ≡ true) ↔ (
    (task : Text)
    → any (λ (r : Row). task == r.task && scored_nothing r) rows ≡ (
        contains (listed attr (codes "A_candidate_fail")) task
        || (contains (listed attr (codes "B_spec_gap")) task
            || contains (listed attr (codes "C_pending")) task)))
view_verify-ok_example = view_verify-ok attr rows

verified : (view_verify attr rows).ok ≡ true
unfolding view_verify sorted lookup list_eq nat_eq string_eq
verified = refl

partly : any (λ (r : Row). codes "b" == r.task && scored_nothing r) rows ≡ true
unfolding list_eq nat_eq
partly = refl

bucket_of-verified_example : (letter : String) × (bucket_of attr (codes "b") ≡ some letter)
bucket_of-verified_example = bucket_of-verified attr rows verified (codes "b") partly
