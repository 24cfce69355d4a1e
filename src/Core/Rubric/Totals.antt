-- ===== src/Core/Rubric/Totals.antt =====
-- The buckets of a score add up to its totals.
use bmk_dev.Base.{
  ==-cases, inl, inr, ℕ, ◌+◌, ◌≤◌, List, [], ◌∷◌, nat_eq, list_eq, if◌then◌else◌, keep, sum_of, ◌≡◌,
  refl, ◌∙◌, arith,
}
use mathlib.Core.Option.{get_or}
use bmk_dev.Base.Text.{Text, codes}
use bmk_dev.Base.Floats.{Floats}
use bmk_dev.Base.Dict.{Dict, lookup, insert, lookup-nil, lookup-cons}
use bmk_dev.Core.Rubric.{Result, Bucket, no_cases, counted, bucket_all, touch, score_results}

-- The total of a counter over the buckets.
abbrev pub over : (Bucket → ℕ) → Dict Text Bucket → ℕ
over f = sum_of (λ ((_, b) : Text × Bucket). f b)

module _ (f : Bucket → ℕ) (empty : f no_cases ≡ 0) where
  over-insert :
      (key : Text) (b : Bucket) (found : Dict Text Bucket)
      → over f (insert key b found) + f (get_or (lookup key found) no_cases) ≡ over f found + f b
  unfolding insert
  over-insert key b [] = ground (arith, lookup-nil {V = Bucket} key, empty)
  over-insert key b ((k, v) ∷ found) = elim (==-cases key k) [
    | inl (t, same) ↦ rw (t, lookup-cons key k v found, t) (omega arith)
    | inr (n, differ) ↦
        rw (n, lookup-cons key k v found, n) (omega (arith, over-insert key b found))
  ]

  over-touch : (key : Text) (found : Dict Text Bucket) → over f (touch key found) ≡ over f found
  over-touch key found = omega (arith, over-insert key (get_or (lookup key found) no_cases) found)

  over-bucket_all :
      (g : Result → ℕ)
      → ((r : Result) (b : Bucket) → f (counted r b) ≡ f b + g r)
      → (key : Result → Text) (results : List Result) (found : Dict Text Bucket)
      → over f (bucket_all key results found) ≡ over f found + sum_of g results
  unfolding bucket_all
  over-bucket_all g h key [] found = omega arith
  over-bucket_all g h key (r ∷ results) found =
      let old = get_or (lookup (key r) found) no_cases in
      omega (
        arith,
        over-bucket_all g h key results (insert (key r) (counted r old) found),
        over-insert (key r) (counted r old) found,
        h r old,
      )

  over-all :
      (g : Result → ℕ)
      → ((r : Result) (b : Bucket) → f (counted r b) ≡ f b + g r)
      → (key : Result → Text) (results : List Result)
      → over f (bucket_all key results []) ≡ sum_of g results
  over-all g h key results = omega (arith, over-bucket_all g h key results [])

weight_of : Result → ℕ
weight_of r = r.case_of.weight

passed_weight_of : Result → ℕ
passed_weight_of r = if r.outcome.passed then r.case_of.weight else 0

sum_of-passed :
    (results : List Result)
    → sum_of passed_weight_of results
      ≡ sum_of weight_of (keep (λ (r : Result). r.outcome.passed) results)
unfolding passed_weight_of weight_of
sum_of-passed [] = refl
sum_of-passed (r ∷ results) = ground (arith, sum_of-passed results)

passed-le-weight :
    (results : List Result)
    → sum_of weight_of (keep (λ (r : Result). r.outcome.passed) results) ≤ sum_of weight_of results
unfolding weight_of
passed-le-weight [] = omega arith
passed-le-weight (r ∷ results) = ground (arith, passed-le-weight results)

counted-passed :
    (r : Result) (b : Bucket) → (counted r b).passed_weight ≡ b.passed_weight + passed_weight_of r
unfolding passed_weight_of
counted-passed r b = ground arith

touched :
    (f : Bucket → ℕ)
    → f no_cases ≡ 0
    → (found : Dict Text Bucket)
    → over f (touch (codes "system") (touch (codes "unit") found)) ≡ over f found
touched f empty found =
    over-touch f empty (codes "system") (touch (codes "unit") found)
    ∙ over-touch f empty (codes "unit") found

module _ (F : Floats) (results : List Result) where
  -- The weights of the layers add up to the total weight, and so do those of the categories; the
  -- passed weights of the layers add up to the passed weight, which is at most the total.
  pub score_results-totals :
      (over (λ b. b.weight) (score_results F results).layers
        ≡ (score_results F results).total_weight)
      × (over (λ b. b.weight) (score_results F results).categories
          ≡ (score_results F results).total_weight)
      × (over (λ b. b.passed_weight) (score_results F results).layers
          ≡ (score_results F results).passed_weight)
      × ((score_results F results).passed_weight ≤ (score_results F results).total_weight)
  unfolding score_results weight_of
  score_results-totals = (
    touched (λ b. b.weight) refl (bucket_all (λ r. r.case_of.layer) results [])
        ∙ over-all (λ b. b.weight) refl weight_of (λ r b. refl) (λ r. r.case_of.layer) results,
    over-all (λ b. b.weight) refl weight_of (λ r b. refl) (λ r. r.case_of.category) results,
    touched (λ b. b.passed_weight) refl (bucket_all (λ r. r.case_of.layer) results [])
        ∙ over-all (λ b. b.passed_weight) refl passed_weight_of counted-passed
            (λ r. r.case_of.layer) results
        ∙ sum_of-passed results,
    passed-le-weight results,
  )
