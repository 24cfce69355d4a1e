-- ===== src/Analysis/Ledger/Partition.antt =====
-- The trust view loses no task: its lists add up, and every untrusted task is explained.
use bmk_dev.Base.{
  ℕ, ◌+◌, ◌≤◌, Bool, true, false, not, ◌||◌, ◌&&◌, some, List, [], ◌∷◌, ◌==◌, contains, nat_eq,
  list_eq, string_eq, option_eq, ltb, sum_of, keep, ◌≡◌, refl, sym, ◌∙◌, arith, ap, Bool-cases, inl,
  inr, ◌⊎◌,
}
use bmk_dev.Base.Text.{codes}
use bmk_dev.Analysis.EvalLib.{Row, klass, total, Attribution, listed, bucket_of, is_trusted}
use bmk_dev.Analysis.Ledger.{view_trust, is_ok, is_other, is_zero_row}

module _ {ℓ} {A : Type ℓ} where
  sum_of-keep :
      (f : A → ℕ) (p : A → Bool) (xs : List A)
      → sum_of f (keep p xs) + sum_of f (keep (λ x. not (p x)) xs) ≡ sum_of f xs
  sum_of-keep f p [] = refl
  sum_of-keep f p (x ∷ xs) = ground (arith, sum_of-keep f p xs)

  keep-keep :
      (p q : A → Bool)
      → ((x : A) → q x ≡ true → p x ≡ true)
      → (xs : List A) → keep q (keep p xs) ≡ keep q xs
  keep-keep p q h [] = refl
  keep-keep p q h (x ∷ xs) = ground (arith, h x, keep-keep p q h xs)

  keep-same : (p q : A → Bool) → ((x : A) → p x ≡ q x) → (xs : List A) → keep p xs ≡ keep q xs
  keep-same p q h [] = refl
  keep-same p q h (x ∷ xs) = ground (arith, h x, keep-same p q h xs)

  -- What is kept of what was kept.
  keep-after :
      (p q r : A → Bool)
      → ((x : A) → (q x && p x) ≡ r x)
      → (xs : List A) → keep p (keep q xs) ≡ keep r xs
  keep-after p q r h [] = refl
  keep-after p q r h (x ∷ xs) = ground (arith, h x, keep-after p q r h xs)

  -- What is kept by `u` is no more than its four parts, where they cover it.
  sum_of-le-parts :
      (f : A → ℕ) (u p q r s : A → Bool)
      → ((x : A) → u x ≡ true → (p x || q x || r x || s x) ≡ true)
      → (xs : List A)
      → sum_of f (keep u xs)
        ≤ sum_of f (keep p (keep u xs))
          + sum_of f (keep q (keep u xs))
          + sum_of f (keep r (keep u xs))
          + sum_of f (keep s (keep u xs))
  sum_of-le-parts f u p q r s h [] = omega arith
  sum_of-le-parts f u p q r s h (x ∷ xs) = ground (arith, h x, sum_of-le-parts f u p q r s h xs)

pub klass-cases : (r : Row) → (klass r ≡ "ok") ⊎ (klass r ≡ "partial") ⊎ (klass r ≡ "zero")
klass-cases r = elim (Bool-cases (r.status == codes "ok")) [
  | inl k ↦ inl (rw (klass, k) refl)
  | inr k ↦ elim (Bool-cases (ltb 0 (total r))) [
    | inl t ↦ inr (inl (rw (klass, k, t) refl))
    | inr t ↦ inr (inr (rw (klass, k, t) refl))
  ]
]

contradiction : {b : Bool} → b ≡ true → not b ≡ true → ⊥
contradiction p n = cc

fails_alone : (ok listed_one : Bool) → ((ok || listed_one) && not ok) ≡ (not ok && listed_one)
fails_alone ok listed_one = ground arith

neither : (ok listed_one : Bool) → not (ok || listed_one) ≡ (not ok && not listed_one)
neither ok listed_one = ground arith

module _ (attr : Attribution) where
  in_spec_gap : Row → Bool
  in_spec_gap r = contains (listed attr (codes "B_spec_gap")) r.task

  in_pending : Row → Bool
  in_pending r = contains (listed attr (codes "C_pending")) r.task

  trusted_of_ok : (r : Row) → klass r ≡ "ok" → is_trusted attr r ≡ true
  unfolding string_eq
  trusted_of_ok r k = rw (is_trusted, k) refl

  zero_row : (r : Row) → klass r ≡ "zero" → is_zero_row r ≡ true
  unfolding string_eq
  zero_row r k = rw (is_zero_row, k) refl

  trusted_of_listed :
      (r : Row)
      → contains (listed attr (codes "A_candidate_fail")) r.task ≡ true
      → is_trusted attr r ≡ true
  unfolding string_eq option_eq
  trusted_of_listed r a = elim (Bool-cases (klass r == "ok")) [
    | inl k ↦ rw (is_trusted, k) refl
    | inr k ↦ rw (is_trusted, k, bucket_of, a) refl
  ]

  other_row :
      (r : Row)
      → klass r ≡ "partial"
      → contains (listed attr (codes "A_candidate_fail")) r.task ≡ false
      → in_spec_gap r ≡ false
      → in_pending r ≡ false
      → is_other attr r ≡ true
  unfolding in_spec_gap in_pending string_eq option_eq
  other_row r k a b c = rw (is_other, k, bucket_of, a, b, c) refl

  explained :
      (r : Row)
      → not (is_trusted attr r) ≡ true
      → (in_spec_gap r || in_pending r || is_other attr r || is_zero_row r) ≡ true
  explained r h = elim (klass-cases r) [
    | inl ok ↦ absurd (contradiction (trusted_of_ok r ok) h)
    | inr (inr zero) ↦ rw (zero_row r zero) (ground arith)
    | inr (inl partial) ↦ elim (Bool-cases (in_spec_gap r)) [
      | inl b ↦ rw b refl
      | inr b ↦ elim (Bool-cases (in_pending r)) [
        | inl c ↦ rw (b, c) refl
        | inr c ↦ elim (Bool-cases (contains (listed attr (codes "A_candidate_fail")) r.task)) [
          | inl a ↦ absurd (contradiction (trusted_of_listed r a) h)
          | inr a ↦ rw (b, c, other_row r partial a b c) refl
        ]
      ]
    ]
  ]

  is_ok-status : (r : Row) → is_ok r ≡ (r.status == codes "ok")
  unfolding string_eq
  is_ok-status r = elim (Bool-cases (r.status == codes "ok")) [
    | inl k ↦ rw (klass, k) refl
    | inr k ↦ elim (Bool-cases (ltb 0 (total r))) [
      | inl t ↦ rw (klass, k, t) refl
      | inr t ↦ rw (klass, k, t) refl
    ]
  ]

  is_first-listed :
      (r : Row)
      → (bucket_of attr r.task == some "A")
        ≡ contains (listed attr (codes "A_candidate_fail")) r.task
  unfolding string_eq option_eq
  is_first-listed r = elim (Bool-cases (contains (listed attr (codes "A_candidate_fail")) r.task)) [
    | inl a ↦ rw (bucket_of, a) refl
    | inr a ↦ elim (Bool-cases (contains (listed attr (codes "B_spec_gap")) r.task)) [
      | inl b ↦ rw (bucket_of, a, b) refl
      | inr b ↦ elim (Bool-cases (contains (listed attr (codes "C_pending")) r.task)) [
        | inl c ↦ rw (bucket_of, a, b, c) refl
        | inr c ↦ rw (bucket_of, a, b, c) refl
      ]
    ]
  ]

  -- In the trust view the tasks that scored cleanly are those with the status `ok`, the candidate's
  -- failures are the others that the list of such failures names, and the untrusted tasks are the
  -- rest, all in the order of the rows. The trusted and the untrusted tasks add up to all the tasks,
  -- in every counter, and the first two lists to the trusted ones.
  pub view_trust-partition :
      (f : Row → ℕ) (rows : List Row)
      → ((view_trust attr rows).ok ≡ keep (λ r. r.status == codes "ok") rows)
        × ((view_trust attr rows).candidate_fail
            ≡ keep
                (λ r.
                  not (r.status == codes "ok")
                  && contains (listed attr (codes "A_candidate_fail")) r.task)
                rows)
        × ((view_trust attr rows).untrusted
            ≡ keep
                (λ r.
                  not (r.status == codes "ok")
                  && not (contains (listed attr (codes "A_candidate_fail")) r.task))
                rows)
        × (sum_of f (view_trust attr rows).trusted + sum_of f (view_trust attr rows).untrusted
            ≡ sum_of f rows)
        × (sum_of f (view_trust attr rows).ok + sum_of f (view_trust attr rows).candidate_fail
            ≡ sum_of f (view_trust attr rows).trusted)
  unfolding view_trust
  view_trust-partition f rows = (
    keep-same is_ok _ is_ok-status rows,
    keep-after (λ r. not (is_ok r)) (is_trusted attr) _
        (λ r.
          rw (is_ok-status r, is_first-listed r)
            (fails_alone (r.status == codes "ok")
              (contains (listed attr (codes "A_candidate_fail")) r.task)))
        rows,
    keep-same (λ r. not (is_trusted attr r)) _
        (λ r.
          rw (is_ok-status r, is_first-listed r)
            (neither (r.status == codes "ok")
              (contains (listed attr (codes "A_candidate_fail")) r.task)))
        rows,
    sum_of-keep f (is_trusted attr) rows,
    ap
          (λ (l : List Row).
            sum_of f l + sum_of f (keep (λ r. not (is_ok r)) (keep (is_trusted attr) rows)))
          (sym (keep-keep (is_trusted attr) is_ok (λ r h. rw h refl) rows))
        ∙ sum_of-keep f is_ok (keep (is_trusted attr) rows),
  )

  -- In the trust view the four lists below the untrusted total are together no smaller than it, in
  -- number and in every counter.
  pub view_trust-explained :
      (f : Row → ℕ) (rows : List Row)
      → sum_of f (view_trust attr rows).untrusted
        ≤ sum_of f (view_trust attr rows).spec_gap
          + sum_of f (view_trust attr rows).pending
          + sum_of f (view_trust attr rows).partial_other
          + sum_of f (view_trust attr rows).zero_rows
  unfolding view_trust in_spec_gap in_pending
  view_trust-explained f rows =
      sum_of-le-parts f (λ r. not (is_trusted attr r)) in_spec_gap in_pending (is_other attr)
        is_zero_row explained rows
