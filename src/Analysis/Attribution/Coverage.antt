-- ===== src/Analysis/Attribution/Coverage.antt =====
-- What the check of the curated buckets shows.
use bmk_dev.Base.{
  contains-append, ◌+◌, ltb, eqb, any, Bool, true, false, not, ◌||◌, ◌&&◌, some, List, [], ◌∷◌,
  ◌++◌, String, contains, is_nil, length, nat_eq, list_eq, string_eq, option_eq, keep, ◌≡◌, ◌↔◌,
  refl, sym, ◌∙◌, arith, ap, ◌==◌, map, Bool-cases, inl, inr, ==-cases, ==-self, Eq,
}
use mathlib.Core.Bool.{true≢false}
use bmk_dev.Base.Text.{Text, codes}
use bmk_dev.Base.Sorting.{sorted, le_text, length-sorted}
use bmk_dev.Analysis.EvalLib.{Row, klass, total, passed, Attribution, listed, bucket_of}
use bmk_dev.Analysis.Attribution.{view_verify, zero_part, curated}

module _ {ℓ} {A : Type ℓ} where
  is_nil-of-length : (xs ys : List A) → length xs ≡ length ys → is_nil xs ≡ is_nil ys
  is_nil-of-length [] [] h = refl
  is_nil-of-length [] (y ∷ ys) h = absurd (omega (arith, h))
  is_nil-of-length (x ∷ xs) [] h = absurd (omega (arith, h))
  is_nil-of-length (x ∷ xs) (y ∷ ys) h = refl

module _ {ℓ} {A : Type ℓ} ⦃e : Eq A⦄ where
  -- Nothing of `xs` is missing in `ys`.
  none_missing :
      (xs ys : List A)
      → is_nil (keep (λ t. not (contains ys t)) xs) ≡ true
      → (a : A) → contains xs a ≡ true
      → contains ys a ≡ true
  none_missing [] ys h a c = cc
  none_missing (x ∷ xs) ys h a c = elim (Bool-cases (contains ys x)) [
    | inl y ↦ elim (==-cases a x) [
      | inl (t, same) ↦ rw same y
      | inr (f, differ) ↦ none_missing xs ys (ground arith) a (ground arith)
    ]
    | inr n ↦ absurd (ground arith)
  ]

  missing_none :
      (xs ys : List A)
      → ((a : A) → contains xs a ≡ true → contains ys a ≡ true)
      → is_nil (keep (λ t. not (contains ys t)) xs) ≡ true
  missing_none [] ys h = refl
  missing_none (x ∷ xs) ys h =
      rw (h x (rw (==-self x) refl)) (missing_none xs ys (λ a c. h a (ground arith)))

-- A row that is not `ok`, of a task with tests, of which none passed.
abbrev pub scored_nothing : Row → Bool
scored_nothing r =
    not (r.status == codes "ok")
    && ltb 0 (r.atomic_total + r.integ_total)
    && eqb (r.atomic_passed + r.integ_passed) 0

zero_row : (r : Row) → (klass r == "partial" && eqb (passed r) 0) ≡ scored_nothing r
unfolding string_eq
zero_row r = elim (Bool-cases (r.status == codes "ok")) [
  | inl k ↦ rw (klass, k) refl
  | inr k ↦ elim (Bool-cases (ltb 0 (total r))) [
    | inl t ↦ rw (klass, k, t) refl
    | inr t ↦ rw (klass, k, t) refl
  ]
]

contains-map-keep :
    (f : Row → Text) (p q : Row → Bool)
    → ((r : Row) → p r ≡ q r)
    → (a : Text) (rows : List Row)
    → contains (map f (keep p rows)) a ≡ any (λ (r : Row). a == f r && q r) rows
contains-map-keep f p q h a [] = refl
contains-map-keep f p q h a (r ∷ rows) = elim (Bool-cases (q r)) [
  | inl y ↦ rw (h r, y) (ground (arith, contains-map-keep f p q h a rows))
  | inr n ↦ rw (h r, n) (ground (arith, contains-map-keep f p q h a rows))
]

both_ways : (a b : Bool) → (a ≡ true → b ≡ true) → (b ≡ true → a ≡ true) → a ≡ b
both_ways a b f g = ground (arith, f, g)

module _ (attr : Attribution) (rows : List Row) where
  is_nil-sorted : (xs : List Text) → is_nil (sorted le_text xs) ≡ is_nil xs
  is_nil-sorted xs = is_nil-of-length (sorted le_text xs) xs (length-sorted le_text xs)

  ok-parts : (view_verify attr rows).ok ≡ (
      is_nil (keep (λ t. not (contains (curated attr) t)) (zero_part rows))
      && is_nil (keep (λ t. not (contains (zero_part rows) t)) (curated attr)))
  unfolding view_verify
  ok-parts =
      rw
        (
          is_nil-sorted (keep (λ t. not (contains (curated attr) t)) (zero_part rows)),
          is_nil-sorted (keep (λ t. not (contains (zero_part rows) t)) (curated attr)),
        )
        refl

  -- On the sets of the check.
  ok-sets :
      ((view_verify attr rows).ok ≡ true)
      ↔ ((task : Text) → contains (zero_part rows) task ≡ contains (curated attr) task)
  ok-sets = (
    λ h task.
        both_ways _ _ (none_missing (zero_part rows) (curated attr) (ground (arith, ok-parts)) task)
          (none_missing (curated attr) (zero_part rows) (ground (arith, ok-parts)) task),
    λ same.
        ok-parts
        ∙ rw
            (
              missing_none (zero_part rows) (curated attr) (λ a c. sym (same a) ∙ c),
              missing_none (curated attr) (zero_part rows) (λ a c. same a ∙ c),
            )
            refl,
  )

  contains-curated :
      (task : Text)
      → contains (curated attr) task ≡ (
          contains (listed attr (codes "A_candidate_fail")) task
          || (contains (listed attr (codes "B_spec_gap")) task
              || contains (listed attr (codes "C_pending")) task))
  contains-curated task =
      contains-append (listed attr (codes "A_candidate_fail"))
        (listed attr (codes "B_spec_gap") ++ listed attr (codes "C_pending")) task
      ∙ ap (λ (b : Bool). contains (listed attr (codes "A_candidate_fail")) task || b)
          (contains-append (listed attr (codes "B_spec_gap")) (listed attr (codes "C_pending"))
            task)

  contains-zero_part :
      (task : Text)
      → contains (zero_part rows) task ≡ any (λ (r : Row). task == r.task && scored_nothing r) rows
  contains-zero_part task =
      contains-map-keep (λ (r : Row). r.task) _ scored_nothing zero_row task rows

  -- The check of the buckets says OK exactly when a task stands in one of the three curated lists
  -- if and only if it has a row whose status is not `ok`, with a test of some suite in its totals
  -- and no test of any suite passed.
  pub view_verify-ok : ((view_verify attr rows).ok ≡ true) ↔ (
      (task : Text)
      → any (λ (r : Row). task == r.task && scored_nothing r) rows ≡ (
          contains (listed attr (codes "A_candidate_fail")) task
          || (contains (listed attr (codes "B_spec_gap")) task
              || contains (listed attr (codes "C_pending")) task)))
  view_verify-ok = (
    λ h task. sym (contains-zero_part task) ∙ ok-sets.0 h task ∙ contains-curated task,
    λ same. ok-sets.1 (λ task. contains-zero_part task ∙ same task ∙ sym (contains-curated task)),
  )

  bucket_of-curated :
      (task : Text)
      → contains (curated attr) task ≡ true
      → (letter : String) × (bucket_of attr task ≡ some letter)
  bucket_of-curated task h =
      elim (Bool-cases (contains (listed attr (codes "A_candidate_fail")) task)) [
        | inl a ↦ ("A", rw (bucket_of, a) refl)
        | inr a ↦ elim (Bool-cases (contains (listed attr (codes "B_spec_gap")) task)) [
          | inl b ↦ ("B", rw (bucket_of, a, b) refl)
          | inr b ↦ elim (Bool-cases (contains (listed attr (codes "C_pending")) task)) [
            | inl c ↦ ("C", rw (bucket_of, a, b, c) refl)
            | inr c ↦
                let nowhere : contains (curated attr) task ≡ false =
                  contains-curated task ∙ rw (a, b, c) refl in
                absurd (true≢false (sym h ∙ nowhere))
          ]
        ]
      ]

  -- Where the check of the buckets says OK, a task has a bucket if it has a row whose status is not
  -- `ok`, with a test of some suite in its totals and no test of any suite passed.
  pub bucket_of-verified :
      (view_verify attr rows).ok ≡ true
      → (task : Text) → any (λ (r : Row). task == r.task && scored_nothing r) rows ≡ true
      → (letter : String) × (bucket_of attr task ≡ some letter)
  bucket_of-verified h task z =
      bucket_of-curated task (sym (ok-sets.0 h task) ∙ contains-zero_part task ∙ z)
