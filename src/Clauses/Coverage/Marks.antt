-- ===== src/Clauses/Coverage/Marks.antt =====
-- What a mark changes, and what the search for a quote finds.
use bmk_dev.Base.{
  ℕ, zero, suc, ◌+◌, ◌-◌, ◌≤◌, ◌<◌, Bool, true, false, ◌&&◌, ◌||◌, none, some, List, [], ◌∷◌,
  length, drop, length-drop, drop-add, ◌≡◌, refl, sym, ◌∙◌, arith, ap, ltb, leb, inl, inr,
  Bool-cases, Option-cases,
}
use mathlib.Core.Path.{subst}
use mathlib.Core.Option.{some-injective, none-ne-some, some-ne-none}
use bmk_dev.Base.Text.{Text, starts_with}
use bmk_dev.Clauses.Coverage.{mark, first_at, find, nothing_covered}

-- Whether a position is covered; beyond the end none is.
unfoldable pub is_covered : List Bool → ℕ → Bool
is_covered [] k = false
is_covered (b ∷ bs) zero = b
is_covered (b ∷ bs) (suc k) = is_covered bs k

pub is_covered-mark :
    (i n : ℕ) (bs : List Bool) (k : ℕ)
    → is_covered (mark i n bs) k
      ≡ (is_covered bs k || (leb i k && ltb k (i + n) && ltb k (length bs)))
unfolding is_covered mark
is_covered-mark i n [] k = ground arith
is_covered-mark zero zero (b ∷ bs) k = ground arith
is_covered-mark zero (suc n) (b ∷ bs) zero = ground arith
is_covered-mark zero (suc n) (b ∷ bs) (suc k) = ground (arith, is_covered-mark zero n bs k)
is_covered-mark (suc i) n (b ∷ bs) zero = ground arith
is_covered-mark (suc i) n (b ∷ bs) (suc k) = ground (arith, is_covered-mark i n bs k)

pub length-mark : (i n : ℕ) (bs : List Bool) → length (mark i n bs) ≡ length bs
unfolding mark
length-mark i n [] = refl
length-mark zero zero (b ∷ bs) = refl
length-mark zero (suc n) (b ∷ bs) = ap suc (length-mark zero n bs)
length-mark (suc i) n (b ∷ bs) = ap suc (length-mark i n bs)

pub is_covered-nothing : (prose : Text) (k : ℕ) → is_covered (nothing_covered prose) k ≡ false
unfolding is_covered
is_covered-nothing [] k = refl
is_covered-nothing (c ∷ s) zero = refl
is_covered-nothing (c ∷ s) (suc k) = is_covered-nothing s k

pub length-nothing : (prose : Text) → length (nothing_covered prose) ≡ length prose
length-nothing [] = refl
length-nothing (c ∷ s) = ap suc (length-nothing s)

-- Whether a quote stands at a position.
abbrev pub occurs : Text → Text → ℕ → Bool
occurs q prose i = starts_with (drop i prose) q

starts_with-length : (q s : Text) → starts_with s q ≡ true → length q ≤ length s
starts_with-length [] s h = omega arith
starts_with-length (c ∷ q) [] h = absurd cc
starts_with-length (c ∷ q) (d ∷ s) h = ground (arith, starts_with-length q s)

pub occurs-length :
    (q prose : Text) (i : ℕ) → 1 ≤ length q → occurs q prose i ≡ true → i + length q ≤ length prose
occurs-length q prose i n h =
    omega (arith, starts_with-length q (drop i prose) h, length-drop i prose)

module _ (c : ℕ) (q : Text) where
  next_occurs :
      (d : ℕ) (s : Text)
      → occurs (c ∷ q) (d ∷ s) 0 ≡ false
      → ((k : ℕ) → occurs (c ∷ q) s k ≡ false)
      → (k : ℕ) → occurs (c ∷ q) (d ∷ s) k ≡ false
  next_occurs d s f later zero = f
  next_occurs d s f later (suc k) = later k

  earlier :
      (d : ℕ) (s : Text) (i : ℕ)
      → occurs (c ∷ q) (d ∷ s) 0 ≡ false
      → ((k : ℕ) → k < i → occurs (c ∷ q) s k ≡ false)
      → (k : ℕ) → k < suc i
      → occurs (c ∷ q) (d ∷ s) k ≡ false
  earlier d s i f before zero l = f
  earlier d s i f before (suc k) l = before k (omega arith)

  first_at-none : (s : Text) → first_at (c ∷ q) s ≡ none → (k : ℕ) → occurs (c ∷ q) s k ≡ false
  unfolding first_at
  first_at-none [] h zero = refl
  first_at-none [] h (suc k) = refl
  first_at-none (d ∷ s) h k = elim (Bool-cases (starts_with (d ∷ s) (c ∷ q))) [
    | inl t ↦ absurd (some-ne-none 0 (sym (rw (first_at, t) refl) ∙ h))
    | inr f ↦ elim (Option-cases (first_at (c ∷ q) s)) [
      | inr (j, e) ↦ absurd (some-ne-none (j + 1) (sym (rw (first_at, f, e) refl) ∙ h))
      | inl n ↦ next_occurs d s f (first_at-none s n) k
    ]
  ]

  first_at-some :
      (s : Text) (j : ℕ)
      → first_at (c ∷ q) s ≡ some j
      → (occurs (c ∷ q) s j ≡ true) × ((k : ℕ) → k < j → occurs (c ∷ q) s k ≡ false)
  unfolding first_at
  first_at-some [] j h = absurd (none-ne-some j h)
  first_at-some (d ∷ s) j h = elim (Bool-cases (starts_with (d ∷ s) (c ∷ q))) [
    | inl t ↦
        let here : 0 ≡ j = some-injective 0 j (sym (rw (first_at, t) refl) ∙ h) in
        (subst (λ (i : ℕ). occurs (c ∷ q) (d ∷ s) i ≡ true) here t, λ k l. absurd (omega arith))
    | inr f ↦ elim (Option-cases (first_at (c ∷ q) s)) [
      | inl n ↦ absurd (none-ne-some j (sym (rw (first_at, f, n) refl) ∙ h))
      | inr (i, e) ↦
          let later : i + 1 ≡ j = some-injective (i + 1) j (sym (rw (first_at, f, e) refl) ∙ h) in
          let next : suc i ≡ j = omega (arith, later) in
          let (there, before) = first_at-some s i e in
          (
            subst (λ (m : ℕ). occurs (c ∷ q) (d ∷ s) m ≡ true) next there,
            λ k l. earlier d s i f before k (omega (arith, next, l)),
          )
    ]
  ]

  -- `find` from a position on.
  pub find-none :
      (prose : Text) (i : ℕ)
      → find (c ∷ q) prose i ≡ none
      → (k : ℕ) → i ≤ k
      → occurs (c ∷ q) prose k ≡ false
  find-none prose i h k l = elim (Option-cases (first_at (c ∷ q) (drop i prose))) [
    | inr (j, e) ↦ absurd (some-ne-none (i + j) (sym (rw (find, e) refl) ∙ h))
    | inl n ↦
        let split : i + (k - i) ≡ k = omega arith in
        subst (λ (m : ℕ). occurs (c ∷ q) prose m ≡ false) split
          (ap (λ (t : Text). starts_with t (c ∷ q)) (drop-add i (k - i) prose)
            ∙ first_at-none (drop i prose) n (k - i))
  ]

  pub find-some :
      (prose : Text) (i j : ℕ)
      → find (c ∷ q) prose i ≡ some j
      → (i ≤ j)
        × (occurs (c ∷ q) prose j ≡ true)
        × ((k : ℕ) → i ≤ k → k < j → occurs (c ∷ q) prose k ≡ false)
  find-some prose i j h = elim (Option-cases (first_at (c ∷ q) (drop i prose))) [
    | inl n ↦ absurd (none-ne-some j (sym (rw (find, n) refl) ∙ h))
    | inr (m, e) ↦
        let sum : i + m ≡ j = some-injective (i + m) j (sym (rw (find, e) refl) ∙ h) in
        let (there, before) = first_at-some (drop i prose) m e in
        (
          omega (arith, sum),
          subst (λ (p : ℕ). occurs (c ∷ q) prose p ≡ true) sum
              (ap (λ (t : Text). starts_with t (c ∷ q)) (drop-add i m prose) ∙ there),
          λ k l u.
              let split : i + (k - i) ≡ k = omega arith in
              subst (λ (p : ℕ). occurs (c ∷ q) prose p ≡ false) split
                (ap (λ (t : Text). starts_with t (c ∷ q)) (drop-add i (k - i) prose)
                  ∙ before (k - i) (omega (arith, sum, l, u))),
        )
  ]
