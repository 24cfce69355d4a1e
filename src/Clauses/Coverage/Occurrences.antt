-- ===== src/Clauses/Coverage/Occurrences.antt =====
-- What the loop over the occurrences of one quote covers.
use bmk_dev.Base.{
  ℕ, zero, suc, ◌+◌, ◌≤◌, ◌<◌, Bool, true, ◌&&◌, ◌||◌, List, ◌∷◌, length, ◌≡◌, ◌⊎◌, refl, sym, ◌∙◌,
  arith, ap, ltb, leb, inl, inr, Bool-cases, Option-cases, list_eq, nat_eq,
}
use mathlib.Core.Bool.{true≢false}
use bmk_dev.Base.Text.{Text}
use bmk_dev.Clauses.Coverage.{mark, find, find_loop}
use bmk_dev.Clauses.Coverage.Marks.{
  is_covered, is_covered-mark, length-mark, occurs, occurs-length, find-none, find-some,
}

-- A position in an occurrence of a quote, the occurrence at or behind `i`.
abbrev pub IsQuoted : Text → Text → ℕ → ℕ → Type 0
IsQuoted q prose i k = (s : ℕ) × (i ≤ s) × (occurs q prose s ≡ true) × (s ≤ k) × (k < s + length q)

mark_cases :
    (i n : ℕ) (bs : List Bool) (k : ℕ)
    → is_covered (mark i n bs) k ≡ true
    → (is_covered bs k ≡ true) ⊎ ((i ≤ k) × (k < i + n))
mark_cases i n bs k h = elim (Bool-cases (is_covered bs k)) [
  | inl t ↦ inl t
  | inr f ↦
      let m : (is_covered bs k || (leb i k && ltb k (i + n) && ltb k (length bs))) ≡ true =
        sym (is_covered-mark i n bs k) ∙ h in
      inr (ground arith, ground arith)
]

mark_keeps :
    (i n : ℕ) (bs : List Bool) (k : ℕ) → is_covered bs k ≡ true → is_covered (mark i n bs) k ≡ true
mark_keeps i n bs k h = is_covered-mark i n bs k ∙ rw h refl

mark_sets :
    (i n : ℕ) (bs : List Bool) (k : ℕ)
    → i ≤ k
    → k < i + n
    → k < length bs
    → is_covered (mark i n bs) k ≡ true
mark_sets i n bs k l u b = is_covered-mark i n bs k ∙ ground arith

s_cases : (s j : ℕ) → (s < j) ⊎ ((s ≡ j) ⊎ (j < s))
s_cases s j = ground arith

module _ (c : ℕ) (q prose : Text) where
  pub find_loop-length :
      (fuel i : ℕ) (covered : List Bool)
      → length (find_loop fuel (c ∷ q) prose i covered) ≡ length covered
  unfolding find_loop
  find_loop-length zero i covered = refl
  find_loop-length (suc fuel) i covered = elim (Option-cases (find (c ∷ q) prose i)) [
    | inl n ↦ rw (find_loop, n) refl
    | inr (j, e) ↦
        rw (find_loop, e)
          (find_loop-length fuel (j + 1) (mark j (length (c ∷ q)) covered)
            ∙ length-mark j (length (c ∷ q)) covered)
  ]

  pub find_loop-keeps :
      (fuel i : ℕ) (covered : List Bool) (k : ℕ)
      → is_covered covered k ≡ true
      → is_covered (find_loop fuel (c ∷ q) prose i covered) k ≡ true
  unfolding find_loop
  find_loop-keeps zero i covered k h = h
  find_loop-keeps (suc fuel) i covered k h = elim (Option-cases (find (c ∷ q) prose i)) [
    | inl n ↦ rw (find_loop, n) h
    | inr (j, e) ↦
        rw (find_loop, e)
          (find_loop-keeps fuel (j + 1) (mark j (length (c ∷ q)) covered) k
            (mark_keeps j (length (c ∷ q)) covered k h))
  ]

  pub find_loop_sound :
      (fuel i : ℕ) (covered : List Bool) (k : ℕ)
      → is_covered (find_loop fuel (c ∷ q) prose i covered) k ≡ true
      → (is_covered covered k ≡ true) ⊎ IsQuoted (c ∷ q) prose i k
  unfolding find_loop
  find_loop_sound zero i covered k h = inl h
  find_loop_sound (suc fuel) i covered k h = elim (Option-cases (find (c ∷ q) prose i)) [
    | inl n ↦ inl (sym (ap (λ (bs : List Bool). is_covered bs k) (rw (find_loop, n) refl)) ∙ h)
    | inr (j, e) ↦
        let marked = mark j (length (c ∷ q)) covered in
        let next : find_loop (suc fuel) (c ∷ q) prose i covered
            ≡ find_loop fuel (c ∷ q) prose (j + 1) marked =
          rw (find_loop, e) refl in
        let (l, there, _) = find-some c q prose i j e in
        elim (find_loop_sound fuel (j + 1) marked k
          (sym (ap (λ (bs : List Bool). is_covered bs k) next) ∙ h)) [
            | inr (s, above, at, low, high) ↦ inr (s, omega (arith, l, above), at, low, high)
            | inl m ↦ elim (mark_cases j (length (c ∷ q)) covered k m) [
              | inl old ↦ inl old
              | inr (low, high) ↦ inr (j, l, there, low, high)
            ]
          ]
  ]

  -- The rounds that the fuel allows find every occurrence.
  pub find_loop_complete :
      (fuel i : ℕ) (covered : List Bool) (k : ℕ)
      → length covered ≡ length prose
      → length prose < fuel + i
      → IsQuoted (c ∷ q) prose i k
      → is_covered (find_loop fuel (c ∷ q) prose i covered) k ≡ true
  unfolding find_loop
  find_loop_complete zero i covered k same enough (s, l, at, low, high) =
      absurd (omega (arith, occurs-length (c ∷ q) prose s (omega arith) at))
  find_loop_complete (suc fuel) i covered k same enough (s, l, at, low, high) =
      elim (Option-cases (find (c ∷ q) prose i)) [
        | inl n ↦ absurd (true≢false (sym at ∙ find-none c q prose i n s l))
        | inr (j, e) ↦
            let marked = mark j (length (c ∷ q)) covered in
            let (il, there, before) = find-some c q prose i j e in
            let inside = occurs-length (c ∷ q) prose s (omega arith) at in
            rw (find_loop, e)
              (elim (s_cases s j) [
                | inl smaller ↦ absurd (true≢false (sym at ∙ before s l smaller))
                | inr (inl equal) ↦ find_loop-keeps fuel (j + 1) marked k (
                    mark_sets j (length (c ∷ q)) covered k (omega (arith, low, equal))
                      (omega (arith, high, equal)) (omega (arith, high, inside, same)))
                | inr (inr larger) ↦
                    find_loop_complete fuel (j + 1) marked k
                      (length-mark j (length (c ∷ q)) covered ∙ same) (omega (arith, enough, il))
                      (s, omega (arith, larger), at, low, high)
              ])
      ]
