-- ===== src/Clauses/Coverage/Exact.antt =====
-- That a character is covered exactly where it stands in an occurrence of a quote.
use bmk_dev.Base.{
  ℕ, suc, Bool, true, false, List, [], ◌∷◌, length, ◌≡◌, ◌⊎◌, ◌↔◌, refl, sym, ◌∙◌, arith,
  if◌then◌else◌, inl, inr, contains, ==-cases, ==-self, list_eq, nat_eq,
}
use mathlib.Core.Path.{subst}
use mathlib.Core.Bool.{true≢false}
use bmk_dev.Base.Text.{Text, is_empty}
use bmk_dev.Clauses.Coverage.{find_loop, cover_loop, cover, nothing_covered}
use bmk_dev.Clauses.Coverage.Marks.{is_covered, is_covered-nothing, length-nothing}
use bmk_dev.Clauses.Coverage.Occurrences.{
  IsQuoted, find_loop-length, find_loop-keeps, find_loop_sound, find_loop_complete,
}

abbrev pub InQuote : Text → List Text → ℕ → Type 0
InQuote prose quotes k =
    (q : Text) × (contains quotes q ≡ true) × (is_empty q ≡ false) × IsQuoted q prose 0 k

module _ (prose : Text) where
  -- The body of the loop over the quotes.
  abbrev covered_by : Text → List Bool → List Bool
  covered_by q covered =
      if is_empty q then covered else find_loop (suc (length prose)) q prose 0 covered

  covered_by-length :
      (q : Text) (covered : List Bool) → length (covered_by q covered) ≡ length covered
  covered_by-length [] covered = refl
  covered_by-length (c ∷ q) covered = find_loop-length c q prose (suc (length prose)) 0 covered

  covered_by-keeps :
      (q : Text) (covered : List Bool) (k : ℕ)
      → is_covered covered k ≡ true
      → is_covered (covered_by q covered) k ≡ true
  covered_by-keeps [] covered k h = h
  covered_by-keeps (c ∷ q) covered k h =
      find_loop-keeps c q prose (suc (length prose)) 0 covered k h

  covered_by_sound :
      (q : Text) (covered : List Bool) (k : ℕ)
      → is_covered (covered_by q covered) k ≡ true
      → (is_covered covered k ≡ true) ⊎ ((is_empty q ≡ false) × IsQuoted q prose 0 k)
  covered_by_sound [] covered k h = inl h
  covered_by_sound (c ∷ q) covered k h =
      elim (find_loop_sound c q prose (suc (length prose)) 0 covered k h) [
        | inl old ↦ inl old
        | inr quoted ↦ inr (refl, quoted)
      ]

  covered_by_complete :
      (q : Text) (covered : List Bool) (k : ℕ)
      → length covered ≡ length prose
      → is_empty q ≡ false
      → IsQuoted q prose 0 k
      → is_covered (covered_by q covered) k ≡ true
  covered_by_complete [] covered k same full quoted = absurd (true≢false full)
  covered_by_complete (c ∷ q) covered k same full quoted =
      find_loop_complete c q prose (suc (length prose)) 0 covered k same (omega arith) quoted

  cover_loop-keeps :
      (quotes : List Text) (covered : List Bool) (k : ℕ)
      → is_covered covered k ≡ true
      → is_covered (cover_loop prose quotes covered) k ≡ true
  unfolding cover_loop
  cover_loop-keeps [] covered k h = h
  cover_loop-keeps (q ∷ quotes) covered k h =
      cover_loop-keeps quotes (covered_by q covered) k (covered_by-keeps q covered k h)

  cover_loop_sound :
      (quotes : List Text) (covered : List Bool) (k : ℕ)
      → is_covered (cover_loop prose quotes covered) k ≡ true
      → (is_covered covered k ≡ true) ⊎ InQuote prose quotes k
  unfolding cover_loop
  cover_loop_sound [] covered k h = inl h
  cover_loop_sound (q ∷ quotes) covered k h =
      elim (cover_loop_sound quotes (covered_by q covered) k h) [
        | inr (r, c, full, quoted) ↦ inr (r, ground arith, full, quoted)
        | inl now ↦ elim (covered_by_sound q covered k now) [
          | inl old ↦ inl old
          | inr (full, quoted) ↦ inr (q, rw (==-self q) refl, full, quoted)
        ]
      ]

  cover_loop_complete :
      (quotes : List Text) (covered : List Bool) (k : ℕ)
      → length covered ≡ length prose
      → InQuote prose quotes k
      → is_covered (cover_loop prose quotes covered) k ≡ true
  unfolding cover_loop
  cover_loop_complete [] covered k same (r, c, full, quoted) = absurd (true≢false (sym c))
  cover_loop_complete (q ∷ quotes) covered k same (r, c, full, quoted) = elim (==-cases r q) [
    | inl (_, this) ↦ cover_loop-keeps quotes (covered_by q covered) k (
        covered_by_complete q covered k same (subst (λ (t : Text). is_empty t ≡ false) this full)
          (subst (λ (t : Text). IsQuoted t prose 0 k) this quoted))
    | inr (f, _) ↦
        cover_loop_complete quotes (covered_by q covered) k (covered_by-length q covered ∙ same)
          (r, ground arith, full, quoted)
  ]

  cover_loop-length :
      (quotes : List Text) (covered : List Bool)
      → length (cover_loop prose quotes covered) ≡ length covered
  unfolding cover_loop
  cover_loop-length [] covered = refl
  cover_loop-length (q ∷ quotes) covered =
      cover_loop-length quotes (covered_by q covered) ∙ covered_by-length q covered

  pub cover-length : (quotes : List Text) → length (cover prose quotes) ≡ length prose
  cover-length quotes = cover_loop-length quotes (nothing_covered prose) ∙ length-nothing prose

  -- A character of the prose is covered exactly where it stands in an occurrence of a quote that is
  -- not empty, also where occurrences overlap.
  pub cover-exact :
      (quotes : List Text) (k : ℕ)
      → (is_covered (cover prose quotes) k ≡ true) ↔ InQuote prose quotes k
  cover-exact quotes k = (
    λ h. elim (cover_loop_sound quotes (nothing_covered prose) k h) [
      | inl none_yet ↦ absurd (true≢false (sym none_yet ∙ is_covered-nothing prose k))
      | inr quoted ↦ quoted
    ],
    λ quoted. cover_loop_complete quotes (nothing_covered prose) k (length-nothing prose) quoted,
  )
