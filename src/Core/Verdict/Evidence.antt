-- ===== src/Core/Verdict/Evidence.antt =====
-- The evidence of a verdict: every slot is either measured or named as pending, and a value can be
-- traced to the first key that has it.
use bmk_dev.Base.{
  Bool, true, false, not, none, some, List, [], ◌∷◌, ◌++◌, nat_eq, list_eq, ◌≡◌, refl, sym, ◌∙◌, ap,
  any, keep, map, Option-cases, inl, inr,
}
use mathlib.Core.Option.{some-injective, none-ne-some}
use bmk_dev.Base.Text.{Text}
use bmk_dev.Base.Floats.{Floats}
use bmk_dev.Base.Json.{Json, Fields}
use bmk_dev.Core.Slots.{
  Slot, slots, extractors, resolve, first_of, rate, Entry, evidence_loop, evidence_of,
}

module _ (F : Floats) (task : Fields F.Float) where
  abbrev pub has_value : Text → Bool
  has_value key = elim (resolve F task key) [ none ↦ false | some _ ↦ true ]

  -- One of the slot's keys has a value.
  abbrev pub is_measured : Slot → Bool
  is_measured name = any has_value (extractors name)

  -- The key is the first of the keys that has a value, which is this one.
  abbrev pub IsFirst : List Text → Json F.Float → Text → Type 0
  IsFirst keys value key =
      (before : List Text) × (after : List Text) × (keys ≡ before ++ (key ∷ after))
      × (any has_value before ≡ false)
      × (resolve F task key ≡ some value)

  abbrev pub IsTraced : List (Entry F) → Type 0
  IsTraced [] = Unit
  IsTraced (e ∷ more) =
      IsFirst (extractors e.name) e.value e.source × (e.rate_of ≡ rate F e.value) × IsTraced more

  first_of-none : (keys : List Text) → first_of F task keys ≡ none → any has_value keys ≡ false
  unfolding first_of
  first_of-none [] h = refl
  first_of-none (key ∷ keys) h = elim (Option-cases (resolve F task key)) [
    | inl n ↦ rw (has_value, n) (first_of-none keys (rw (first_of, n) at h))
    | inr (v, y) ↦ absurd (none-ne-some (v, key) (sym h ∙ rw (first_of, y) refl))
  ]

  first_of-IsFirst :
      (keys : List Text) (value : Json F.Float) (key : Text)
      → first_of F task keys ≡ some (value, key)
      → IsFirst keys value key × (any has_value keys ≡ true)
  unfolding first_of
  first_of-IsFirst [] value key h = cc
  first_of-IsFirst (k ∷ keys) value key h = elim (Option-cases (resolve F task k)) [
    | inl n ↦
        let ((before, after, split, clear, found), h') =
          first_of-IsFirst keys value key (rw (first_of, n) at h) in
        (
          (k ∷ before, after, ap (λ (l : List Text). k ∷ l) split, rw (has_value, n) clear, found),
          rw (has_value, n) h',
        )
    | inr (v, y) ↦
        let found : some (v, k) ≡ some (value, key) = sym (rw (first_of, y) refl) ∙ h in
        let same = some-injective (v, k) (value, key) found in
        let here : k ≡ key = ap (λ (p : Json F.Float × Text). p.1) same in
        let there : v ≡ value = ap (λ (p : Json F.Float × Text). p.0) same in
        (
          (
            [],
            keys,
            ap (λ (j : Text). j ∷ keys) here,
            refl,
            ap (resolve F task) (sym here) ∙ y ∙ ap some there,
          ),
          rw (has_value, y) refl,
        )
  ]

  evidence_loop-partition :
      (names : List Slot)
      → (map (λ (e : Entry F). e.name) (evidence_loop F task names).0 ≡ keep is_measured names)
        × ((evidence_loop F task names).1 ≡ keep (λ name. not (is_measured name)) names)
        × IsTraced (evidence_loop F task names).0
  unfolding evidence_loop
  evidence_loop-partition [] = (refl, refl, tt)
  evidence_loop-partition (name ∷ names) =
      let (names', pending', traced) = evidence_loop-partition names in
      elim (Option-cases (first_of F task (extractors name))) [
        | inl n ↦
            rw (evidence_loop, n, first_of-none (extractors name) n)
              (names', ap (λ (l : List Slot). name ∷ l) pending', traced)
        | inr ((value, key), y) ↦
            let (first', measured) = first_of-IsFirst (extractors name) value key y in
            rw (evidence_loop, y, measured)
              (ap (λ (l : List Slot). name ∷ l) names', pending', (first', refl, traced))
      ]

  -- The slots that have evidence are those of which a key has a value, and the others are pending,
  -- both in the order of `SLOTS`; each piece of evidence names the first of its slot's keys that has
  -- a value, with that value and the rate of it.
  pub evidence_of-partition :
      (map (λ (e : Entry F). e.name) (evidence_of F task).0 ≡ keep is_measured slots)
      × ((evidence_of F task).1 ≡ keep (λ name. not (is_measured name)) slots)
      × IsTraced (evidence_of F task).0
  evidence_of-partition = evidence_loop-partition slots
