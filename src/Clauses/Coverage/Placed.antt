-- ===== src/Clauses/Coverage/Placed.antt =====
-- That each unit stands in the prose where its span says.
use bmk_dev.Base.{
  ℕ, zero, suc, ◌+◌, true, false, some, List, [], ◌∷◌, ◌++◌, length, length-append, ◌≡◌, refl, sym,
  ◌∙◌, arith, ap, Bool-cases, inl, inr, get_elem?,
}
use mathlib.Core.Path.{subst}
use mathlib.Core.List.{append_assoc, append-nil}
use mathlib.Core.Option.{some-injective, none-ne-some}
use bmk_dev.Base.Text.{Text, codes, is_empty}
use bmk_dev.Clauses.Rows.{norm}
use bmk_dev.Clauses.Coverage.{UnitSpan, spans_loop, prose_of}

-- The text of a span stands at its start.
abbrev pub IsPlaced : Text → UnitSpan → Type 0
IsPlaced prose span =
    (before : Text) × (after : Text) × (prose ≡ before ++ (span.text ++ after))
    × (length before ≡ span.start)

-- What the spans add behind the first: a space and the text of each.
abbrev tail_of : List UnitSpan → Text
tail_of [] = []
tail_of (s ∷ spans) = codes " " ++ (s.text ++ tail_of spans)

prose_of-cons :
    (s : UnitSpan) (spans : List UnitSpan) → prose_of (s ∷ spans) ≡ s.text ++ tail_of spans
prose_of-cons s [] = sym (append-nil s.text)
prose_of-cons s (t ∷ spans) =
    append_assoc s.text (codes " ") (prose_of (t ∷ spans))
    ∙ ap (λ (r : Text). s.text ++ (codes " " ++ r)) (prose_of-cons t spans)

abbrev AllPlaced : Text → List UnitSpan → Type 0
AllPlaced prose [] = Unit
AllPlaced prose (s ∷ spans) = IsPlaced prose s × AllPlaced prose spans

-- One more unit behind a text.
cons-AllPlaced :
    (before : Text) (s : UnitSpan) (spans : List UnitSpan)
    → length before + 1 ≡ s.start
    → AllPlaced (before ++ codes " " ++ s.text ++ tail_of spans) spans
    → AllPlaced (before ++ (codes " " ++ (s.text ++ tail_of spans))) (s ∷ spans)
cons-AllPlaced before s spans h later =
    let tail = tail_of spans in
    let split = append_assoc before (codes " ") (s.text ++ tail) in
    (
      (before ++ codes " ", tail, sym split, length-append before (codes " ") ∙ h),
      subst (λ (t : Text). AllPlaced t spans)
          (append_assoc (before ++ codes " ") s.text tail ∙ split) later,
    )

tail_of-AllPlaced :
    (units : List (Text × Text)) (before : Text) (cursor : ℕ)
    → length before ≡ cursor
    → AllPlaced (before ++ tail_of (spans_loop cursor true units)) (spans_loop cursor true units)
unfolding spans_loop
tail_of-AllPlaced [] before cursor h = tt
tail_of-AllPlaced ((section, raw) ∷ units) before cursor h =
    elim (Bool-cases (is_empty (norm raw))) [
      | inl t ↦ rw (spans_loop, t) (tail_of-AllPlaced units before cursor h)
      | inr f ↦
          let n = norm raw in
          let s : UnitSpan = record { section = section; start = cursor + 1; text = n } in
          let spans = spans_loop (cursor + 1 + length n) true units in
          let long : length (before ++ codes " " ++ n) ≡ cursor + 1 + length n =
            omega
              (arith, h, length-append (before ++ codes " ") n, length-append before (codes " ")) in
          rw (spans_loop, f)
            (cons-AllPlaced before s spans (omega (arith, h))
              (tail_of-AllPlaced units (before ++ codes " " ++ n) (cursor + 1 + length n) long))
    ]

spans-AllPlaced :
    (units : List (Text × Text))
    → AllPlaced (prose_of (spans_loop 0 false units)) (spans_loop 0 false units)
unfolding spans_loop
spans-AllPlaced [] = tt
spans-AllPlaced ((section, raw) ∷ units) = elim (Bool-cases (is_empty (norm raw))) [
  | inl t ↦ rw (spans_loop, t) (spans-AllPlaced units)
  | inr f ↦
      let n = norm raw in
      let s : UnitSpan = record { section = section; start = 0; text = n } in
      let spans = spans_loop (0 + length n) true units in
      rw (spans_loop, f)
        (subst (λ (t : Text). AllPlaced t (s ∷ spans)) (sym (prose_of-cons s spans))
          (([], tail_of spans, refl, refl), tail_of-AllPlaced units n (0 + length n) (omega arith)))
]

AllPlaced-get :
    (prose : Text) (spans : List UnitSpan) (i : ℕ) (s : UnitSpan)
    → AllPlaced prose spans
    → get_elem? spans i ≡ some s
    → IsPlaced prose s
AllPlaced-get prose [] i s h e = absurd (none-ne-some s e)
AllPlaced-get prose (t ∷ spans) zero s (here, later) e =
    subst (λ (x : UnitSpan). IsPlaced prose x) (some-injective t s e) here
AllPlaced-get prose (t ∷ spans) (suc i) s (here, later) e = AllPlaced-get prose spans i s later e

-- Every span of the units of a specification has its text at its start in the joined prose.
pub spans_loop-IsPlaced :
    (units : List (Text × Text)) (i : ℕ) (span : UnitSpan)
    → get_elem? (spans_loop 0 false units) i ≡ some span
    → IsPlaced (prose_of (spans_loop 0 false units)) span
spans_loop-IsPlaced units i span h =
    AllPlaced-get (prose_of (spans_loop 0 false units)) (spans_loop 0 false units) i span
      (spans-AllPlaced units) h
