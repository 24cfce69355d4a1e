-- ===== src/Clauses/Coverage/Reports.antt =====
-- That what no clause quotes is reported.
use bmk_dev.Base.{
  ℕ, zero, suc, ◌+◌, ◌-◌, ◌≤◌, ◌<◌, Bool, true, false, some, List, [], ◌∷◌, ◌++◌, length, take,
  drop, any, length-append, length-take-le, length-drop, ◌≡◌, refl, ◌∙◌, arith, ap, Bool-cases, inl,
  inr, get_elem?,
}
use mathlib.Core.Path.{subst}
use bmk_dev.Base.Text.{Text, has_text}
use bmk_dev.Clauses.Coverage.{UnitSpan, spans_loop, prose_of, cover, segment, result_of}
use bmk_dev.Clauses.Coverage.Marks.{is_covered}
use bmk_dev.Clauses.Coverage.Exact.{InQuote, cover-exact, cover-length}
use bmk_dev.Clauses.Coverage.Gaps.{is_solid, result_of-reports}
use bmk_dev.Clauses.Coverage.Placed.{spans_loop-IsPlaced}

is_covered-take :
    (n : ℕ) (bs : List Bool) (k : ℕ) → k < n → is_covered (take n bs) k ≡ is_covered bs k
unfolding is_covered
is_covered-take zero bs k h = absurd (omega arith)
is_covered-take (suc n) [] k h = refl
is_covered-take (suc n) (b ∷ bs) zero h = refl
is_covered-take (suc n) (b ∷ bs) (suc k) h = is_covered-take n bs k (omega arith)

pub is_covered-drop :
    (i : ℕ) (bs : List Bool) (k : ℕ) → is_covered (drop i bs) k ≡ is_covered bs (i + k)
unfolding is_covered
is_covered-drop zero bs k =
    let same : k ≡ 0 + k = omega arith in ap (λ (j : ℕ). is_covered bs j) same
is_covered-drop (suc i) [] k = refl
is_covered-drop (suc i) (b ∷ bs) k =
    let same : suc (i + k) ≡ suc i + k = omega arith in
    is_covered-drop i bs k ∙ ap (λ (j : ℕ). is_covered (b ∷ bs) j) same

not_quoted :
    (prose : Text) (quotes : List Text) (k : ℕ)
    → ¬ InQuote prose quotes k
    → is_covered (cover prose quotes) k ≡ false
not_quoted prose quotes k h = elim (Bool-cases (is_covered (cover prose quotes) k)) [
  | inl t ↦ absurd (h ((cover-exact prose quotes k).0 t))
  | inr f ↦ f
]

-- A part of a unit that no character shares with an occurrence of a quote is reported: it stands in
-- one of the gaps of the unit, where it is at least as long as the least run and has no white space
-- at its ends.
pub results-report :
    (units : List (Text × Text)) (quotes : List Text) (min_run i : ℕ) (span : UnitSpan)
    (pre frag post : Text)
    → get_elem? (spans_loop 0 false units) i ≡ some span
    → span.text ≡ pre ++ (frag ++ post)
    → is_solid frag ≡ true
    → min_run ≤ length frag
    → ((j : ℕ)
        → j < length frag
        → ¬ InQuote (prose_of (spans_loop 0 false units)) quotes (span.start + (length pre + j)))
    → any
        (has_text frag)
        (result_of min_run (cover (prose_of (spans_loop 0 false units)) quotes) span).gaps
      ≡ true
results-report units quotes min_run i span pre frag post at text solid long bare =
    let prose = prose_of (spans_loop 0 false units) in
    let covered = cover prose quotes in
    let (before, after, whole, start) = spans_loop-IsPlaced units i span at in
    let sizes : length prose ≡ length before + (length span.text + length after) = omega (
      arith,
      ap (λ (t : Text). length t) whole,
      length-append before (span.text ++ after),
      length-append span.text after,
    ) in
    let fits : length span.text ≤ length (drop span.start covered) =
      omega (arith, length-drop span.start covered, cover-length prose quotes, sizes, start) in
    let parts : length span.text ≡ length pre + (length frag + length post) = omega (
      arith,
      ap (λ (t : Text). length t) text,
      length-append pre (frag ++ post),
      length-append frag post,
    ) in
    let open_at : (j : ℕ)
        → length pre ≤ j
        → j < length pre + length frag
        → is_covered (segment covered span) j ≡ false =
      λ j l u.
        let here : length pre + (j - length pre) ≡ j = omega arith in
        is_covered-take (length span.text) (drop span.start covered) j (omega (arith, u, parts))
        ∙ is_covered-drop span.start covered j
        ∙ subst (λ (k : ℕ). is_covered covered (span.start + k) ≡ false) here
            (not_quoted prose quotes (span.start + (length pre + (j - length pre)))
              (bare (j - length pre) (omega (arith, l, u)))) in
    result_of-reports min_run covered span pre frag post text
      (length-take-le (length span.text) (drop span.start covered) fits) solid long open_at
