-- ===== src/Clauses/Coverage/Gaps.antt =====
-- That no long run of uncovered characters is overlooked.
use bmk_dev.Base.{
  ℕ, suc, ◌+◌, ◌≤◌, ◌<◌, Bool, true, false, ◌&&◌, ◌||◌, List, [], ◌∷◌, ◌++◌, length, length-append,
  ◌≡◌, refl, sym, ◌∙◌, arith, ap, leb, if◌then◌else◌, any, any-append, Bool-cases, inl, inr,
}
use mathlib.Core.Bool.{true≢false}
use mathlib.Core.List.{append_assoc, append-nil, reverse, reverse-append, reverse-reverse}
use bmk_dev.Base.Text.{Text, strip, lstrip, is_space, has_text, starts_with}
use bmk_dev.Clauses.Rows.{starts_word}
use bmk_dev.Clauses.Coverage.{gaps_loop, run_loop, ended_run, UnitSpan, segment, result_of}
use bmk_dev.Clauses.Coverage.Marks.{is_covered}

-- White space stands at neither end, and the text is not empty.
abbrev pub is_solid : Text → Bool
is_solid s = starts_word s && starts_word (reverse s)

lstrip-keeps :
    (a x : Text) → starts_word x ≡ true → (before : Text) × (lstrip (a ++ x) ≡ before ++ x)
lstrip-keeps [] [] h = absurd (true≢false (sym h))
lstrip-keeps [] (c ∷ s) h = ([], ground arith)
lstrip-keeps (c ∷ a) x h = elim (Bool-cases (is_space c)) [
  | inl t ↦ let (before, e) = lstrip-keeps a x h in (before, rw (lstrip, t) e)
  | inr f ↦ (c ∷ a, rw (lstrip, f) refl)
]

starts_word-append : (s t : Text) → starts_word s ≡ true → starts_word (s ++ t) ≡ true
starts_word-append [] t h = absurd (true≢false (sym h))
starts_word-append (c ∷ s) t h = h

-- Stripping takes nothing of a solid part.
strip-keeps :
    (a frag b : Text)
    → is_solid frag ≡ true
    → (before : Text) × (behind : Text) × (strip (a ++ (frag ++ b)) ≡ before ++ (frag ++ behind))
strip-keeps a frag b h =
    let (before, e) = lstrip-keeps a (frag ++ b) (starts_word-append frag b (ground arith)) in
    let back = reverse frag ++ reverse before in
    let (kept, e') =
      lstrip-keeps (reverse b) back
        (starts_word-append (reverse frag) (reverse before) (ground arith)) in
    let turned : reverse (lstrip (a ++ (frag ++ b))) ≡ reverse b ++ back =
      ap (λ (t : Text). reverse t) e
      ∙ reverse-append before (frag ++ b)
      ∙ ap (λ (t : Text). t ++ reverse before) (reverse-append frag b)
      ∙ append_assoc (reverse b) (reverse frag) (reverse before) in
    (
      before,
      reverse kept,
      ap (λ (t : Text). reverse (lstrip t)) turned
          ∙ ap (λ (t : Text). reverse t) e'
          ∙ reverse-append kept back
          ∙ ap (λ (t : Text). t ++ reverse kept)
              (reverse-append (reverse frag) (reverse before)
                ∙ rw (reverse-reverse before, reverse-reverse frag) refl)
          ∙ append_assoc before frag (reverse kept),
    )

starts_with-append : (p b : Text) → starts_with (p ++ b) p ≡ true
starts_with-append [] b = refl
starts_with-append (c ∷ p) b = ground (arith, starts_with-append p b)

has_text-append : (a p b : Text) → has_text p (a ++ (p ++ b)) ≡ true
has_text-append [] [] [] = refl
has_text-append [] [] (c ∷ b) = refl
has_text-append [] (c ∷ p) b = rw (has_text, starts_with-append (c ∷ p) b) refl
has_text-append (c ∷ a) p b = ground (arith, has_text-append a p b)

or_true : (b : Bool) → (b || true) ≡ true
or_true true = refl
or_true false = refl

module _ (min_run : ℕ) (frag : Text) (solid : is_solid frag ≡ true)
    (long : min_run ≤ length frag) where
  abbrev is_reported : List Text → Bool
  is_reported = any (has_text frag)

  reported_if :
      (x : Text)
      → has_text frag x ≡ true
      → min_run ≤ length x
      → is_reported (if leb min_run (length x) then x ∷ [] else []) ≡ true
  reported_if x h l = ground arith

  ended_run-reports : (a b : Text) → is_reported (ended_run min_run (a ++ (frag ++ b))) ≡ true
  ended_run-reports a b =
      let (before, behind, e) = strip-keeps a frag b solid in
      let found : has_text frag (strip (a ++ (frag ++ b))) ≡ true =
        ap (λ (t : Text). has_text frag t) e ∙ has_text-append before frag behind in
      let kept : length (strip (a ++ (frag ++ b))) ≡ length (before ++ (frag ++ behind)) =
        ap (λ (t : Text). length t) e in
      let enough : min_run ≤ length (strip (a ++ (frag ++ b))) =
        omega
          (arith, kept, length-append before (frag ++ behind), length-append frag behind, long) in
      reported_if (strip (a ++ (frag ++ b))) found enough

  -- The run that has the part in it ends at some place.
  run_loop-reports :
      (a b run : Text) (seg : List Bool) (n : Text)
      → run ≡ a ++ (frag ++ b)
      → is_reported (run_loop min_run run seg n) ≡ true
  unfolding run_loop
  run_loop-reports a b run [] n h = rw h (ended_run-reports a b)
  run_loop-reports a b run (true ∷ seg) [] h = rw h (ended_run-reports a b)
  run_loop-reports a b run (false ∷ seg) [] h = rw h (ended_run-reports a b)
  run_loop-reports a b run (true ∷ seg) (c ∷ n) h =
      any-append (has_text frag) (ended_run min_run run) (gaps_loop min_run seg n)
      ∙ rw (ap (λ (r : Text). is_reported (ended_run min_run r)) h ∙ ended_run-reports a b) refl
  run_loop-reports a b run (false ∷ seg) (c ∷ n) h =
      run_loop-reports a (b ++ (c ∷ [])) (run ++ (c ∷ [])) seg n (
        ap (λ (r : Text). r ++ (c ∷ [])) h
        ∙ append_assoc a (frag ++ b) (c ∷ [])
        ∙ ap (λ (r : Text). a ++ r) (append_assoc frag b (c ∷ [])))

  -- The positions of the part are not covered.
  abbrev pub Uncovered : ℕ → ℕ → List Bool → Type 0
  Uncovered i k seg = (j : ℕ) → i ≤ j → j < i + k → is_covered seg j ≡ false

  run_loop-collects :
      (a run todo post : Text) (seg : List Bool)
      → run ++ todo ≡ a ++ frag
      → length seg ≡ length (todo ++ post)
      → Uncovered 0 (length todo) seg
      → is_reported (run_loop min_run run seg (todo ++ post)) ≡ true
  unfolding run_loop is_covered
  run_loop-collects a run [] post seg h same bare =
      run_loop-reports a [] run seg post
        (sym (append-nil run) ∙ h ∙ ap (λ (t : Text). a ++ t) (sym (append-nil frag)))
  run_loop-collects a run (c ∷ todo) post [] h same bare = absurd (omega (arith, same))
  run_loop-collects a run (c ∷ todo) post (true ∷ seg) h same bare =
      absurd (true≢false (bare 0 (omega arith) (omega arith)))
  run_loop-collects a run (c ∷ todo) post (false ∷ seg) h same bare =
      run_loop-collects a (run ++ (c ∷ [])) todo post seg (append_assoc run (c ∷ []) todo ∙ h)
        (omega (arith, same)) (λ j l u. bare (suc j) (omega arith) (omega (arith, u)))

  gaps_loop-starts :
      (f post : Text) (seg : List Bool)
      → frag ≡ f
      → length seg ≡ length (f ++ post)
      → Uncovered 0 (length f) seg
      → is_reported (gaps_loop min_run seg (f ++ post)) ≡ true
  unfolding gaps_loop is_covered
  gaps_loop-starts [] post seg e same bare =
      absurd (true≢false (sym solid ∙ ap (λ (t : Text). is_solid t) e))
  gaps_loop-starts (c ∷ f) post [] e same bare = absurd (omega (arith, same))
  gaps_loop-starts (c ∷ f) post (true ∷ seg) e same bare =
      absurd (true≢false (bare 0 (omega arith) (omega arith)))
  gaps_loop-starts (c ∷ f) post (false ∷ seg) e same bare =
      run_loop-collects [] (c ∷ []) f post seg (sym e) (omega (arith, same))
        (λ j l u. bare (suc j) (omega arith) (omega (arith, u)))

  mutual
    unfolding run_loop gaps_loop is_covered

    gaps_loop-finds :
        (pre post : Text) (seg : List Bool)
        → length seg ≡ length (pre ++ (frag ++ post))
        → Uncovered (length pre) (length frag) seg
        → is_reported (gaps_loop min_run seg (pre ++ (frag ++ post))) ≡ true
    gaps_loop-finds [] post seg same bare = gaps_loop-starts frag post seg refl same bare
    gaps_loop-finds (c ∷ pre) post [] same bare = absurd (omega (arith, same))
    gaps_loop-finds (c ∷ pre) post (true ∷ seg) same bare =
        gaps_loop-finds pre post seg (omega (arith, same))
          (λ j l u. bare (suc j) (omega (arith, l)) (omega (arith, u)))
    gaps_loop-finds (c ∷ pre) post (false ∷ seg) same bare =
        run_loop-finds (c ∷ []) pre post seg (omega (arith, same))
          (λ j l u. bare (suc j) (omega (arith, l)) (omega (arith, u)))

    run_loop-finds :
        (run pre post : Text) (seg : List Bool)
        → length seg ≡ length (pre ++ (frag ++ post))
        → Uncovered (length pre) (length frag) seg
        → is_reported (run_loop min_run run seg (pre ++ (frag ++ post))) ≡ true
    run_loop-finds run [] post seg same bare =
        run_loop-collects run run frag post seg refl same bare
    run_loop-finds run (c ∷ pre) post [] same bare = absurd (omega (arith, same))
    run_loop-finds run (c ∷ pre) post (true ∷ seg) same bare =
        any-append (has_text frag) (ended_run min_run run)
          (gaps_loop min_run seg (pre ++ (frag ++ post)))
        ∙ rw
            (gaps_loop-finds pre post seg (omega (arith, same))
              (λ j l u. bare (suc j) (omega (arith, l)) (omega (arith, u))))
            (or_true (is_reported (ended_run min_run run)))
    run_loop-finds run (c ∷ pre) post (false ∷ seg) same bare =
        run_loop-finds (run ++ (c ∷ [])) pre post seg (omega (arith, same))
          (λ j l u. bare (suc j) (omega (arith, l)) (omega (arith, u)))

-- A run of uncovered characters of a unit, as long as the least run that is reported and with no
-- white space at its ends, stands in one of the gaps of the unit; the segment of the unit is as long
-- as its text.
pub result_of-reports :
    (min_run : ℕ) (covered : List Bool) (span : UnitSpan) (pre frag post : Text)
    → span.text ≡ pre ++ (frag ++ post)
    → length (segment covered span) ≡ length span.text
    → is_solid frag ≡ true
    → min_run ≤ length frag
    → ((j : ℕ)
        → length pre ≤ j
        → j < length pre + length frag
        → is_covered (segment covered span) j ≡ false)
    → any (has_text frag) (result_of min_run covered span).gaps ≡ true
result_of-reports min_run covered span pre frag post text same solid long bare =
    ap (λ (t : Text). any (has_text frag) (gaps_loop min_run (segment covered span) t)) text
    ∙ gaps_loop-finds min_run frag solid long pre post (segment covered span)
        (same ∙ ap (λ (t : Text). length t) text) bare
