-- ===== src/Sandbox/Gap/Cascade.antt =====
-- The cascade filter: what the two counters count, their bounds, and that an integration test
-- whose atomic prerequisites do not all pass has no influence on the gap.
use bmk_dev.Base.{
  ℕ, zero, suc, ◌+◌, ◌<◌, ◌≤◌, Bool, true, ◌&&◌, none, some, List, [], ◌∷◌, ◌≡◌, refl, ◌∙◌, arith,
  all, list_eq, nat_eq, string_eq, option_eq, length, count_if, sym,
}
use bmk_dev.Base.Text.{Text, codes}
use bmk_dev.Base.Dict.{
  Dict, lookup, lookup-cons, lookup-erase, erase, has_key, length-erase, NodupKeys,
}
use bmk_dev.Base.Floats.{Floats}
use bmk_dev.Runners.{Runner}
use bmk_dev.Sandbox.Outcomes.{Outcomes}
use bmk_dev.Sandbox.Gap.{
  Index, Gap, passed, all_known, eligible_loop, gap_of_counts, gap_of_indexes, suite_prefix,
  suite_outcomes_by_name, compute_adjusted_gap,
}

abbrev pub Deps : Type 0
Deps = Dict Text (List Text)

-- An integration test with an outcome, all of whose prerequisites passed.
abbrev pub is_eligible : Outcomes → Outcomes → Text × List Text → Bool
is_eligible atomic integration (f, deps) = has_key integration f && all (passed atomic) deps

abbrev pub is_eligible_pass : Outcomes → Outcomes → Text × List Text → Bool
is_eligible_pass atomic integration (f, deps) =
    is_eligible atomic integration (f, deps) && passed integration f

module _ (atomic integration : Outcomes) where
  eligible_loop-eq-counts :
      (deps_map : Deps) (p t : ℕ)
      → eligible_loop atomic integration deps_map p t ≡ (
        p + count_if (is_eligible_pass atomic integration) deps_map,
        t + count_if (is_eligible atomic integration) deps_map,
      )
  unfolding eligible_loop
  eligible_loop-eq-counts [] p t = ground arith
  eligible_loop-eq-counts ((f, deps) ∷ deps_map) p t =
      eligible_loop-eq-counts deps_map _ _ ∙ ground arith

-- Keys that are there are no more than the entries.
count_erase :
    (k : Text) (m : Outcomes) (d : Deps)
    → lookup k d ≡ none
    → count_if (λ (e : Text × List Text). has_key m e.0) d
      ≡ count_if (λ (e : Text × List Text). has_key (erase k m) e.0) d
count_erase k m [] h = refl
count_erase k m ((j, v) ∷ d) h =
    ground (arith, lookup-cons k j v d, lookup-erase j k m, count_erase k m d)

count-le-length :
    (d : Deps) (m : Outcomes)
    → NodupKeys d
    → count_if (λ (e : Text × List Text). has_key m e.0) d ≤ length m
count-le-length [] m u = omega arith
count-le-length ((k, v) ∷ d) m (fresh, u) = ground (
  arith,
  count_erase k m d fresh,
  count-le-length d (erase k m) u,
  count-le-length d m u,
  length-erase k m,
)

module _ (atomic integration : Outcomes) where
  passes-le-eligible :
      (d : Deps)
      → count_if (is_eligible_pass atomic integration) d
        ≤ count_if (is_eligible atomic integration) d
  passes-le-eligible [] = omega arith
  passes-le-eligible ((f, deps) ∷ d) = ground (arith, passes-le-eligible d)

  eligible-le-present :
      (d : Deps)
      → count_if (is_eligible atomic integration) d
        ≤ count_if (λ (e : Text × List Text). has_key integration e.0) d
  eligible-le-present [] = omega arith
  eligible-le-present ((f, deps) ∷ d) = ground (arith, eligible-le-present d)

-- Two indexes of the integration suite have the same names, and the same passes where it counts:
-- at the tests whose prerequisites all passed.
abbrev pub SameWhereEligible : Outcomes → Outcomes → Outcomes → Deps → Type 0
SameWhereEligible atomic integration integration' [] = Unit
SameWhereEligible atomic integration integration' ((f, deps) ∷ d) =
    (has_key integration f ≡ has_key integration' f)
    × (all (passed atomic) deps ≡ true → passed integration f ≡ passed integration' f)
    × SameWhereEligible atomic integration integration' d

module _ (atomic i i' : Outcomes) where
  counts-same :
      (d : Deps)
      → SameWhereEligible atomic i i' d
      → (count_if (is_eligible_pass atomic i) d ≡ count_if (is_eligible_pass atomic i') d)
        × (count_if (is_eligible atomic i) d ≡ count_if (is_eligible atomic i') d)
  counts-same [] h = (refl, refl)
  counts-same ((f, deps) ∷ d) h = ground (arith, counts-same d h.2)

  eligible_loop-same :
      (d : Deps)
      → SameWhereEligible atomic i i' d
      → eligible_loop atomic i d 0 0 ≡ eligible_loop atomic i' d 0 0
  eligible_loop-same d h =
      let same = counts-same d h in
      eligible_loop-eq-counts atomic i d 0 0
      ∙ rw (same.0, same.1) (sym (eligible_loop-eq-counts atomic i' d 0 0))

-- What a gap `r` with the value `g` rests on.
abbrev pub IsEvidence : (F : Floats) → Deps → Index → Index → Gap F → F.Float → Type 0
IsEvidence F d a i r g =
    (a.ambiguous ≡ [])
    × (i.ambiguous ≡ [])
    × (all_known a.outcomes d ≡ true)
    × (r.adj_passed ≡ count_if (is_eligible_pass a.outcomes i.outcomes) d)
    × (r.adj_total ≡ count_if (is_eligible a.outcomes i.outcomes) d)
    × (0 < r.adj_total)
    × (r.adj_passed ≤ r.adj_total)
    × (r.adj_total ≤ length i.outcomes)
    × (g ≡ F.round4 (F.sub (F.ratio 1 1) (F.ratio r.adj_passed r.adj_total)))

module _ (F : Floats) (rate : F.Float) where
  counts-IsEvidence :
      (d : Deps) (n : ℕ) (c : ℕ × ℕ) (g : F.Float)
      → (gap_of_counts F rate (length d) n c).adjusted_gap ≡ some g
      → (let r = gap_of_counts F rate (length d) n c in
          (r.adj_passed ≡ c.0)
          × (r.adj_total ≡ c.1)
          × (0 < c.1)
          × (g ≡ F.round4 (F.sub (F.ratio 1 1) (F.ratio c.0 c.1))))
  unfolding gap_of_counts
  counts-IsEvidence d n (p, zero) g h = ground arith
  counts-IsEvidence d n (p, suc t) g h = ground arith

  gap_of_indexes-IsEvidence :
      (d : Deps) (a i : Index) (g : F.Float)
      → NodupKeys d
      → (gap_of_indexes F rate d a i).adjusted_gap ≡ some g
      → IsEvidence F d a i (gap_of_indexes F rate d a i) g
  unfolding gap_of_indexes
  gap_of_indexes-IsEvidence d a i g u h = ground (
    arith,
    counts-IsEvidence d (length i.outcomes) (eligible_loop a.outcomes i.outcomes d 0 0) g,
    eligible_loop-eq-counts a.outcomes i.outcomes d 0 0,
    passes-le-eligible a.outcomes i.outcomes d,
    eligible-le-present a.outcomes i.outcomes d,
    count-le-length d i.outcomes u,
  )

module _ (F : Floats) {Host : Type 0} (oracle : Host) (runner : Runner Host) (rate : F.Float) where
  abbrev atomic_index : Outcomes → Index
  atomic_index tests = suite_outcomes_by_name tests (suite_prefix runner (codes "atomic"))

  abbrev integration_index : Outcomes → Index
  integration_index tests = suite_outcomes_by_name tests (suite_prefix runner (codes "integration"))

  -- Two runs that agree on the atomic suite, on the names of the integration suite and on the
  -- passes of those integration tests whose prerequisites all passed have the same gap, with its
  -- counts, its rate and its confidence: what a broken primitive drags down is filtered out.
  pub compute_adjusted_gap-cascade :
      (tests tests' : Outcomes)
      → atomic_index tests ≡ atomic_index tests'
      → (integration_index tests).ambiguous ≡ (integration_index tests').ambiguous
      → length (integration_index tests).outcomes ≡ length (integration_index tests').outcomes
      → SameWhereEligible
          (atomic_index tests).outcomes
          (integration_index tests).outcomes
          (integration_index tests').outcomes
          (runner.dependencies oracle)
      → compute_adjusted_gap F oracle tests rate runner
        ≡ compute_adjusted_gap F oracle tests' rate runner
  unfolding compute_adjusted_gap gap_of_indexes
  compute_adjusted_gap-cascade tests tests' same_atomic same_ambiguous same_length same = rw (
    same_atomic,
    same_ambiguous,
    same_length,
    eligible_loop-same (atomic_index tests').outcomes (integration_index tests).outcomes
        (integration_index tests').outcomes (runner.dependencies oracle) (rw same_atomic at same),
  )

  -- A gap comes with its evidence: no name is ambiguous, every named prerequisite has an outcome,
  -- and the counters are those of the tests that are eligible. There is at least one, no more than
  -- the functions of the integration suite, and at most as many passes.
  pub compute_adjusted_gap-IsEvidence :
      (tests : Outcomes) {g : F.Float}
      → NodupKeys (runner.dependencies oracle)
      → (compute_adjusted_gap F oracle tests rate runner).adjusted_gap ≡ some g
      → IsEvidence F
          (runner.dependencies oracle)
          (atomic_index tests)
          (integration_index tests)
          (compute_adjusted_gap F oracle tests rate runner)
          g
  unfolding compute_adjusted_gap
  compute_adjusted_gap-IsEvidence tests {g} u h =
      gap_of_indexes-IsEvidence F rate (runner.dependencies oracle) (atomic_index tests)
        (integration_index tests) g u h
