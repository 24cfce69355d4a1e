-- ===== src/Sandbox/Suite/Denominator.antt =====
-- The scoring denominator: whatever the candidate makes of its tests, a suite that was run has an
-- outcome for each of the tests that were discovered on the host, and for nothing else.
use mathlib.Core.Path.{subst}
use mathlib.Core.List.{map-append}
use bmk_dev.Base.{
  contains-append, ℕ, zero, suc, ◌+◌, ◌-◌, ◌*◌, ◌/◌, ◌||◌, Option, none, some, List, [], ◌∷◌, ◌++◌,
  String, ◌≡◌, refl, ap, ◌∙◌, arith, contains, list_eq, nat_eq, length, take, drop, map, sum_of,
  length-append, take-all, take-add, drop-add, sum_of-append,
}
use bmk_dev.Base.Int.{ℤ}
use bmk_dev.Base.Text.{Text}
use bmk_dev.Base.Dict.{lookup-insert, lookup-nil, has_key}
use bmk_dev.Runners.{Runner}
use bmk_dev.Sandbox.Outcomes.{Outcomes}
use bmk_dev.Sandbox.Outcomes.Laws.{aggregate_total}
use bmk_dev.Sandbox.Docker.{Process, ok, pure, raise}
use bmk_dev.Sandbox.Docker.Laws.{>>=-eq-ok}
use bmk_dev.Sandbox.Suite.Parts.{part_of, parts, batch_loop-parts}
use bmk_dev.Sandbox.Suite.{
  SuiteRun, BatchLog, no_run, score_batch_size, set_all, settle, settled, run_batch, batch_loop,
  run_suite,
}

module _ {Host : Type 0} (runner : Runner Host) where
  has_key-set_all :
      (o : Text → String) (batch : List Text) (tests : Outcomes) (k : Text)
      → has_key (set_all runner o batch tests) k
        ≡ (contains (map runner.function_of batch) k || has_key tests k)
  unfolding set_all
  has_key-set_all o [] tests k = refl
  has_key-set_all o (n ∷ batch) tests k =
      has_key-set_all o batch _ k
      ∙ ground (arith, lookup-insert k (runner.function_of n) (o (runner.function_of n)) tests)

  -- What a batch adds to the run: the keys of its own tests, its size, and one record.
  abbrev pub Adds : List Text → ℕ → SuiteRun → SuiteRun → Type 0
  Adds ids records s s' =
      ((k : Text)
        → has_key s'.tests k ≡ (contains (map runner.function_of ids) k || has_key s.tests k))
      × (sum_of (λ (b : BatchLog). b.size) s'.batches
          ≡ sum_of (λ (b : BatchLog). b.size) s.batches + length ids)
      × (length s'.batches ≡ length s.batches + records)

  -- With and without a usable report.
  pub settle-Adds :
      (suite : Text) (bi : ℕ) (batch : List Text) (rc : ℤ) (outcomes : Option Outcomes)
      (s : SuiteRun)
      → (s' : SuiteRun) × (settle runner suite bi batch rc outcomes s ≡ some s') × Adds batch 1 s s'
  unfolding settle
  settle-Adds suite bi batch rc none s = (
    _,
    refl,
    (
      has_key-set_all _ batch s.tests,
      omega (arith, sum_of-append {0} (λ (b : BatchLog). b.size) s.batches),
      omega (arith, length-append {0} s.batches),
    ),
  )
  settle-Adds suite bi batch rc (some outcomes) s =
      let (per_fn, done) = aggregate_total runner.function_of outcomes in
      rw (done, settle)
        (
          _,
          refl,
          (
            has_key-set_all _ batch s.tests,
            omega (arith, sum_of-append {0} (λ (b : BatchLog). b.size) s.batches),
            omega (arith, length-append {0} s.batches),
          ),
        )

  module _ {World : Type 0} (run : Process World) (timeout : ℕ) (cid suite : Text) where
    settled-Adds :
        (bi : ℕ) (batch : List Text) (rc : ℤ) (outcomes : Option Outcomes) (s s' : SuiteRun)
        (w : World)
        → (settled (settle runner suite bi batch rc outcomes s) w).0 ≡ ok s'
        → Adds batch 1 s s'
    unfolding settled pure raise
    settled-Adds bi batch rc outcomes s s' w h =
        let (s'', e, adds) = settle-Adds suite bi batch rc outcomes s in
        let same : s'' ≡ s' = ground arith in subst (λ (x : SuiteRun). Adds batch 1 s x) same adds

    run_batch-Adds :
        (bi : ℕ) (batch : List Text) (s s' : SuiteRun) (w : World)
        → (run_batch runner run timeout cid suite bi batch s w).0 ≡ ok s'
        → Adds batch 1 s s'
    unfolding run_batch
    run_batch-Adds bi batch s s' w h =
        let (out, _, h') = >>=-eq-ok _ _ w s' h in
        let (rc, _, h'') = >>=-eq-ok _ _ _ s' h' in
        let (text, _, h''') = >>=-eq-ok _ _ _ s' h'' in
        let (outcomes, _, h'''') = >>=-eq-ok _ _ _ s' h''' in settled-Adds bi batch _ _ _ s' _ h''''

    Adds-trans :
        (xs ys : List Text) (m n : ℕ) (s t u : SuiteRun)
        → Adds xs m s t
        → Adds ys n t u
        → Adds (xs ++ ys) (m + n) s u
    Adds-trans xs ys m n s t u (keys, sizes, records) (keys', sizes', records') = (
      λ k. rw (map-append, contains-append) (ground (arith, keys k, keys' k)),
      omega (arith, length-append {0} xs ys),
      omega arith,
    )

    batch_loop-Adds :
        (rounds bi : ℕ) (ids : List Text) (s s' : SuiteRun) (w : World)
        → (batch_loop runner run timeout cid suite rounds bi ids s w).0 ≡ ok s'
        → Adds (take (rounds * score_batch_size) (drop bi ids)) rounds s s'
    unfolding batch_loop pure
    batch_loop-Adds zero bi ids s s' w h =
        let same : s ≡ s' = cc in
        subst (λ (x : SuiteRun). Adds [] 0 s x) same (λ k. refl, omega arith, omega arith)
    batch_loop-Adds (suc rounds) bi ids s s' w h =
        let (t, one, more) = >>=-eq-ok _ _ w s' h in
        let chunk = take score_batch_size (drop bi ids) in
        let tail = take (rounds * score_batch_size) (drop (bi + score_batch_size) ids) in
        let first = run_batch-Adds bi chunk s t w one in
        let rest = batch_loop-Adds rounds (bi + score_batch_size) ids t s' _ more in
        let whole : take (suc rounds * score_batch_size) (drop bi ids) ≡ chunk ++ tail =
          ap (λ (n : ℕ). take n (drop bi ids)) (omega arith)
          ∙ take-add score_batch_size (rounds * score_batch_size) (drop bi ids)
          ∙ rw drop-add in
        rw whole (
          subst (λ (n : ℕ). Adds (chunk ++ tail) n s s') (omega arith)
            (Adds-trans chunk tail 1 rounds s t s' first rest))

    -- A suite that was run has an outcome for each discovered test and for nothing else, whatever
    -- the reports held; its batches are recorded with the offsets and the sizes of the parts of
    -- `score_batch_size` tests, the last of which may be smaller, and the sizes add up to the number
    -- of discovered tests.
    pub run_suite-denominator :
        (ids : List Text) (w : World) (s : SuiteRun)
        → (run_suite runner run timeout cid suite ids w).0 ≡ ok s
        → ((k : Text) → has_key s.tests k ≡ contains (map runner.function_of ids) k)
          × (map part_of s.batches
              ≡ parts 0 ((length ids + score_batch_size - 1) / score_batch_size) (length ids))
          × (sum_of (λ (b : BatchLog). b.size) s.batches ≡ length ids)
          × (length s.batches ≡ (length ids + score_batch_size - 1) / score_batch_size)
    unfolding run_suite
    run_suite-denominator ids w s h =
        let rounds = (length ids + score_batch_size - 1) / score_batch_size in
        let all_taken = take-all (rounds * score_batch_size) ids (omega arith) in
        let (keys, sizes, records) = batch_loop-Adds rounds 0 ids no_run s w h in
        (
          λ k. keys k ∙ rw all_taken (ground (arith, lookup-nil {V = String} k)),
          batch_loop-parts runner run timeout cid suite rounds 0 ids no_run s w h,
          sizes ∙ rw all_taken (omega arith),
          omega arith,
        )
