-- ===== src/Sandbox/Suite/Parts.antt =====
-- The division of a suite into batches: the offset and the size that each of them is recorded with.
use mathlib.Core.List.{map-append, append_assoc, append-nil}
use bmk_dev.Base.{
  ℕ, zero, suc, ◌+◌, ◌-◌, Option, none, some, List, [], ◌∷◌, ◌++◌, ◌≡◌, refl, sym, ap, ◌∙◌, arith,
  length, length-drop, take, drop, map, drop-add, leb, if◌then◌else◌,
}
use bmk_dev.Base.Int.{ℤ}
use bmk_dev.Base.Text.{Text}
use bmk_dev.Runners.{Runner}
use bmk_dev.Sandbox.Outcomes.{Outcomes}
use bmk_dev.Sandbox.Outcomes.Laws.{aggregate_total}
use bmk_dev.Sandbox.Docker.{Process, ok, pure, raise}
use bmk_dev.Sandbox.Docker.Laws.{>>=-eq-ok}
use bmk_dev.Sandbox.Suite.{
  SuiteRun, BatchLog, score_batch_size, settle, settled, run_batch, batch_loop,
}

-- The offsets and the sizes of so many parts of `n` tests, from an offset on.
abbrev pub parts : ℕ → ℕ → ℕ → List (ℕ × ℕ)
parts offset zero n = []
parts offset (suc rounds) n =
    (offset, if leb 25 n then 25 else n) ∷ parts (offset + 25) rounds (n - 25)

abbrev pub part_of : BatchLog → ℕ × ℕ
part_of b = (b.offset, b.size)

length-take :
    {A : Type 0} (n : ℕ) (xs : List A)
    → length (take n xs) ≡ (if leb n (length xs) then n else length xs)
length-take zero xs = ground arith
length-take (suc n) [] = ground arith
length-take (suc n) (x ∷ xs) = ground (arith, length-take n xs)

module _ {Host : Type 0} (runner : Runner Host) where
  -- With and without a usable report, a batch is recorded once.
  settle-part :
      (suite : Text) (bi : ℕ) (batch : List Text) (rc : ℤ) (outcomes : Option Outcomes)
      (s : SuiteRun)
      → (s' : SuiteRun) × (settle runner suite bi batch rc outcomes s ≡ some s')
        × (map part_of s'.batches ≡ map part_of s.batches ++ ((bi, length batch) ∷ []))
  unfolding settle
  settle-part suite bi batch rc none s = (_, refl, map-append part_of s.batches _)
  settle-part suite bi batch rc (some outcomes) s =
      let (per_fn, done) = aggregate_total runner.function_of outcomes in
      rw (done, settle) (_, refl, map-append part_of s.batches _)

  module _ {World : Type 0} (run : Process World) (timeout : ℕ) (cid suite : Text) where
    settled-part :
        (bi : ℕ) (batch : List Text) (rc : ℤ) (outcomes : Option Outcomes) (s s' : SuiteRun)
        (w : World)
        → (settled (settle runner suite bi batch rc outcomes s) w).0 ≡ ok s'
        → map part_of s'.batches ≡ map part_of s.batches ++ ((bi, length batch) ∷ [])
    unfolding settled pure raise
    settled-part bi batch rc outcomes s s' w h =
        let (s'', e, recorded) = settle-part suite bi batch rc outcomes s in
        let same : s'' ≡ s' = ground arith in
        ap (λ (x : SuiteRun). map part_of x.batches) (sym same) ∙ recorded

    run_batch-part :
        (bi : ℕ) (batch : List Text) (s s' : SuiteRun) (w : World)
        → (run_batch runner run timeout cid suite bi batch s w).0 ≡ ok s'
        → map part_of s'.batches ≡ map part_of s.batches ++ ((bi, length batch) ∷ [])
    unfolding run_batch
    run_batch-part bi batch s s' w h =
        let (out, _, h') = >>=-eq-ok _ _ w s' h in
        let (rc, _, h'') = >>=-eq-ok _ _ _ s' h' in
        let (text, _, h''') = >>=-eq-ok _ _ _ s' h'' in
        let (outcomes, _, h'''') = >>=-eq-ok _ _ _ s' h''' in settled-part bi batch _ _ _ s' _ h''''

    -- Each round of the loop records one part.
    pub batch_loop-parts :
        (rounds bi : ℕ) (ids : List Text) (s s' : SuiteRun) (w : World)
        → (batch_loop runner run timeout cid suite rounds bi ids s w).0 ≡ ok s'
        → map part_of s'.batches ≡ map part_of s.batches ++ parts bi rounds (length (drop bi ids))
    unfolding batch_loop pure
    batch_loop-parts zero bi ids s s' w h =
        let same : s ≡ s' = cc in
        ap (λ (x : SuiteRun). map part_of x.batches) (sym same)
        ∙ sym (append-nil (map part_of s.batches))
    batch_loop-parts (suc rounds) bi ids s s' w h =
        let (t, one, more) = >>=-eq-ok _ _ w s' h in
        let left = drop bi ids in
        let size : length (take score_batch_size left)
            ≡ (if leb 25 (length left) then 25 else length left) =
          length-take 25 left in
        let behind : length (drop (bi + 25) ids) ≡ length left - 25 =
          ap (λ (l : List Text). length l) (drop-add bi 25 ids) ∙ length-drop 25 left in
        batch_loop-parts rounds (bi + 25) ids t s' _ more
        ∙ ap (λ (l : List (ℕ × ℕ)). l ++ parts (bi + 25) rounds (length (drop (bi + 25) ids)))
            (run_batch-part bi (take 25 left) s t w one)
        ∙ append_assoc (map part_of s.batches) _ _
        ∙ rw (size, behind) refl
