-- ===== src/Sandbox/Score/GoTask.antt =====
-- The score of a Go task whose oracle is flat: the keys of its tests carry the name of the package, and
-- the passes of a suite are looked for under the name of the suite.
use bmk_dev.Base.{
  ℕ, false, Option, some, List, [], ◌∷◌, ◌++◌, ◌≡◌, ◌≢◌, refl, contains, list_eq, nat_eq, arith, Eq,
}
use mathlib.Core.Option.{or_else}
use bmk_dev.Base.Text.{Text, codes}
use bmk_dev.Base.Floats.{Floats}
use bmk_dev.Base.Dict.{Dict}
use bmk_dev.Runners.{Runner}
use bmk_dev.Runners.Go.{GoHost, Root, FlatState, go_runner, function_of, package_of}
use bmk_dev.Runners.GoEvents.{Event}
use bmk_dev.Runners.Go.Flat.{IsFlat}
use bmk_dev.Runners.Go.Ids.{FreeOfColons, AllNamed, discover-AllNamed, keys-refuse}
use bmk_dev.Sandbox.Gap.{suite_prefix}
use bmk_dev.Sandbox.Suite.{SuiteRun}
use bmk_dev.Sandbox.Results.{error_result, finish, passes}
use bmk_dev.Sandbox.Score.{Machine, score, get_runner, chosen_language}
use bmk_dev.Sandbox.Score.Every.{score_every, IsRunOf}
use bmk_dev.Sandbox.Score.Bounds.{passes-bound}

module _ (F : Floats) {World Host : Type 0} ⦃e : Eq Host⦄ (machine : Machine World Host)
    (host : GoHost Host) (loads : Text → Option Event) (escape repr : Text → Text)
    (s : FlatState Host) (oracle : Host) (roots : List Root) (c : ℕ) (pkg : Text)
    (flat : IsFlat host oracle roots) (named : package_of host oracle ≡ c ∷ pkg)
    (free : (source : Text) → FreeOfColons (host.test_names source))
    (no_colon : contains (c ∷ pkg) b':' ≡ false) where
  abbrev runner : Runner Host
  runner = go_runner host loads escape repr s

  no_passes :
      (suite task_id log provenance : Text) (a i : SuiteRun)
      → contains suite b':' ≡ false
      → c ∷ pkg ≢ suite
      → IsRunOf runner (runner.discover oracle (codes "atomic")) a
      → IsRunOf runner (runner.discover oracle (codes "integration")) i
      → passes F
          (suite ++ codes "::")
          (finish F runner task_id oracle
            (runner.discover oracle (codes "atomic"))
            (runner.discover oracle (codes "integration"))
            log
            provenance
            a
            i).tests
        ≡ 0
  unfolding finish go_runner
  no_passes suite task_id log provenance a i free_suite differ ka ki =
      let atomic : AllNamed (c ∷ pkg) _ =
        discover-AllNamed host free oracle roots s (codes "atomic") c pkg flat named in
      let integration : AllNamed (c ∷ pkg) _ =
        discover-AllNamed host free oracle roots s (codes "integration") c pkg flat named in
      omega (
        arith,
        passes-bound F runner task_id oracle _ _ log provenance a i ka.0 ki.0 (suite ++ codes "::")
            []
            (λ k known begins. absurd (
              ground (
                arith,
                keys-refuse c pkg suite _ no_colon free_suite differ atomic k,
                keys-refuse c pkg suite _ no_colon free_suite differ integration k,
              ))),
      )

  atomic_prefix : suite_prefix runner (codes "atomic") ≡ codes "atomic"
  unfolding suite_prefix go_runner function_of or_else
  atomic_prefix = refl

  integration_prefix : suite_prefix runner (codes "integration") ≡ codes "integration"
  unfolding suite_prefix go_runner function_of or_else
  integration_prefix = refl

  finish-no_passes :
      (task_id log provenance : Text) (a i : SuiteRun)
      → c ∷ pkg ≢ codes "atomic"
      → c ∷ pkg ≢ codes "integration"
      → IsRunOf runner (runner.discover oracle (codes "atomic")) a
      → IsRunOf runner (runner.discover oracle (codes "integration")) i
      → (let r =
            finish F runner task_id oracle
              (runner.discover oracle (codes "atomic"))
              (runner.discover oracle (codes "integration"))
              log
              provenance
              a
              i in
          (r.atomic_passed ≡ 0) × (r.integration_passed ≡ 0))
  unfolding finish
  finish-no_passes task_id log provenance a i not_atomic not_integration ka ki = (
    rw atomic_prefix (
        no_passes (codes "atomic") task_id log provenance a i (unfold nat_eq in refl) not_atomic ka
          ki),
    rw integration_prefix (
        no_passes (codes "integration") task_id log provenance a i (unfold nat_eq in refl)
          not_integration ka ki),
  )

  -- Where the oracle is flat, the name of its package is no suite's and holds no colon, and the
  -- pattern of a test function finds names without a colon, no score by the Go runner has a pass, in
  -- whatever state the runner is and whatever the candidate's tests report.
  pub score-flat_without_passes :
      (registry : Dict Text (Runner Host)) (task_language : Text → Option Text)
      (image : Option Text) (cid task_id : Text) (workspace : Host) (extra : Option Host)
      (language : Option Text) (w : World)
      → get_runner registry (chosen_language (task_language task_id) language) ≡ some runner
      → c ∷ pkg ≢ codes "atomic"
      → c ∷ pkg ≢ codes "integration"
      → (let r =
            (score F machine registry task_language image cid task_id workspace oracle extra
              language w).0 in
          (r.atomic_passed ≡ 0) × (r.integration_passed ≡ 0))
  unfolding error_result
  score-flat_without_passes registry task_language image cid task_id workspace extra language w h
        not_atomic not_integration =
      score_every F machine runner cid task_id oracle
        (λ r. (r.atomic_passed ≡ 0) × (r.integration_passed ≡ 0))
        (λ why log provenance. (refl, refl))
        (λ log provenance a i ka ki.
          finish-no_passes task_id log provenance a i not_atomic not_integration ka ki)
        registry task_language image workspace extra language w h
