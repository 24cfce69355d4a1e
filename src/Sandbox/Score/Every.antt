-- ===== src/Sandbox/Score/Every.antt =====
-- What holds of a score by a runner, whatever the container did: of each result of an error and of
-- each result of two suites whose keys are those of the discovered tests.
use bmk_dev.Base.{
  sum_of, length, List, [], Option, none, some, ◌≡◌, refl, contains, list_eq, nat_eq, map, arith,
}
use mathlib.Core.Path.{subst}
use bmk_dev.Base.Text.{Text, codes}
use bmk_dev.Base.Floats.{Floats}
use bmk_dev.Base.Dict.{Dict, has_key}
use bmk_dev.Runners.{Runner}
use bmk_dev.Sandbox.Docker.{Result, ok, raised, timeout_expired, pure}
use bmk_dev.Sandbox.Docker.Laws.{>>=-eq-ok}
use bmk_dev.Sandbox.Provenance.{Provenance}
use bmk_dev.Sandbox.Suite.{SuiteRun, BatchLog}
use bmk_dev.Sandbox.Suite.Denominator.{run_suite-denominator}
use bmk_dev.Sandbox.Results.{
  Failure, bad_provenance, timed_out, failed, ScoringResult, error_result, finish,
}
use bmk_dev.Sandbox.Score.{
  Machine, caught, run_suites, audited, run_in_container, run_and_clean, score, score_with,
  get_runner, chosen_language,
}

-- The tests of the suite are the keys of its run, and its batches are together as large as it.
abbrev pub IsRunOf : {Host : Type 0} → Runner Host → List Text → SuiteRun → Type 0
IsRunOf runner ids s =
    ((k : Text) → has_key s.tests k ≡ contains (map runner.function_of ids) k)
    × (sum_of (λ (b : BatchLog). b.size) s.batches ≡ length ids)

module _ (F : Floats) {World Host : Type 0} (machine : Machine World Host) (runner : Runner Host)
    (cid task_id : Text) (oracle : Host) (P : ScoringResult F → Type 0)
    (of_error : (why : Failure) (log provenance : Text)
      → P (record (error_result F task_id why) { install_log = log; provenance_log = provenance }))
    (of_suites : (log provenance : Text) (a i : SuiteRun)
      → IsRunOf runner (runner.discover oracle (codes "atomic")) a
      → IsRunOf runner (runner.discover oracle (codes "integration")) i
      → P (
          finish F runner task_id oracle
            (runner.discover oracle (codes "atomic"))
            (runner.discover oracle (codes "integration"))
            log
            provenance
            a
            i)) where
  plain_error : (why : Failure) → P (error_result F task_id why)
  unfolding error_result
  plain_error why = of_error why [] []

  run_suites_every :
      (log provenance : Text) (w : World) (r : ScoringResult F)
      → (run_suites F machine runner cid task_id oracle
          (runner.discover oracle (codes "atomic"))
          (runner.discover oracle (codes "integration"))
          log
          provenance
          w).0
        ≡ ok r
      → P r
  unfolding run_suites pure
  run_suites_every log provenance w r h =
      let (a, run_a, h') = >>=-eq-ok _ _ w r h in
      let (i, run_i, h'') = >>=-eq-ok _ _ _ r h' in
      let (ka, _, sa, _) =
        run_suite-denominator runner machine.run machine.batch_timeout cid (codes "atomic") _ w a
          run_a in
      let (ki, _, si, _) =
        run_suite-denominator runner machine.run machine.batch_timeout cid (codes "integration") _ _
          i run_i in
      let done : finish F runner task_id oracle (runner.discover oracle (codes "atomic"))
            (runner.discover oracle (codes "integration")) log provenance a i
          ≡ r =
        ground arith in
      subst P done (of_suites log provenance a i (ka, sa) (ki, si))

  audited_every :
      (log : Text) (audit : Text × Option Provenance) (w : World) (r : ScoringResult F)
      → (audited F machine runner cid task_id oracle
          (runner.discover oracle (codes "atomic"))
          (runner.discover oracle (codes "integration"))
          log
          audit
          w).0
        ≡ ok r
      → P r
  unfolding audited pure
  audited_every log (out, none) w r h = run_suites_every log out w r h
  audited_every log (out, some why) w r h =
      let done : record (error_result F task_id (bad_provenance why)) {
        install_log = log;
        provenance_log = out;
      }
          ≡ r =
        ground arith in
      subst P done (of_error (bad_provenance why) log out)

  run_in_container_every :
      (workspace : Host) (extra : Option Host) (image : Text) (w : World) (r : ScoringResult F)
      → (run_in_container F machine runner cid task_id oracle workspace extra image w).0 ≡ ok r
      → P r
  unfolding run_in_container
  run_in_container_every workspace extra image w r h0 =
      let (_, _, h1) = >>=-eq-ok _ _ w r h0 in
      let (_, _, h2) = >>=-eq-ok _ _ _ r h1 in
      let (_, _, h3) = >>=-eq-ok _ _ _ r h2 in
      let (_, _, h4) = >>=-eq-ok _ _ _ r h3 in
      let (log, _, h5) = >>=-eq-ok _ _ _ r h4 in
      let (_, _, h6) = >>=-eq-ok _ _ _ r h5 in
      let (audit, _, h7) = >>=-eq-ok _ _ _ r h6 in audited_every log audit _ r h7

  caught_every :
      (workspace : Host) (extra : Option Host) (image : Text) (w : World)
      (x : Result (ScoringResult F))
      → (run_in_container F machine runner cid task_id oracle workspace extra image w).0 ≡ x
      → P (caught F machine runner cid task_id oracle x)
  caught_every workspace extra image w (ok r) e = run_in_container_every workspace extra image w r e
  caught_every workspace extra image w (raised timeout_expired) e = plain_error timed_out
  caught_every workspace extra image w (raised why) e = plain_error (failed why)

  run_and_clean_every :
      (workspace : Host) (extra : Option Host) (image : Text) (w : World)
      → P (run_and_clean F machine runner cid task_id oracle workspace extra image w).0
  unfolding run_and_clean
  run_and_clean_every workspace extra image w =
      caught_every workspace extra image w
        (run_in_container F machine runner cid task_id oracle workspace extra image w).0 refl

  pub score_every :
      (registry : Dict Text (Runner Host)) (task_language : Text → Option Text)
      (image : Option Text) (workspace : Host) (extra : Option Host) (language : Option Text)
      (w : World)
      → get_runner registry (chosen_language (task_language task_id) language) ≡ some runner
      → P
          (score F machine registry task_language image cid task_id workspace oracle extra language
            w).0
  unfolding score score_with
  score_every registry task_language image workspace extra language w h =
      rw h (run_and_clean_every workspace extra _ w)
