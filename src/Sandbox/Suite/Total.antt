-- ===== src/Sandbox/Suite/Total.antt =====
-- When the run of a suite returns a value.
use mathlib.Core.Option.{none-ne-some}
use bmk_dev.Base.{
  false, ◌++◌, ℕ, zero, suc, ◌+◌, ◌≡◌, refl, Option, none, some, List, [], ◌∷◌, arith, take, drop,
  ap, ◌∙◌,
}
use bmk_dev.Base.Int.{ℤ}
use bmk_dev.Base.Text.{Text, codes}
use bmk_dev.Runners.{Runner}
use bmk_dev.Sandbox.Outcomes.{Outcomes}
use bmk_dev.Sandbox.Docker.{
  Process, Exec, Exn, Result, Run, finished, expired, not_started, ok, pure, exec, output_of, ◌>>=◌,
  value_error, attribute_error,
}
use bmk_dev.Sandbox.Docker.Laws.{>>=-of-ok, AlwaysFinishes, IsFinished, exec-returns}
use bmk_dev.Sandbox.Suite.{
  exit_code, or_raise, SuiteRun, settle, settled, read_report, run_batch, batch_loop, run_suite,
  score_batch_size,
}
use bmk_dev.Sandbox.Suite.Denominator.{settle-Adds}

-- The action returns a value from this state.
abbrev pub Returns : {World A : Type 0} → Exec World A → World → Type 0
Returns {A = A} m w = (a : A) × ((m w).0 ≡ ok a)

module _ {World A B : Type 0} where
  -- After an action that returns.
  Returns-step :
      (m : Exec World A) (f : A → Exec World B) (w : World) (a : A)
      → (m w).0 ≡ ok a
      → ((w' : World) → Returns (f a) w')
      → Returns (m >>= f) w
  Returns-step m f w a e k =
      let (b, e') = k (m w).1 in (b, ap (λ (p : Result B × World). p.0) (>>=-of-ok m f w e) ∙ e')

  pub Returns-bind :
      (m : Exec World A) (f : A → Exec World B) (w : World)
      → Returns m w
      → ((a : A) (w' : World) → Returns (f a) w')
      → Returns (m >>= f) w
  Returns-bind m f w (a, e) k =
      let (b, e') = k a (m w).1 in (b, ap (λ (p : Result B × World). p.0) (>>=-of-ok m f w e) ∙ e')

or_raise-Returns :
    {World A : Type 0} (e : Exn) (o : Option A) (a : A)
    → o ≡ some a
    → (w : World) → Returns (or_raise e o) w
unfolding or_raise pure
or_raise-Returns e none a h w = absurd (none-ne-some a h)
or_raise-Returns e (some b) a h w = (b, refl)

-- What a command prints, if it ends, is read as an exit code.
abbrev pub HasCode : Run → Type 0
HasCode (finished rc out err) = (code : ℤ) × (exit_code (out ++ err) ≡ some code)
HasCode expired = Unit
HasCode (not_started why) = Unit

output_of-HasCode :
    {World : Type 0} (run : Process World) (what : Text) (r : Run)
    → IsFinished r
    → HasCode r
    → (out : Text) × (rc : ℤ) × (output_of run what false r ≡ ok out) × (exit_code out ≡ some rc)
unfolding output_of
output_of-HasCode run what (finished rc out err) h (code, e) = (out ++ err, code, refl, e)
output_of-HasCode run what expired h c = absurd h
output_of-HasCode run what (not_started why) h c = absurd h

module _ {World : Type 0} (run : Process World) (always : AlwaysFinishes run) where
  pub read_report-Returns :
      (cid : Text) (report : Option Text) (w : World) → Returns (read_report run cid report) w
  unfolding read_report pure
  read_report-Returns cid none w = ([], refl)
  read_report-Returns cid (some []) w = ([], refl)
  read_report-Returns cid (some (c ∷ path)) w = exec-returns run always cid _ 30 w

  -- The output of a command is read as an exit code.
  exec-HasCode :
      ((cmd : List Text) (timeout : ℕ) (w : World) → HasCode (run cmd timeout w).0)
      → (cid cmd : Text) (timeout : ℕ) (w : World)
      → (out : Text) × (rc : ℤ) × ((exec run cid cmd timeout false w).0 ≡ ok out)
        × (exit_code out ≡ some rc)
  unfolding exec
  exec-HasCode coded cid cmd timeout w =
      output_of-HasCode run (codes "container command") _ (always _ timeout w) (coded _ timeout w)

  module _ (coded : (cmd : List Text) (timeout : ℕ) (w : World) → HasCode (run cmd timeout w).0)
      {Host : Type 0} (runner : Runner Host)
      (reads : (report stdout : Text)
        → (outcomes : Option Outcomes) × (runner.outcomes report stdout ≡ some outcomes))
      (timeout : ℕ) (cid suite : Text) where
    settled-Returns :
        (bi : ℕ) (batch : List Text) (rc : ℤ) (outcomes : Option Outcomes) (s : SuiteRun)
        (w : World)
        → Returns (settled (settle runner suite bi batch rc outcomes s)) w
    unfolding settled pure
    settled-Returns bi batch rc outcomes s w =
        let (s', e, _) = settle-Adds runner suite bi batch rc outcomes s in (s', ground arith)

    run_batch-Returns :
        (bi : ℕ) (batch : List Text) (s : SuiteRun) (w : World)
        → Returns (run_batch runner run timeout cid suite bi batch s) w
    unfolding run_batch
    run_batch-Returns bi batch s w =
        let (out, rc, ran, code) = exec-HasCode coded cid _ (timeout + 45) w in
        Returns-step _ _ w out ran (λ w'.
          Returns-bind _ _ w' (or_raise-Returns value_error (exit_code out) rc code w') λ rc' w2.
            Returns-bind _ _ w2 (read_report-Returns cid _ w2) λ report w3.
              let (outcomes, e) = reads report out in
              Returns-bind _ _ w3
                (or_raise-Returns attribute_error (runner.outcomes report out) outcomes e w3)
                λ read w4. settled-Returns bi batch rc' read _ w4)

    batch_loop-Returns :
        (rounds bi : ℕ) (ids : List Text) (s : SuiteRun) (w : World)
        → Returns (batch_loop runner run timeout cid suite rounds bi ids s) w
    unfolding batch_loop pure
    batch_loop-Returns zero bi ids s w = (s, refl)
    batch_loop-Returns (suc rounds) bi ids s w =
        Returns-bind _ _ w (run_batch-Returns bi (take score_batch_size (drop bi ids)) s w)
          λ t w'. batch_loop-Returns rounds (bi + score_batch_size) ids t w'

    -- If every command that is started ends in time, none of them prints an exit code of more digits
    -- than `int` reads, and the runner raises an exception on no report, then a suite returns,
    -- whatever else the commands print and whatever their exit codes are.
    pub run_suite-Returns :
        (ids : List Text) (w : World) → Returns (run_suite runner run timeout cid suite ids) w
    unfolding run_suite
    run_suite-Returns ids w = batch_loop-Returns _ 0 ids _ w
