-- ===== src/Sandbox/Docker/Laws.antt =====
-- Inversion of a block that returned, and the commands of a process runner that always finishes.
use bmk_dev.Base.{ℕ, List, ◌≡◌, refl, ap, false, ◌++◌}
use bmk_dev.Base.Text.{Text, codes}
use bmk_dev.Sandbox.Docker.{
  Run, finished, expired, not_started, Result, ok, raised, Process, Exec, output_of, exec, ◌>>=◌,
  continue,
}

module _ {World A B : Type 0} where
  pub >>=-eq-ok :
      (m : Exec World A) (f : A → Exec World B) (w : World) (b : B)
      → ((m >>= f) w).0 ≡ ok b
      → (a : A) × ((m w).0 ≡ ok a) × ((f a (m w).1).0 ≡ ok b)
  unfolding ◌>>=◌
  >>=-eq-ok m f w b h = by_cases (m w).0 refl h
    where
      by_cases :
          (r : Result A)
          → (m w).0 ≡ r
          → (continue r f (m w).1).0 ≡ ok b
          → (a : A) × ((m w).0 ≡ ok a) × ((f a (m w).1).0 ≡ ok b)
      by_cases (ok a) e k = (a, e, k)
      by_cases (raised x) e k = cc

  pub >>=-of-ok :
      (m : Exec World A) (f : A → Exec World B) (w : World) {a : A}
      → (m w).0 ≡ ok a
      → (m >>= f) w ≡ f a (m w).1
  unfolding ◌>>=◌
  >>=-of-ok m f w {a} h = ap (λ (r : Result A). continue r f (m w).1) h

abbrev pub IsFinished : Run → Type 0
IsFinished (finished _ _ _) = Unit
IsFinished _ = ⊥

-- The program `docker` can be started and no command runs into its timeout.
abbrev pub AlwaysFinishes : {World : Type 0} → Process World → Type 0
AlwaysFinishes {World} run =
    (cmd : List Text) (timeout : ℕ) (w : World) → IsFinished (run cmd timeout w).0

module _ {World : Type 0} (run : Process World) (always : AlwaysFinishes run) where
  output_of-finished :
      (what : Text) (r : Run) → IsFinished r → (out : Text) × (output_of run what false r ≡ ok out)
  unfolding output_of
  output_of-finished what (finished rc out err) h = (out ++ err, refl)
  output_of-finished what expired h = absurd h
  output_of-finished what (not_started why) h = absurd h

  -- An unchecked command returns its output, whatever its exit code.
  pub exec-returns :
      (cid cmd : Text) (timeout : ℕ) (w : World)
      → (out : Text) × ((exec run cid cmd timeout false w).0 ≡ ok out)
  unfolding exec
  exec-returns cid cmd timeout w =
      output_of-finished (codes "container command") _ (always _ timeout w)
