-- ===== src/Sandbox/Docker.antt =====
-- harness/sandbox.py, the low-level helpers: `_docker`, `_docker_cp`, `_exec` and `_cleanup`, over
-- a process runner that is a parameter, in a monad of state and exceptions. What was changed
-- before an exception stays changed.
pub mod Laws
use bmk_dev.Base.{
  ℕ, Bool, true, false, ◌&&◌, not, Option, none, some, List, [], ◌∷◌, ◌++◌, if◌then◌else◌, take,
}
use bmk_dev.Base.Int.{ℤ, is_ℕ}
use bmk_dev.Base.Text.{Text, codes}

-- What `subprocess.run(cmd, timeout=…)` gives: the exit code and the two outputs, the expiry of
-- the timeout, or a program that cannot be started.
pub data Run : Type 0 where
  finished : ℤ → Text → Text → Run
  expired : Run
  not_started : Text → Run

-- The exceptions, with what their messages show.
pub data Exn : Type 0 where
  timeout_expired : Exn
  runtime_error : Text → ℤ → Text → Exn
  called_process_error : ℤ → Exn
  os_error : Text → Exn
  stop_iteration : Exn
  -- of `int` on a text of too many digits
  value_error : Exn
  -- of a runner that reads a report of another shape
  attribute_error : Exn

pub data Result (A : Type 0) : Type 0 where
  ok : A → Result A
  raised : Exn → Result A

-- The process runner: a command, its timeout in seconds, and the state of the machine.
abbrev pub Process : Type 0 → Type 0
Process World = List Text → ℕ → World → Run × World

abbrev pub Exec : Type 0 → Type 0 → Type 0
Exec World A = World → Result A × World

module _ {World : Type 0} where
  unfoldable pub pure : {A : Type 0} → A → Exec World A
  pure a w = (ok a, w)

  unfoldable pub raise : {A : Type 0} → Exn → Exec World A
  raise e w = (raised e, w)

  abbrev pub continue : {A B : Type 0} → Result A → (A → Exec World B) → Exec World B
  continue (ok a) f w = f a w
  continue (raised e) f w = (raised e, w)

  infixl 10 ◌>>=◌ ◌>>◌
  unfoldable pub ◌>>=◌ : {A B : Type 0} → Exec World A → (A → Exec World B) → Exec World B
  unfolding pure raise
  ◌>>=◌ m f w = let (r, w') = m w in continue r f w'

  abbrev pub ◌>>◌ : {A B : Type 0} → Exec World A → Exec World B → Exec World B
  m >> n = m >>= λ _. n

  module _ (run : Process World) where
    -- `r.stdout + r.stderr`, or the `RuntimeError` of a checked command that failed
    unfoldable pub output_of : Text → Bool → Run → Result Text
    output_of what check (finished rc out err) =
        if check && not (is_ℕ rc 0)
        then raised (runtime_error what rc (take 500 err))
        else ok (out ++ err)
    output_of what check expired = raised timeout_expired
    output_of what check (not_started why) = raised (os_error why)

    -- `what` is the first argument, which the message names.
    unfoldable pub docker : Text → List Text → ℕ → Bool → Exec World Text
    unfolding output_of
    docker what args timeout check w =
        let (r, w') = run (codes "docker" ∷ what ∷ args) timeout w in (output_of what check r, w')

    copied : Run → Result (Unit {0})
    copied (finished rc out err) = if is_ℕ rc 0 then ok tt else raised (called_process_error rc)
    copied expired = raised timeout_expired
    copied (not_started why) = raised (os_error why)

    unfoldable pub docker_cp : Text → Text → ℕ → Exec World (Unit {0})
    unfolding copied
    docker_cp src dst timeout w =
        let (r, w') = run (codes "docker" ∷ codes "cp" ∷ codes "-L" ∷ src ∷ dst ∷ []) timeout w in
        (copied r, w')

    unfoldable pub exec : Text → Text → ℕ → Bool → Exec World Text
    unfolding output_of
    exec cid cmd timeout check w =
        let (r, w') =
          run (codes "docker" ∷ codes "exec" ∷ cid ∷ codes "bash" ∷ codes "-c" ∷ cmd ∷ []) timeout
            w in
        (output_of (codes "container command") check r, w')

    -- Whatever becomes of the command, nothing is raised.
    unfoldable pub cleanup : Text → World → World
    cleanup cid w = (run (codes "docker" ∷ codes "rm" ∷ codes "-f" ∷ cid ∷ []) 15 w).1
