-- ===== src/Sandbox/Score/Cleanup.antt =====
-- The container is removed on every path, also after an exception or a timeout.
use bmk_dev.Base.{Option, none, some, List, [], ◌∷◌, ◌≡◌, refl}
use bmk_dev.Base.Text.{Text, codes}
use bmk_dev.Base.Dict.{Dict}
use bmk_dev.Base.Floats.{Floats}
use bmk_dev.Runners.{Runner}
use bmk_dev.Sandbox.Docker.{Process, cleanup}
use bmk_dev.Sandbox.Score.{Machine, score, score_with, run_and_clean, get_runner, chosen_language}

-- A process runner that keeps the commands that it was given, the last one first.
abbrev pub logged : {World : Type 0} → Process World → Process (World × List (List Text))
logged run cmd timeout w = let (r, w') = run cmd timeout w.0 in (r, (w', cmd ∷ w.1))

abbrev pub with_log :
    {World Host : Type 0} → Machine World Host → Machine (World × List (List Text)) Host
with_log m = record {
  run = logged m.run;
  host_path = m.host_path;
  is_file = m.is_file;
  loads = m.loads;
  target_imports = m.target_imports;
  batch_timeout = m.batch_timeout;
}

abbrev pub remove_container : Text → List Text
remove_container cid = codes "docker" ∷ codes "rm" ∷ codes "-f" ∷ cid ∷ []

module _ (F : Floats) {World Host : Type 0} (machine : Machine World Host)
    (registry : Dict Text (Runner Host)) (task_language : Text → Option Text) (image : Option Text)
    (cid task_id : Text) (workspace oracle : Host) (extra : Option Host) (language : Option Text)
    (w : World) (log : List (List Text)) where
  -- Where the language has a runner, the last command of a score is the removal of its container,
  -- whatever the commands before it gave: a result, an exception or a timeout.
  pub score-removes_container :
      (runner : Runner Host)
      → get_runner registry (chosen_language (task_language task_id) language) ≡ some runner
      → (before : List (List Text)) × ((score F
            (with_log machine)
            registry
            task_language
            image
            cid
            task_id
            workspace
            oracle
            extra
            language
            (w, log)).1.1
          ≡ remove_container cid ∷ before)
  unfolding score
  score-removes_container runner found =
      rw found (unfold score_with run_and_clean cleanup in (_, refl))

  -- Where it has none, no command is run at all.
  pub score-runs_nothing :
      get_runner registry (chosen_language (task_language task_id) language) ≡ none
      → (score F
          (with_log machine)
          registry
          task_language
          image
          cid
          task_id
          workspace
          oracle
          extra
          language
          (w, log)).1
        ≡ (w, log)
  unfolding score
  score-runs_nothing absent = rw absent (unfold score_with in refl)
