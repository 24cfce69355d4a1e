-- ===== src/Core/Verdict/Check.antt =====
-- What a check of the verdicts that ends with 0 shows.
use bmk_dev.Base.{
  true, false, Option, none, some, List, [], ◌∷◌, ◌++◌, contains, nat_eq, list_eq, ◌≡◌, refl, sym,
  ◌∙◌, arith, ap, Option-cases, inl, inr, ==-cases, is_nil, Bool-cases,
}
use mathlib.Core.Path.{subst}
use mathlib.Core.Option.{some-injective, none-ne-some}
use bmk_dev.Base.Text.{Text, codes}
use bmk_dev.Base.Floats.{Floats}
use bmk_dev.Base.Dict.{Dict, lookup}
use bmk_dev.Core.Layout.{Location}
use bmk_dev.Core.Verdict.{
  Gate, Drifted, render, Run, one, loop, start, tiered, compared, main, selected_of, exit_code,
}
use bmk_dev.Core.Verdict.Drift.{IsFiled, one-some, main-check, ended-some}

nothing_joined : (xs ys : List Drifted) → xs ++ ys ≡ [] → (xs ≡ []) × (ys ≡ [])
nothing_joined [] ys h = (refl, h)
nothing_joined (x ∷ xs) ys h = cc

is_nil_sound : (xs : List Drifted) → is_nil xs ≡ true → xs ≡ []
is_nil_sound [] h = refl
is_nil_sound (x ∷ xs) h = cc

module _ (F : Floats) (gate : Gate F) where
  open gate use {root, disk}

  compared-nil :
      (task_id text : Text) (found : Option Text)
      → compared F gate task_id text found ≡ []
      → found ≡ some text
  compared-nil task_id text none h = cc
  compared-nil task_id text (some there) h = elim (==-cases there text) [
    | inl (t, same) ↦ ap some same
    | inr (f, differ) ↦ absurd (ground arith)
  ]

  one_sound :
      (task_id : Text) (run next : Run)
      → one F gate false task_id run ≡ some next
      → next.drift ≡ []
      → (run.drift ≡ []) × (next.files ≡ run.files) × IsFiled F gate run.files task_id
  unfolding one
  one_sound task_id run next o quiet =
      let (v, path, b, p) = one-some F gate false task_id run next o in
      let checked : record (tiered F gate v run) {
        drift = run.drift ++ compared F gate task_id (render F gate v) (lookup path run.files);
      }
          ≡ next =
        some-injective _ next (sym (rw (one, b, p) refl) ∙ o) in
      let (before, here) =
        nothing_joined run.drift (compared F gate task_id (render F gate v) (lookup path run.files))
          (ap (λ (r : Run). r.drift) checked ∙ quiet) in
      (
        before,
        ap (λ (r : Run). r.files) (sym checked),
        (v, path, b, p, compared-nil task_id (render F gate v) (lookup path run.files) here),
      )

  check_loop_sound :
      (ids : List Text) (run run' : Run)
      → loop F gate false ids run ≡ some run'
      → run'.drift ≡ []
      → (run.drift ≡ [])
        × ((task_id : Text) → contains ids task_id ≡ true → IsFiled F gate run.files task_id)
  unfolding loop
  check_loop_sound [] run run' h quiet =
      (ap (λ (r : Run). r.drift) (some-injective run run' h) ∙ quiet, λ task_id c. cc)
  check_loop_sound (id ∷ ids) run run' h quiet = elim (Option-cases (one F gate false id run)) [
    | inl n ↦ absurd (none-ne-some run' (sym (rw (loop, n) refl) ∙ h))
    | inr (next, o) ↦
        let (quiet', filed) = check_loop_sound ids next run' (sym (rw (loop, o) refl) ∙ h) quiet in
        let (before, same, here) = one_sound id run next o quiet' in
        (
          before,
          λ task_id c. elim (==-cases task_id id) [
            | inl (t, e) ↦ rw e here
            | inr (f, differ) ↦
                subst (λ (fs : Dict Location Text). IsFiled F gate fs task_id) same
                  (filed task_id (ground arith))
          ],
        )
  ]

  quiet_exit : (run : Run) → exit_code F gate run ≡ 0 → run.drift ≡ []
  quiet_exit run h = elim (Bool-cases (is_nil run.drift)) [
    | inl n ↦ is_nil_sound run.drift n
    | inr n ↦ absurd (ground arith)
  ]

  -- Where a check ends with 0, every selected task has its file, and the file is what is generated
  -- for the task now.
  pub main-check_sound :
      (ids : List Text)
      → contains ids (codes "--write") ≡ false
      → (files files' : Dict Location Text)
      → main F gate (codes "--check" ∷ ids) files ≡ some (0, files')
      → (task_id : Text) → contains (selected_of F gate (codes "--check" ∷ ids)) task_id ≡ true
      → IsFiled F gate files task_id
  main-check_sound ids no_write files files' h =
      let (run, l, c, same) =
        ended-some F gate _ 0 files' (sym (main-check F gate ids files no_write) ∙ h) in
      (check_loop_sound (selected_of F gate (codes "--write" ∷ ids)) (start F gate files) run l
        (quiet_exit run c)).1
