-- ===== src/Core/Verdict/Drift.antt =====
-- The verdicts that a run writes, and the tier in them.
use bmk_dev.Base.{
  ℕ, Bool-cases, Bool, true, false, Option, none, some, List, [], ◌∷◌, ◌++◌, contains, nat_eq,
  list_eq, ◌≡◌, refl, sym, ◌∙◌, arith, ap, Option-cases, inl, inr, ==-cases, ==-self, string_eq,
}
use mathlib.Core.List.{append-nil}
use mathlib.Core.Path.{subst, ap₂}
use mathlib.Core.Option.{some-injective, none-ne-some}
use bmk_dev.Base.Text.{Text, codes}
use bmk_dev.Base.Floats.{Floats}
use bmk_dev.Base.Dict.{Dict, lookup, insert, lookup-insert}
use bmk_dev.Core.Layout.{Location, Disk, task_dir, verdict_path, name_of, parent_of}
use bmk_dev.Core.Layout.Standing.{task_dir-Stands}
use bmk_dev.Core.Verdict.{
  Gate, Verdict, build, render, Run, one, loop, start, exit_code, selected_of, ended, main, tiered,
}

module _ (root : Location) (disk : Disk) where
  task_dir-of-verdict_path :
      (task_id : Text) (path : Location)
      → verdict_path root disk task_id ≡ some path
      → (packet : Location) × (task_dir root disk task_id ≡ some packet)
  task_dir-of-verdict_path task_id path h = elim (Option-cases (task_dir root disk task_id)) [
    | inl n ↦ absurd (none-ne-some path (sym (rw (verdict_path, n) refl) ∙ h))
    | inr found ↦ found
  ]

  -- The id stands in the place of its verdict.
  verdict_path-id :
      (task_id : Text) (path : Location)
      → verdict_path root disk task_id ≡ some path
      → name_of (parent_of path) ≡ task_id
  verdict_path-id task_id path h =
      let (packet, found) = task_dir-of-verdict_path task_id path h in
      elim (task_dir-Stands root disk task_id packet found).5 [
        | inl (here, _, place) ↦
            ap (λ (p : Location). name_of (parent_of p))
              (sym (some-injective _ path (sym place ∙ h)))
            ∙ ap name_of here
        | inr (_, _, _, place) ↦
            ap (λ (p : Location). name_of (parent_of p))
              (sym (some-injective _ path (sym place ∙ h)))
      ]

  -- No two packets have their verdict at the same place.
  pub verdict_path-injective :
      (a b : Text) (path : Location)
      → verdict_path root disk a ≡ some path
      → verdict_path root disk b ≡ some path
      → a ≡ b
  verdict_path-injective a b path ha hb =
      sym (verdict_path-id a path ha) ∙ verdict_path-id b path hb

module _ (F : Floats) (gate : Gate F) where
  open gate use {root, disk}

  -- The files hold the verdict that is built for the id, at its place.
  abbrev pub IsFiled : Dict Location Text → Text → Type 0
  IsFiled files task_id =
      (v : Verdict F) × (path : Location) × (build F gate task_id ≡ some v)
      × (verdict_path root disk task_id ≡ some path)
      × (lookup path files ≡ some (render F gate v))

  pub one-some :
      (write : Bool) (task_id : Text) (run run' : Run)
      → one F gate write task_id run ≡ some run'
      → (v : Verdict F) × (path : Location) × (build F gate task_id ≡ some v)
        × (verdict_path root disk task_id ≡ some path)
  unfolding one
  one-some write task_id run run' h = elim (Option-cases (build F gate task_id)) [
    | inl n ↦ absurd (none-ne-some run' (sym (rw (one, n) refl) ∙ h))
    | inr (v, b) ↦ elim (Option-cases (verdict_path root disk task_id)) [
      | inl n ↦ absurd (none-ne-some run' (sym (rw (one, b, n) refl) ∙ h))
      | inr (path, p) ↦ (v, path, b, p)
    ]
  ]

  -- A verdict that is written is there, and leaves those of the other packets.
  insert-IsFiled :
      (task_id : Text) (v : Verdict F) (path : Location)
      → build F gate task_id ≡ some v
      → verdict_path root disk task_id ≡ some path
      → (files : Dict Location Text) (other : Text) → IsFiled files other
      → IsFiled (insert path (render F gate v) files) other
  insert-IsFiled task_id v path b p files other (w, at, b', p', there) = elim (==-cases at path) [
    | inl (t, same) ↦
        let ids : other ≡ task_id =
          verdict_path-injective root disk other task_id path (p' ∙ ap some same) p in
        let built : v ≡ w = some-injective v w (sym b ∙ ap (build F gate) (sym ids) ∙ b') in
        (
          w,
          at,
          b',
          p',
          lookup-insert at path (render F gate v) files
              ∙ rw t (ap (λ (x : Verdict F). some (render F gate x)) built),
        )
    | inr (f, differ) ↦ (w, at, b', p', lookup-insert at path (render F gate v) files ∙ rw f there)
  ]

  one-write :
      (task_id : Text) (run next : Run)
      → one F gate true task_id run ≡ some next
      → (next.drift ≡ run.drift)
        × ((other : Text) → IsFiled run.files other → IsFiled next.files other)
        × IsFiled next.files task_id
  unfolding one
  one-write task_id run next o =
      let (v, path, b, p) = one-some true task_id run next o in
      let files = insert path (render F gate v) run.files in
      let written : record (tiered F gate v run) { files = files } ≡ next =
        some-injective _ next (sym (rw (one, b, p) refl) ∙ o) in
      let stored = ap (λ (r : Run). r.files) written in
      (
        ap (λ (r : Run). r.drift) (sym written),
        λ other there. rw (sym stored) (insert-IsFiled task_id v path b p run.files other there),
        (
          v,
          path,
          b,
          p,
          ap (lookup path) (sym stored)
              ∙ lookup-insert path path (render F gate v) run.files
              ∙ rw (==-self path) refl,
        ),
      )

  write_loop-IsFiled :
      (ids : List Text) (run run' : Run)
      → loop F gate true ids run ≡ some run'
      → (run'.drift ≡ run.drift)
        × ((other : Text) → IsFiled run.files other → IsFiled run'.files other)
        × ((task_id : Text) → contains ids task_id ≡ true → IsFiled run'.files task_id)
  unfolding loop
  write_loop-IsFiled [] run run' h =
      let same : run ≡ run' = some-injective run run' h in
      (
        ap (λ (r : Run). r.drift) (sym same),
        λ other there. subst (λ (r : Run). IsFiled r.files other) same there,
        λ task_id c. cc,
      )
  write_loop-IsFiled (id ∷ ids) run run' h = elim (Option-cases (one F gate true id run)) [
    | inl n ↦ absurd (none-ne-some run' (sym (rw (loop, n) refl) ∙ h))
    | inr (next, o) ↦
        let (quiet, kept, written) = one-write id run next o in
        let (quiet', kept', written') =
          write_loop-IsFiled ids next run' (sym (rw (loop, o) refl) ∙ h) in
        (
          quiet' ∙ quiet,
          λ other there. kept' other (kept other there),
          λ task_id c. elim (==-cases task_id id) [
            | inl (t, same) ↦ rw same (kept' id written)
            | inr (f, differ) ↦ written' task_id (ground arith)
          ],
        )
  ]

  one-check :
      (task_id : Text) (run : Run)
      → IsFiled run.files task_id
      → (next : Run) × (one F gate false task_id run ≡ some next)
        × (next.files ≡ run.files)
        × (next.drift ≡ run.drift)
  unfolding one
  one-check task_id run (v, path, b, p, there) = (
    record (tiered F gate v run) { drift = run.drift ++ [] },
    rw (one, b, p, there, ==-self (render F gate v)) refl,
    refl,
    append-nil run.drift,
  )

  check_loop-quiet :
      (ids : List Text) (run : Run)
      → ((task_id : Text) → contains ids task_id ≡ true → IsFiled run.files task_id)
      → (run' : Run) × (loop F gate false ids run ≡ some run')
        × (run'.files ≡ run.files)
        × (run'.drift ≡ run.drift)
  unfolding loop
  check_loop-quiet [] run filed = (run, refl, refl, refl)
  check_loop-quiet (id ∷ ids) run filed =
      let (next, o, same, quiet) = one-check id run (filed id (rw (==-self id) refl)) in
      let (run', l, f, d) = check_loop-quiet ids next (λ task_id c.
        subst (λ (files : Dict Location Text). IsFiled files task_id) (sym same)
          (filed task_id (ground arith))) in
      (run', rw (loop, o) l, f ∙ same, d ∙ quiet)

  exit_quiet : (run : Run) → run.drift ≡ [] → exit_code F gate run ≡ 0
  exit_quiet run h = rw (exit_code, h) refl

  main-write :
      (ids : List Text) (files : Dict Location Text)
      → main F gate (codes "--write" ∷ ids) files
        ≡ ended F gate
            (loop F gate true (selected_of F gate (codes "--write" ∷ ids)) (start F gate files))
  unfolding list_eq nat_eq
  main-write ids files = elim (Bool-cases (contains ids (codes "--check"))) [
    | inl c ↦ rw c refl
    | inr n ↦ rw n refl
  ]

  pub main-check :
      (ids : List Text) (files : Dict Location Text)
      → contains ids (codes "--write") ≡ false
      → main F gate (codes "--check" ∷ ids) files
        ≡ ended F gate
            (loop F gate false (selected_of F gate (codes "--write" ∷ ids)) (start F gate files))
  unfolding list_eq nat_eq
  main-check ids files h = rw h refl

  pub ended-some :
      (o : Option Run) (code : ℕ) (files : Dict Location Text)
      → ended F gate o ≡ some (code, files)
      → (run : Run) × (o ≡ some run) × (exit_code F gate run ≡ code) × (run.files ≡ files)
  ended-some none code files h = absurd (none-ne-some (code, files) h)
  ended-some (some run) code files h =
      let both = some-injective (exit_code F gate run, run.files) (code, files) h in
      (
        run,
        refl,
        ap (λ (p : ℕ × Dict Location Text). p.0) both,
        ap (λ (p : ℕ × Dict Location Text). p.1) both,
      )

  -- After a run that wrote the verdicts, a check of the same tasks finds no drift and ends with 0,
  -- and the run that wrote them ended with 0.
  pub main-check-write :
      (ids : List Text)
      → contains ids (codes "--write") ≡ false
      → (files files' : Dict Location Text) (code : ℕ)
      → main F gate (codes "--write" ∷ ids) files ≡ some (code, files')
      → (code ≡ 0) × (main F gate (codes "--check" ∷ ids) files' ≡ some (0, files'))
  main-check-write ids no_write files files' code h =
      let selected = selected_of F gate (codes "--write" ∷ ids) in
      let (run, l, c, same) = ended-some _ code files' (sym (main-write ids files) ∙ h) in
      let (quiet, _, written) = write_loop-IsFiled selected (start F gate files) run l in
      let (run', l', f, d) = check_loop-quiet selected (start F gate files') (λ task_id s.
        subst (λ (fs : Dict Location Text). IsFiled fs task_id) same (written task_id s)) in
      (
        sym c ∙ exit_quiet run quiet,
        main-check ids files' no_write
            ∙ ap (ended F gate) l'
            ∙ ap some (ap₂ (λ (n : ℕ) (fs : Dict Location Text). (n, fs)) (exit_quiet run' d) f),
      )
