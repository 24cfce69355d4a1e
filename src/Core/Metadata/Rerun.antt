-- ===== src/Core/Metadata/Rerun.antt =====
-- What a run writes, the next run finds as it should be.
use bmk_dev.Base.{
  Bool, true, false, Option, some, List, [], ◌∷◌, ◌++◌, contains, list_eq, nat_eq, ◌==◌,
  if◌then◌else◌, ◌≡◌, ◌≢◌, refl, sym, ◌∙◌, arith, ap, inl, inr, Bool-cases, Option-cases, ==-cases,
  ==-self, ℕ,
}
use mathlib.Core.Path.{subst}
use bmk_dev.Base.Text.{Text}
use bmk_dev.Base.Dict.{lookup, insert, lookup-insert}
use bmk_dev.Base.Json.{object, same_json}
use bmk_dev.Core.Metadata.{Library, Packet}
use bmk_dev.Core.Metadata.Main.{
  Files, Ending, ended, raised, prefix_of, meta_path, compare_task, sync_decoded, sync_file,
  sync_task, sync_loop, main,
}
use bmk_dev.Core.Metadata.Fresh.{Codec, IsFresh, sync_task-made, sync_task-IsFresh}

raised-ne-ended :
    (late : List Text) (code : ℕ) (files final : Files)
    → ◌≡◌ {A = Ending × Files} (raised, files) (ended late code, final)
    → ⊥
raised-ne-ended late code files final h = cc

module _ (L : Library) (codec : Codec L) {Host : Type 0}
    (packets : Text → Option (Packet Host)) where
  module _
      (apart : (i j : Text) (p q : Packet Host)
        → packets i ≡ some p
        → packets j ≡ some q
        → p.location ≡ q.location
        → i ≡ j) where
    -- The file of one task is not touched by another.
    elsewhere :
        (i j : Text) (p q : Packet Host)
        → packets i ≡ some p
        → packets j ≡ some q
        → i ≢ j
        → (meta_path L packets true p == meta_path L packets true q) ≡ false
    elsewhere i j p q pi qj differ =
        elim (==-cases (meta_path L packets true p) (meta_path L packets true q)) [
          | inl (t, same) ↦
              let tails : p.location ≡ q.location = cc in
              absurd (differ (apart i j p q pi qj tails))
          | inr (f, _) ↦ f
        ]

    sync_task-keeps :
        (i j : Text) (files : Files) (result : Bool × Files)
        → sync_task L packets false j files ≡ some result
        → IsFresh L codec packets i files
        → IsFresh L codec packets i result.1
    unfolding compare_task
    sync_task-keeps i j files result h (p, raw, current, expected, (pi, r, d, e), t) =
        elim (==-cases i j) [
          | inl (_, same) ↦
              subst (λ (k : Text). IsFresh L codec packets k result.1) (sym same)
                (sync_task-IsFresh L codec packets j files result h)
          | inr (_, differ) ↦
              let (q, raw', current', expected', (qj, r', d', e'), c) =
                sync_task-made L codec packets false j files result h in
              let same = same_json L.Number L.same L.of_Bool (object current') (object expected') in
              let still : lookup (meta_path L packets true p) result.1 ≡ some raw =
                elim (Bool-cases same) [
                  | inl t' ↦
                      let unchanged : result ≡ (false, files) = c ∙ rw (compare_task, t') refl in
                      ap (λ (x : Bool × Files). lookup (meta_path L packets true p) x.1) unchanged
                      ∙ r
                  | inr f' ↦
                      let written = prefix_of L raw' ++ L.dumps (object expected') in
                      let stored : result
                          ≡ (true, insert (meta_path L packets true q) written files) =
                        c ∙ rw (compare_task, f') refl in
                      ap (λ (x : Bool × Files). lookup (meta_path L packets true p) x.1) stored
                      ∙ lookup-insert (meta_path L packets true p) (meta_path L packets true q)
                          written files
                      ∙ rw (elsewhere i j p q pi qj differ) r
                ] in
              (p, raw, current, expected, (pi, still, d, e), t)
        ]

    -- The end of a run without an exception.
    sync_loop-keeps :
        (i : Text) (selected stale late : List Text) (code : ℕ) (files final : Files)
        → IsFresh L codec packets i files
        → sync_loop L packets false selected stale files ≡ (ended late code, final)
        → IsFresh L codec packets i final
    unfolding sync_loop
    sync_loop-keeps i [] stale late code files final fresh h =
        subst (λ (f : Files). IsFresh L codec packets i f) (ap (λ (x : Ending × Files). x.1) h)
          fresh
    sync_loop-keeps i (j ∷ selected) stale late code files final fresh h =
        elim (Option-cases (sync_task L packets false j files)) [
          | inl n ↦
              absurd (raised-ne-ended late code files final (sym (rw (sync_loop, n) refl) ∙ h))
          | inr (result, e) ↦
              sync_loop-keeps i selected (if result.0 then stale ++ (j ∷ []) else stale) late code
                result.1 final (sync_task-keeps i j files result e fresh)
                (sym (rw (sync_loop, e) refl) ∙ h)
        ]

    sync_loop-reaches :
        (i : Text) (selected stale late : List Text) (code : ℕ) (files final : Files)
        → contains selected i ≡ true
        → sync_loop L packets false selected stale files ≡ (ended late code, final)
        → IsFresh L codec packets i final
    unfolding sync_loop
    sync_loop-reaches i [] stale late code files final c h = absurd cc
    sync_loop-reaches i (j ∷ selected) stale late code files final c h =
        elim (Option-cases (sync_task L packets false j files)) [
          | inl n ↦
              absurd (raised-ne-ended late code files final (sym (rw (sync_loop, n) refl) ∙ h))
          | inr (result, e) ↦
              let later : sync_loop L packets false selected
                    (if result.0 then stale ++ (j ∷ []) else stale) result.1
                  ≡ (ended late code, final) =
                sym (rw (sync_loop, e) refl) ∙ h in
              elim (==-cases i j) [
                | inl (_, same) ↦
                    sync_loop-keeps i selected (if result.0 then stale ++ (j ∷ []) else stale) late
                      code result.1 final
                      (subst (λ (k : Text). IsFresh L codec packets k result.1) (sym same)
                        (sync_task-IsFresh L codec packets j files result e))
                      later
                | inr (f, _) ↦
                    sync_loop-reaches i selected (if result.0 then stale ++ (j ∷ []) else stale)
                      late code result.1 final (ground arith) later
              ]
        ]

  fresh-sync_task :
      (i : Text) (files : Files)
      → IsFresh L codec packets i files
      → sync_task L packets true i files ≡ some (false, files)
  unfolding sync_task sync_file sync_decoded compare_task
  fresh-sync_task i files (p, raw, current, expected, (pi, r, d, e), t) =
      rw (sync_task, pi, sync_file, r, sync_decoded, d, e, compare_task, t) refl

  fresh-sync_loop :
      (selected : List Text) (files : Files)
      → ((i : Text) → contains selected i ≡ true → IsFresh L codec packets i files)
      → sync_loop L packets true selected [] files ≡ (ended [] 0, files)
  unfolding sync_loop
  fresh-sync_loop [] files h = refl
  fresh-sync_loop (i ∷ selected) files h =
      rw (sync_loop, fresh-sync_task i files (h i (rw (==-self i) refl)))
        (fresh-sync_loop selected files (λ j c. h j (ground arith)))

  -- Where a rewriting run ends without an exception, a check of the same tasks right after it finds
  -- none stale, ends with 0 and changes no file. Two ids have packets at two places, and `json`
  -- reads the objects that it writes.
  pub main-check_after :
      ((i j : Text) (p q : Packet Host)
        → packets i ≡ some p
        → packets j ≡ some q
        → p.location ≡ q.location
        → i ≡ j)
      → (task_id : Text) (selected stale : List Text) (code : ℕ) (files final : Files)
      → main L packets false (task_id ∷ selected) files ≡ (ended stale code, final)
      → main L packets true (task_id ∷ selected) final ≡ (ended [] 0, final)
  unfolding main
  main-check_after apart task_id selected stale code files final h =
      fresh-sync_loop (task_id ∷ selected) final
        (λ i c. sync_loop-reaches apart i (task_id ∷ selected) [] stale code files final c h)
