-- ===== src/Core/Candidates/Warnings.antt =====
-- What the gate's exit code and the warnings of the ledger show.
use bmk_dev.Base.{
  never_passes, refused_by_all, suc, Bool, true, false, not, ◌||◌, ◌&&◌, List, [], ◌∷◌, ◌++◌, ◌==◌,
  contains, nat_eq, list_eq, option_eq, if◌then◌else◌, eqb, any, is_nil, ◌≡◌, ◌↔◌, refl, sym, ◌∙◌,
  arith, ap, Bool-cases, inl, inr, ==-cases, ==-self,
}
use mathlib.Core.Option.{get_or}
use bmk_dev.Base.Text.{Text, is_empty}
use bmk_dev.Base.Dict.{Dict, lookup, lookup-insert, lookup-nil}
use bmk_dev.Core.Layout.{Location, Disk}
use bmk_dev.Core.Candidates.{
  repo_of, status_of, add_status, add_row, by_repo, failures, selected_ids, gate,
}

-- A row of the repository with the status.
abbrev pub has_status : Text → Text → Dict Text Text → Bool
has_status repo status row = repo == repo_of row && status == status_of row

contains-snoc :
    (xs : List Text) (x a : Text) → contains (xs ++ (x ∷ [])) a ≡ (contains xs a || a == x)
contains-snoc [] x a = ground arith
contains-snoc (y ∷ xs) x a = ground (arith, contains-snoc xs x a)

contains-add_status :
    (status : Text) (statuses : List Text) (a : Text)
    → contains (add_status status statuses) a ≡ (contains statuses a || a == status)
contains-add_status status statuses a = elim (Bool-cases (contains statuses status)) [
  | inl c ↦ elim (==-cases a status) [
    | inl (t, same) ↦ rw (add_status, c, same) (ground (arith, ==-self status))
    | inr (f, differ) ↦ rw (add_status, c, f) (ground arith)
  ]
  | inr n ↦ rw (add_status, n) (contains-snoc statuses status a)
]

or_no : (b : Bool) → b ≡ (b || false)
or_no true = refl
or_no false = refl

or_shift : (a b c : Bool) → ((a || b) || c) ≡ (a || (b || c))
or_shift true b c = refl
or_shift false b c = refl

-- The statuses that are recorded for a repository.
abbrev pub statuses_of : Text → Dict Text (List Text) → List Text
statuses_of repo found = get_or (lookup repo found) []

add_row-lookup :
    (repo status : Text)
    → is_empty repo ≡ false
    → (row : Dict Text Text) (found : Dict Text (List Text))
    → contains (statuses_of repo (add_row row found)) status
      ≡ (contains (statuses_of repo found) status || has_status repo status row)
unfolding add_row
add_row-lookup repo status named row found = elim (==-cases repo (repo_of row)) [
  | inl (t, same) ↦
      rw
        (
          sym same,
          named,
          lookup-insert repo repo (add_status (status_of row) (statuses_of repo found)) found,
          ==-self repo,
        )
        (contains-add_status (status_of row) (statuses_of repo found) status)
  | inr (f, differ) ↦ elim (Bool-cases (is_empty (repo_of row))) [
    | inl e ↦ rw (e, f) (or_no _)
    | inr n ↦
        rw
          (
            n,
            lookup-insert repo (repo_of row)
                (add_status (status_of row) (statuses_of (repo_of row) found)) found,
            f,
          )
          (or_no _)
  ]
]

by_repo-lookup :
    (repo status : Text)
    → is_empty repo ≡ false
    → (rows : List (Dict Text Text)) (found : Dict Text (List Text))
    → contains (statuses_of repo (by_repo rows found)) status
      ≡ (contains (statuses_of repo found) status || any (has_status repo status) rows)
unfolding by_repo
by_repo-lookup repo status named [] found = or_no _
by_repo-lookup repo status named (row ∷ rows) found =
    by_repo-lookup repo status named rows (add_row row found)
    ∙ rw (add_row-lookup repo status named row found) (
        or_shift (contains (statuses_of repo found) status) (has_status repo status row)
          (any (has_status repo status) rows))

-- The statuses that are recorded for a repository with a name are exactly those of its rows.
pub by_repo-statuses :
    (repo status : Text)
    → is_empty repo ≡ false
    → (rows : List (Dict Text Text))
    → contains (statuses_of repo (by_repo rows [])) status ≡ any (has_status repo status) rows
by_repo-statuses repo status named rows =
    by_repo-lookup repo status named rows [] ∙ rw lookup-nil refl

nil_of : (xs : List Text) → not (is_nil xs) ≡ false → xs ≡ []
nil_of [] h = refl
nil_of (x ∷ xs) h = cc

module _ (root : Location) (disk : Disk) (check_task : Text → List Text × List Text) where
  abbrev any_error : List Text → Bool
  any_error = any (λ task_id. not (is_nil (check_task task_id).0))

  failures-any : (ids : List Text) → eqb (failures root disk check_task ids) 0 ≡ not (any_error ids)
  failures-any [] = refl
  failures-any (id ∷ ids) = ground (arith, failures-any ids)

  zero_of : {b : Bool} → b ≡ true → (if b then 0 else suc 0) ≡ 0
  zero_of h = rw h refl

  -- The gate ends with 0 exactly when no selected task has an error.
  pub gate-passes :
      (argv : List Text)
      → (gate root disk check_task argv ≡ 0) ↔ (
          (task_id : Text)
          → contains (selected_ids root disk check_task argv) task_id ≡ true
          → (check_task task_id).0 ≡ [])
  gate-passes argv =
      let ids = selected_ids root disk check_task argv in
      (
        λ h task_id c. nil_of (check_task task_id).0 (
            never_passes (λ id. not (is_nil (check_task id).0)) ids
              (ground (arith, failures-any ids)) task_id c),
        λ clean. zero_of (
            failures-any ids
            ∙ ap not (
                refused_by_all (λ id. not (is_nil (check_task id).0)) ids
                  (λ id c. rw (clean id c) refl))),
      )
