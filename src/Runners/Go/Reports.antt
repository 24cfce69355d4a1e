-- ===== src/Runners/Go/Reports.antt =====
-- The outcomes of a stream of `go test -json`.
use mathlib.Core.Option.{or_else}
use bmk_dev.Base.{
  Bool, true, false, Option, none, some, List, [], ◌∷◌, ◌≡◌, refl, ◌==◌, list_eq, nat_eq,
  if◌then◌else◌, arith, String, ◌∙◌, ◌↔◌, Option-cases, inl, inr, not, ◌&&◌, is_nil,
}
use bmk_dev.Base.Text.{Text, split_lines}
use bmk_dev.Base.Dict.{Dict, lookup, insert, lookup-insert, lookup-nil}
use bmk_dev.Runners.GoEvents.{Event, line_outcome, lines_loop, outcomes, or_none}

module _ (loads : Text → Option Event) where
  -- The outcome of the last line that has one for the test.
  unfoldable pub last_outcome : Text → List Text → Option String
  last_outcome id [] = none
  last_outcome id (line ∷ lines) = or_else (last_outcome id lines) (elim (line_outcome loads line) [
    | none ↦ none
    | some (j, outcome) ↦ if id == j then some outcome else none
  ])

  -- Some line has an outcome of a test.
  unfoldable pub any_outcome : List Text → Bool
  any_outcome [] = false
  any_outcome (line ∷ lines) = elim (line_outcome loads line) [
    | none ↦ any_outcome lines
    | some _ ↦ true
  ]

  lookup-lines_loop :
      (id : Text) (lines : List Text) (results : Dict Text String)
      → lookup id (lines_loop loads lines results)
        ≡ or_else (last_outcome id lines) (lookup id results)
  unfolding lines_loop last_outcome or_else
  lookup-lines_loop id [] results = refl
  lookup-lines_loop id (line ∷ lines) results = elim (Option-cases (line_outcome loads line)) [
    | inl silent ↦ rw silent (ground (arith, lookup-lines_loop id lines results))
    | inr ((j, outcome), told) ↦ rw told (
        ground (
          arith,
          lookup-lines_loop id lines (insert j outcome results),
          lookup-insert id j outcome results,
        ))
  ]

  insert-is_nil :
      (id : Text) (outcome : String) (results : Dict Text String)
      → is_nil (insert id outcome results) ≡ false
  unfolding insert
  insert-is_nil id outcome [] = refl
  insert-is_nil id outcome ((j, v) ∷ results) = ground arith

  lines_loop-is_nil :
      (lines : List Text) (results : Dict Text String)
      → is_nil (lines_loop loads lines results) ≡ (not (any_outcome lines) && is_nil results)
  unfolding lines_loop any_outcome
  lines_loop-is_nil [] results = refl
  lines_loop-is_nil (line ∷ lines) results = elim (Option-cases (line_outcome loads line)) [
    | inl silent ↦ rw silent (ground (arith, lines_loop-is_nil lines results))
    | inr ((j, outcome), told) ↦ rw told (
        ground (
          arith,
          lines_loop-is_nil lines (insert j outcome results),
          insert-is_nil j outcome results,
        ))
  ]

  or_none-cases :
      (results : Dict Text String)
      → ((or_none results ≡ none) ↔ (is_nil results ≡ true))
        × ((d : Dict Text String) → or_none results ≡ some d → results ≡ d)
  or_none-cases [] = ((λ h. refl, λ h. refl), λ d h. cc)
  or_none-cases (r ∷ results) = ((λ h. cc, λ h. cc), λ d h. cc)

  -- A report is unusable exactly when none of its lines is a terminal event that names a test; in
  -- any other, a test has the outcome of the last such event that names it, and none without one.
  pub outcomes-last :
      (report stdout : Text)
      → ((outcomes loads report stdout ≡ none) ↔ (any_outcome (split_lines report) ≡ false))
        × ((d : Dict Text String)
            → outcomes loads report stdout ≡ some d
            → (id : Text) → lookup id d ≡ last_outcome id (split_lines report))
  unfolding outcomes or_else
  outcomes-last report stdout =
      let empty = lines_loop-is_nil (split_lines report) [] in
      let (unusable, usable) = or_none-cases (lines_loop loads (split_lines report) []) in
      (
        (λ h. ground (arith, unusable.0 h), λ h. unusable.1 (ground arith)),
        λ d h id. rw (← usable d h) (
            lookup-lines_loop id (split_lines report) []
            ∙ ground (arith, lookup-nil {V = String} id)),
      )
