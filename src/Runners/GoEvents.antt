-- ===== src/Runners/GoEvents.antt =====
-- harness/lang/go/runner.py: `GoRunner.outcomes`, which reads the stream of `go test -json`.
use mathlib.Core.Option.{get_or, or_else}
use bmk_dev.Base.{
  not, Option, none, some, List, [], ◌∷◌, ◌++◌, String, list_eq, nat_eq, option_eq, if◌then◌else◌,
}
use bmk_dev.Base.Text.{Text, codes, starts_with, after_last, split_lines, strip, is_empty}
use bmk_dev.Base.Dict.{Dict, insert, lookup}

-- One line of the stream of `go test -json`.
pub record Event : Type 0 where
  pub test : Option Text
  pub action : Option Text
  pub in_package : Option Text

abbrev pub translate : Dict Text String
translate = (codes "pass", "passed") ∷ (codes "fail", "failed") ∷ (codes "skip", "skipped") ∷ []

abbrev pub id_of_event : Text → Text → Text
id_of_event path n =
    let short = after_last (codes "/") path in
    if is_empty short then n else short ++ codes "::" ++ n

-- What an event says of a test, if it is a terminal one and names a test.
unfoldable pub event_outcome : Event → Option (Text × String)
unfolding or_else
event_outcome event = elim (get_or event.test []) [
  | [] ↦ none
  | c ∷ n ↦ elim (lookup (get_or event.action []) translate) [
    | none ↦ none
    | some outcome ↦ some (id_of_event (get_or event.in_package []) (c ∷ n), outcome)
  ]
]

-- `loads` decodes a line; `none` is the `ValueError`.
abbrev pub line_outcome : (Text → Option Event) → Text → Option (Text × String)
line_outcome loads line =
    if not (starts_with (strip line) (codes "{"))
    then none
    else elim (loads (strip line)) [ none ↦ none | some event ↦ event_outcome event ]

unfoldable pub lines_loop : (Text → Option Event) → List Text → Dict Text String → Dict Text String
lines_loop loads [] results = results
lines_loop loads (line ∷ lines) results = lines_loop loads lines (elim (line_outcome loads line) [
  | none ↦ results
  | some (id, outcome) ↦ insert id outcome results
])

abbrev pub or_none : Dict Text String → Option (Dict Text String)
or_none [] = none
or_none (r ∷ results) = some (r ∷ results)

unfoldable pub outcomes : (Text → Option Event) → Text → Text → Option (Dict Text String)
unfolding lines_loop
outcomes loads report stdout = or_none (lines_loop loads (split_lines report) [])
