-- ===== src/Clauses/Prose.antt =====
-- harness/clause_span_coverage.py: `prose_units`, from the blocks that its patterns leave.
use bmk_dev.Base.{
  ℕ, Bool, true, false, ◌&&◌, ◌||◌, not, Option, none, some, List, [], ◌∷◌, map, contains, list_eq,
  nat_eq, if◌then◌else◌, keep, any, all, ltb, leb, eqb, length,
}
use mathlib.Core.List.{reverse}
use bmk_dev.Base.Text.{Text, codes, strip, is_empty, is_space, ends_with, splitlines, join}
use bmk_dev.Clauses.Rows.{front, behind}

abbrev pub is_rule_char : ℕ → Bool
is_rule_char c = contains (codes "═=-_─—") c

-- `RULE`
abbrev pub is_rule_line : Text → Bool
is_rule_line line = leb 3 (length line) && all is_rule_char line

-- `DIVIDER`, with its group: a run of rule characters at either end.
abbrev pub divider : Text → Option Text
divider line =
    let inner = reverse (behind is_rule_char line) in
    if leb 3 (length (front is_rule_char line)) && leb 3 (length (front is_rule_char inner))
    then some (strip (reverse (behind is_rule_char inner)))
    else none

pub data Kind : Type 0 where
  rule : Kind
  banner : Text → Kind
  content : Text → Kind

abbrev pub kind_of_divider : Text → Option Text → Kind
kind_of_divider line none = content line
kind_of_divider line (some []) = content line
kind_of_divider line (some (c ∷ title)) = banner (strip (c ∷ title))

abbrev pub line_kind : Text → Kind
line_kind line = if is_rule_line line then rule else kind_of_divider line (divider line)

abbrev pub value_of : Kind → Text
value_of rule = []
value_of (banner title) = title
value_of (content line) = line

abbrev pub is_separator : Kind → Bool
is_separator (content line) = false
is_separator _ = true

-- A line that is prose rather than a title.
abbrev pub is_sentence : Kind → Bool
is_sentence (content line) =
    leb 60 (length line)
    || ends_with line (codes ".")
    || ends_with line (codes ":")
    || ends_with line (codes ";")
is_sentence _ = false

-- `max(titles, key=len)`: the first of the longest.
unfoldable pub longest : Text → List Text → Text
longest best [] = best
longest best (title ∷ titles) =
    longest (if ltb (length best) (length title) then title else best) titles

-- `_is_banner_block`
unfoldable pub is_banner_block : List Text → Option Text
is_banner_block lines =
    let kinds = map line_kind lines in
    if not (any is_separator kinds) || any is_sentence kinds
    then none
    else some (longest [] (keep (λ (v : Text). not (is_empty v)) (map value_of kinds)))

-- `HEADING`, with its second group.
unfoldable pub heading : Text → Option Text
heading line =
    let hashes = length (front (λ (c : ℕ). eqb c b'#') line) in
    let rest = behind (λ (c : ℕ). eqb c b'#') line in
    if leb 1 hashes && leb hashes 6 && not (is_empty (front is_space rest))
    then some (behind is_space rest)
    else none

-- What a block does: the section from then on, and the unit that it is.
abbrev pub under_heading : Text → Text → List Text → Text × Option Text
under_heading section block [] = (section, some block)
under_heading section block (line ∷ lines) = elim (heading line) [
  | none ↦ (section, some block)
  | some title ↦
      let rest = strip (join (codes "\n") lines) in
      (strip title, if is_empty rest then none else some rest)
]

unfoldable pub read_block : Text → Text → Text × Option Text
read_block section block =
    if is_empty block
    then (section, none)
    else elim (is_banner_block
        (keep (λ (l : Text). not (is_empty l)) (map strip (splitlines block)))) [
          | some title ↦ (if is_empty title then section else title, none)
          | none ↦ under_heading section block (splitlines block)
        ]

-- The loop over the blocks; `wanted` searches a section for the pattern that is asked for.
unfoldable pub units_loop : (Text → Bool) → Text → List Text → List (Text × Text)
units_loop wanted section [] = []
units_loop wanted section (block ∷ blocks) =
    let now = read_block section (strip block) in
    let rest = units_loop wanted now.0 blocks in
    elim now.1 [ none ↦ rest | some text ↦ if wanted now.0 then (now.0, text) ∷ rest else rest ]

-- `prose_units`
abbrev pub prose_units : (Text → Bool) → List Text → List (Text × Text)
prose_units wanted blocks = units_loop wanted (codes "(preamble)") blocks
