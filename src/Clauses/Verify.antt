-- ===== src/Clauses/Verify.antt =====
-- harness/verify_clauses.py: that each quoted clause stands in the specification.
use bmk_dev.Base.{
  ℕ, Bool, ◌||◌, not, Option, none, some, List, [], ◌∷◌, ◌++◌, contains, list_eq, nat_eq,
  if◌then◌else◌, is_nil, keep, ◌+◌, first,
}
use bmk_dev.Base.Text.{Text, codes, starts_with, has_text, strip_prefix, is_digit}
use bmk_dev.Clauses.Rows.{
  Row, read_row, row_mark, is_row, is_row_start, after_id, front, is_upper, some_of, three_digits,
  norm, ◌>=>◌,
}

-- The first of `_families`: the front of the first identifier.
abbrev pub family_of : Text → Text
family_of line = elim (strip_prefix row_mark line) [
  | none ↦ []
  | some s ↦ front (λ (c : ℕ). is_upper c || is_digit c) s
]

abbrev pub family : List Text → Option Text
family lines = elim (first (is_row_start after_id) lines) [
  | none ↦ none
  | some line ↦ some (family_of line)
]

-- The identifier of a row of the family.
abbrev pub after_family : Text → Text → Option Text
after_family fam =
    strip_prefix (fam ++ codes "-")
    >=> some_of is_upper
    >=> strip_prefix (codes "-")
    >=> three_digits

-- The lists `rows` and `malformed`, with the numbers of the lines.
pub record Clauses : Type 0 where
  pub rows : List (ℕ × Row)
  pub malformed : List (ℕ × Text)

abbrev pub no_clauses : Clauses
no_clauses = record { rows = []; malformed = [] }

unfoldable pub clauses_loop : Text → ℕ → List Text → Clauses
clauses_loop fam lineno [] = no_clauses
clauses_loop fam lineno (line ∷ lines) =
    let rest = clauses_loop fam (lineno + 1) lines in
    if not (starts_with line (row_mark ++ fam ++ codes "-"))
    then rest
    else if not (is_row (after_family fam) line)
    then record { rows = rest.rows; malformed = (lineno, line) ∷ rest.malformed }
    else record {
      rows = (lineno, read_row (after_family fam) line) ∷ rest.rows;
      malformed = rest.malformed;
    }

abbrev pub is_verbatim : Text → Row → Bool
is_verbatim spec_norm row = has_text row.quote spec_norm

-- The loop with `seen` and `dupes`.
unfoldable pub dupes_loop : List Text → List (ℕ × Row) → List Text
dupes_loop seen [] = []
dupes_loop seen ((_, row) ∷ rows) =
    let rest = dupes_loop (row.id ∷ seen) rows in
    if contains seen row.id then row.id ∷ rest else rest

abbrev pub failed : Text → List (ℕ × Row) → List (ℕ × Row)
failed spec_norm = keep (λ (_, row). not (is_verbatim spec_norm row))

-- The exit code; without a row of any family the script ends with a message, which is 1.
unfoldable pub verify : Text → List Text → ℕ
verify spec lines = elim (family lines) [
  | none ↦ 1
  | some fam ↦
      let c = clauses_loop fam 1 lines in
      if not (is_nil (failed (norm spec) c.rows))
        || not (is_nil c.malformed)
        || not (is_nil (dupes_loop [] c.rows))
      then 1
      else 0
]
