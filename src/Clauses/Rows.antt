-- ===== src/Clauses/Rows.antt =====
-- The rows of a file of clauses: the patterns of the two tools, as readers. The digits and the
-- letters are ASCII's.
use bmk_dev.Base.{
  ◌-◌, ℕ, Bool, true, false, ◌&&◌, ◌||◌, not, Option, none, some, List, [], ◌∷◌, length, leb, eqb,
  if◌then◌else◌, take,
}
use mathlib.Core.Option.{get_or}
use mathlib.Core.List.{reverse}
use bmk_dev.Base.Text.{
  Text, codes, ends_with, strip_prefix, is_digit, after_first, is_empty, is_space, push_char, join,
}

-- The longest part at the front that passes a test.
abbrev pub front : (ℕ → Bool) → Text → Text
front p [] = []
front p (c ∷ s) = let rest = front p s in if p c then c ∷ rest else []

-- What stands behind it.
abbrev pub behind : (ℕ → Bool) → Text → Text
behind p [] = []
behind p (c ∷ s) = let rest = behind p s in if p c then rest else c ∷ s

-- `X+`: what follows a part that is not empty.
abbrev pub some_of : (ℕ → Bool) → Text → Option Text
some_of p s = if is_empty (front p s) then none else some (behind p s)

abbrev pub is_upper : ℕ → Bool
is_upper c = leb b'A' c && leb c b'Z'

-- Three digits.
abbrev pub three_digits : Text → Option Text
three_digits (a ∷ b ∷ c ∷ s) = if is_digit a && is_digit b && is_digit c then some s else none
three_digits _ = none

abbrev pub ◌>=>◌ : (Text → Option Text) → (Text → Option Text) → Text → Option Text
(f >=> g) s = elim (f s) [ none ↦ none | some t ↦ g t ]

infixl 20 ◌>=>◌
-- What follows the identifier, `[A-Z0-9]+-[A-Z]+-\d{3}`.
abbrev pub after_id : Text → Option Text
after_id =
    some_of (λ (c : ℕ). is_upper c || is_digit c)
    >=> strip_prefix (codes "-")
    >=> some_of is_upper
    >=> strip_prefix (codes "-")
    >=> three_digits

-- The text that a reader has read.
abbrev pub read_part : Text → Text → Text
read_part s rest = take (length s - length rest) s

abbrev pub row_mark : Text
row_mark = codes "- **"

-- What stands behind the identifier of a row, with a reader of the identifier.
abbrev pub after_mark : (Text → Option Text) → Text → Option Text
after_mark id = strip_prefix row_mark >=> id >=> strip_prefix (codes "**")

abbrev pub is_row_start : (Text → Option Text) → Text → Bool
is_row_start id line = elim (after_mark id line) [ none ↦ false | some _ ↦ true ]

-- ` — *[^*]+* ".*"`, to the end of the line.
abbrev pub after_title : Text → Option Text
after_title =
    strip_prefix (codes " — *")
    >=> some_of (λ (c : ℕ). not (eqb c b'*'))
    >=> strip_prefix (codes "*")
    >=> strip_prefix (codes " \"")

-- `ROW.match(line)`
abbrev pub is_row : (Text → Option Text) → Text → Bool
is_row id line = elim ((after_mark id >=> after_title) line) [
  | none ↦ false
  | some quoted ↦ ends_with quoted (codes "\"")
]

-- The identifier of a row.
abbrev pub id_of : (Text → Option Text) → Text → Text
id_of id line = elim (strip_prefix row_mark line) [
  | none ↦ []
  | some s ↦ elim (id s) [ none ↦ [] | some rest ↦ read_part s rest ]
]

-- `line[line.index('"') + 1:line.rindex('"')]`, for a line with a quotation mark
abbrev pub quote_of : Text → Text
quote_of line =
    reverse
      (get_or (after_first (codes "\"") (reverse (get_or (after_first (codes "\"") line) []))) [])

-- A row that is read.
pub record Row : Type 0 where
  pub id : Text
  pub quote : Text

abbrev pub read_row : (Text → Option Text) → Text → Row
read_row id line = record { id = id_of id line; quote = quote_of line }

-- `s.split()`
abbrev pub starts_word : Text → Bool
starts_word [] = false
starts_word (c ∷ s) = not (is_space c)

unfoldable pub words : Text → List Text
words [] = []
words (c ∷ s) =
    let rest = words s in
    if is_space c then rest else if starts_word s then push_char c rest else (c ∷ []) ∷ rest

-- `" ".join(s.split())`
abbrev pub norm : Text → Text
norm s = join (codes " ") (words s)
