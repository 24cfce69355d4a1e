-- ===== src/Runners/Comments.antt =====
-- harness/runners/base.py: `depends_on_above`, which reads the names in the comments above a declaration.
use bmk_dev.Base.{
  not, Option, none, some, List, [], ◌∷◌, ◌++◌, ℕ, contains, list_eq, nat_eq, if◌then◌else◌, take,
  ◌||◌,
}
use mathlib.Core.List.{reverse}
use bmk_dev.Base.Text.{
  Text, codes, starts_with, strip, lstrip, strip_prefix, split_on, replace_char, splitlines,
  is_empty,
}

-- `if lines and not lines[-1].strip(): lines.pop()`, with the last line first.
abbrev pub drop_blank : List Text → List Text
drop_blank [] = []
drop_blank (line ∷ lines) = if is_empty (strip line) then lines else line ∷ lines

-- The loop over `reversed(lines)`: the lines of the comment, the last one first.
unfoldable pub block_loop : List Text → List Text
block_loop [] = []
block_loop (line ∷ lines) =
    let rest = block_loop lines in
    if not (starts_with (strip line) (codes "//")) then [] else line ∷ rest

-- What the group of `_DEPENDS_ON` matches, up to space at its front.
abbrev pub depends_on_group : Text → Option Text
depends_on_group line = elim (strip_prefix (codes "//") (lstrip line)) [
  | none ↦ none
  | some comment ↦ strip_prefix (codes "DependsOn:") (lstrip comment)
]

unfoldable pub add_names : List Text → List Text → List Text
add_names [] names = names
add_names (part ∷ parts) names =
    let n = strip part in
    add_names parts (if is_empty n || contains names n then names else names ++ (n ∷ []))

abbrev pub line_names : Text → List Text
line_names line = elim (depends_on_group line) [
  | none ↦ []
  | some group ↦ split_on b',' (replace_char b';' b',' group)
]

-- The loop over `reversed(block)`, in the order of the source.
unfoldable pub names_loop : List Text → List Text → List Text
unfolding add_names
names_loop [] names = names
names_loop (line ∷ block) names = names_loop block (add_names (line_names line) names)

unfoldable pub depends_on_above : Text → ℕ → List Text
unfolding block_loop names_loop
depends_on_above text offset =
    names_loop (reverse (block_loop (drop_blank (reverse (splitlines (take offset text)))))) []
