-- ===== src/Base/Text.antt =====
-- Python strings that are searched or split, as lists of code points; whole names that are only
-- compared are native strings.
use Prim.Native.Char.{code}
use Prim.Native.Nat.{ℕ, zero, suc, ◌+◌, ◌-◌, ◌*◌, ◌/◌, ◌%◌}
use Prim.Native.String.{String}
use mathlib.Core.Bool.{Bool, true, false, ◌&&◌, ◌||◌}
use mathlib.Core.Option
use mathlib.Core.Option.{Option, none, some, or_else, get_or}
use bmk_dev.Base.Equality.{if◌then◌else◌, contains, nat_eq}
use bmk_dev.Base.Lists.{all, length}
use mathlib.Core.List.{List, [], ◌∷◌, ◌++◌, flat_map, reverse, map}
use bmk_dev.Base.Tests.{eqb, ltb, leb}

abbrev pub Text : Type 0
Text = List ℕ

-- A literal.
abbrev pub codes : String → Text
codes String.[] = []
codes (String.◌∷◌ c s) = code c ∷ codes s

-- `s.removeprefix(p)` where `s.startswith(p)`, and `none` where it does not.
abbrev pub strip_prefix : Text → Text → Option Text
strip_prefix [] s = some s
strip_prefix (c ∷ p) [] = none
strip_prefix (c ∷ p) (d ∷ s) = elim (eqb c d) [ true ↦ strip_prefix p s | false ↦ none ]

abbrev pub starts_with : Text → Text → Bool
starts_with s p = elim (strip_prefix p s) [ none ↦ false | some _ ↦ true ]

-- What stands behind the last occurrence of a separator, if it occurs.
abbrev pub find_last : Text → Text → Option Text
find_last sep [] = none
find_last sep (c ∷ s) = or_else (find_last sep s) (strip_prefix sep (c ∷ s))

-- `s.rsplit(sep, 1)[-1]`, for a separator that is not empty
abbrev pub after_last : Text → Text → Text
after_last sep s = get_or (find_last sep s) s

-- `s.partition(sep)[0]` where the separator occurs, and `none` where it does not.
abbrev pub before_first : Text → Text → Option Text
before_first sep [] = none
before_first sep (c ∷ s) =
    let rest = Option.map (λ (t : Text). c ∷ t) (before_first sep s) in
    if starts_with (c ∷ s) sep then some [] else rest

-- `str(n)`, with the digits `n` as fuel: a number has no more of them than its value and one.
abbrev decimal_loop : ℕ → ℕ → Text → Text
decimal_loop zero n acc = acc
decimal_loop (suc fuel) n acc =
    let rest = decimal_loop fuel (n / 10) ((b'0' + n % 10) ∷ acc) in
    if ltb n 10 then (b'0' + n) ∷ acc else rest

pub decimal : ℕ → Text
decimal n = decimal_loop (suc n) n []

abbrev pub is_digit : ℕ → Bool
is_digit c = leb b'0' c && leb c b'9'

abbrev number_loop : ℕ → Text → ℕ
number_loop n [] = n
number_loop n (c ∷ s) =
    let more = number_loop (n * 10 + (c - b'0')) s in if is_digit c then more else n

-- The number that the digits at the front of a text spell, if there is a digit.
abbrev pub leading_number : Text → Option ℕ
leading_number [] = none
leading_number (c ∷ s) = if is_digit c then some (number_loop 0 (c ∷ s)) else none

-- The digits at the front of a text, if there is one.
abbrev digits_loop : Text → Text
digits_loop [] = []
digits_loop (c ∷ s) = let more = digits_loop s in if is_digit c then c ∷ more else []

abbrev pub leading_digits : Text → Option Text
leading_digits [] = none
leading_digits (c ∷ s) = if is_digit c then some (digits_loop (c ∷ s)) else none

-- The group of `re.search(p + r"(\d+)", s)`; the digits are ASCII's.
abbrev pub search_digits : Text → Text → Option Text
search_digits p [] = none
search_digits p (c ∷ s) =
    or_else (elim (strip_prefix p (c ∷ s)) [ none ↦ none | some t ↦ leading_digits t ])
      (search_digits p s)

-- `shlex.quote`
abbrev is_safe : ℕ → Bool
is_safe c =
    is_digit c
    || (leb b'a' c && leb c b'z')
    || (leb b'A' c && leb c b'Z')
    || contains (codes "@%+=:,./-_") c

abbrev pub quote : Text → Text
quote [] = codes "''"
quote (c ∷ s) =
    if all is_safe (c ∷ s)
    then c ∷ s
    else codes "'"
      ++ flat_map (λ (d : ℕ). if eqb d 39 then codes "'\"'\"'" else d ∷ []) (c ∷ s)
      ++ codes "'"

-- The characters that `str.isspace` accepts, and those of them that end a line.
abbrev pub is_space : ℕ → Bool
is_space c =
    (leb 9 c && leb c 13)
    || (leb 28 c && leb c 32)
    || contains (133 ∷ 160 ∷ 5760 ∷ 8232 ∷ 8233 ∷ 8239 ∷ 8287 ∷ 12288 ∷ []) c
    || (leb 8192 c && leb c 8202)

abbrev pub ends_line : ℕ → Bool
ends_line c =
    (leb 10 c && leb c 13) || (leb 28 c && leb c 30) || contains (133 ∷ 8232 ∷ 8233 ∷ []) c

abbrev pub lstrip : Text → Text
lstrip [] = []
lstrip (c ∷ s) = let rest = lstrip s in if is_space c then rest else c ∷ s

-- `s.strip()`
abbrev pub strip : Text → Text
strip s = reverse (lstrip (reverse (lstrip s)))

-- The text before the first end of a line.
abbrev pub first_line : Text → Text
first_line [] = []
first_line (c ∷ s) = if ends_line c then [] else c ∷ first_line s

-- `s.split(p, 1)[1]` where `p` occurs, and `none` where it does not.
abbrev pub after_first : Text → Text → Option Text
after_first p [] = none
after_first p (c ∷ s) =
    let rest = after_first p s in elim (strip_prefix p (c ∷ s)) [ none ↦ rest | some t ↦ some t ]

-- `s.lower()` on ASCII letters.
abbrev pub lower : Text → Text
lower = map (λ (c : ℕ). if leb b'A' c && leb c b'Z' then c + 32 else c)

abbrev pub is_empty : Text → Bool
is_empty [] = true
is_empty (c ∷ s) = false

-- `s.endswith(p)`
abbrev pub ends_with : Text → Text → Bool
ends_with s p = starts_with (reverse s) (reverse p)

-- `p in s`
abbrev pub has_text : Text → Text → Bool
has_text p [] = is_empty p
has_text p (c ∷ s) = starts_with (c ∷ s) p || has_text p s

-- The parts between the line ends. Where `\r\n` stands there is one more, empty part than
-- `splitlines` has, and so at the end of a text that ends a line.
abbrev pub split_lines : Text → List Text
split_lines [] = [] ∷ []
split_lines (c ∷ s) = elim (split_lines s) [
  | [] ↦ []
  | line ∷ more ↦ if ends_line c then [] ∷ line ∷ more else (c ∷ line) ∷ more
]

-- `s.splitlines()`
abbrev pub splitlines : Text → List Text
splitlines [] = []
splitlines (c ∷ s) =
    let rest = splitlines s in
    if ends_line c
    then (if eqb c 13 && starts_with s (10 ∷ []) then rest else [] ∷ rest)
    else elim rest [ [] ↦ (c ∷ []) ∷ [] | line ∷ more ↦ (c ∷ line) ∷ more ]

-- `sep.join(parts)`
abbrev pub join : Text → List Text → Text
join sep [] = []
join sep (part ∷ []) = part
join sep (part ∷ next ∷ parts) = part ++ sep ++ join sep (next ∷ parts)

-- `s.split(sep)`, for a separator of one character
abbrev pub split_on : ℕ → Text → List Text
split_on sep [] = [] ∷ []
split_on sep (c ∷ s) = elim (split_on sep s) [
  | [] ↦ []
  | part ∷ parts ↦ if eqb c sep then [] ∷ part ∷ parts else (c ∷ part) ∷ parts
]

abbrev pub push_char : ℕ → List Text → List Text
push_char c [] = []
push_char c (part ∷ parts) = (c ∷ part) ∷ parts

-- The parts of `s.split(sep)`, where the first `n` characters belong to a separator.
abbrev pub split_from : Text → ℕ → Text → List Text
split_from sep n [] = [] ∷ []
split_from sep (suc n) (c ∷ s) = split_from sep n s
split_from sep zero (c ∷ s) = elim (starts_with (c ∷ s) sep) [
  | true ↦ [] ∷ split_from sep (length sep - 1) s
  | false ↦ push_char c (split_from sep zero s)
]

abbrev pub split_text : Text → Text → List Text
split_text sep s = split_from sep 0 s

-- `s.replace(a, b)`, for single characters
abbrev pub replace_char : ℕ → ℕ → Text → Text
replace_char a b = map (λ (c : ℕ). if eqb c a then b else c)

-- `s.removeprefix(p)`
abbrev pub remove_prefix : Text → Text → Text
remove_prefix p s = get_or (strip_prefix p s) s
