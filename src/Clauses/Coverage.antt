-- ===== src/Clauses/Coverage.antt =====
-- harness/clause_span_coverage.py: what of the prose is quoted, and what `run` makes of it.
pub mod Marks
pub mod Occurrences
pub mod Exact
pub mod Gaps
pub mod Placed
pub mod Reports
use bmk_dev.Base.{
  ℕ, zero, suc, ◌+◌, ◌*◌, ◌/◌, Bool, true, false, ◌&&◌, ◌||◌, not, Option, none, some, List, [],
  ◌∷◌, ◌++◌, map, contains, list_eq, nat_eq, ◌==◌, if◌then◌else◌, is_nil, keep, any, ltb, leb, eqb,
  length, take, drop, count_if, sum_of, ap,
}
use mathlib.Core.Option
use mathlib.Core.Option.{get_or}
use mathlib.Core.List.{flat_map}
use bmk_dev.Base.Text.{
  Text, codes, strip, is_empty, is_space, is_digit, has_text, starts_with, strip_prefix, join,
}
use bmk_dev.Base.Floats.{Floats}
use bmk_dev.Clauses.Rows.{
  Row, read_row, is_row, is_row_start, after_id, front, behind, some_of, norm,
}
use bmk_dev.Clauses.Prose.{prose_units}

-- `load_quotes`: the rows, and the number of the malformed ones.
unfoldable pub load_quotes : List Text → List Row × ℕ
load_quotes [] = ([], 0)
load_quotes (line ∷ lines) =
    let rest = load_quotes lines in
    if not (is_row_start after_id line)
    then rest
    else if not (is_row after_id line)
    then (rest.0, rest.1 + 1)
    else (read_row after_id line ∷ rest.0, rest.1)

-- `spans`: where the text of a unit stands in the prose.
pub record UnitSpan : Type 0 where
  pub section : Text
  pub start : ℕ
  pub text : Text

-- The loop over the units, with `cursor` and with whether `parts` is not empty.
unfoldable pub spans_loop : ℕ → Bool → List (Text × Text) → List UnitSpan
spans_loop cursor has_parts [] = []
spans_loop cursor has_parts ((section, raw) ∷ units) =
    let n = norm raw in
    let start = if has_parts then cursor + 1 else cursor in
    let skipped = spans_loop cursor has_parts units in
    let rest = spans_loop (start + length n) true units in
    if is_empty n then skipped else record { section = section; start = start; text = n } ∷ rest

abbrev pub prose_of : List UnitSpan → Text
prose_of spans = join (codes " ") (map (λ (s : UnitSpan). s.text) spans)

-- The first occurrence of a quote in a text.
unfoldable pub first_at : Text → Text → Option ℕ
first_at q [] = if is_empty q then some 0 else none
first_at q (c ∷ s) =
    let rest = Option.map (λ (n : ℕ). n + 1) (first_at q s) in
    if starts_with (c ∷ s) q then some 0 else rest

-- `prose.find(q, i)`
abbrev pub find : Text → Text → ℕ → Option ℕ
find q prose i = Option.map (λ (n : ℕ). i + n) (first_at q (drop i prose))

-- `covered[i:i + n] = b"\x01" * n`, inside the array
unfoldable pub mark : ℕ → ℕ → List Bool → List Bool
mark i n [] = []
mark zero zero (b ∷ bs) = b ∷ bs
mark zero (suc n) (b ∷ bs) = true ∷ mark zero n bs
mark (suc i) n (b ∷ bs) = b ∷ mark i n bs

-- The loop over the occurrences, on fuel: the positions grow, so that one round more than the
-- prose has characters is enough.
unfoldable pub find_loop : ℕ → Text → Text → ℕ → List Bool → List Bool
find_loop zero q prose i covered = covered
find_loop (suc fuel) q prose i covered = elim (find q prose i) [
  | none ↦ covered
  | some j ↦ find_loop fuel q prose (j + 1) (mark j (length q) covered)
]

-- The loop over the quotes.
unfoldable pub cover_loop : Text → List Text → List Bool → List Bool
cover_loop prose [] covered = covered
cover_loop prose (q ∷ quotes) covered =
    cover_loop prose quotes
      (if is_empty q then covered else find_loop (suc (length prose)) q prose 0 covered)

-- `bytearray(len(prose))`
abbrev pub nothing_covered : Text → List Bool
nothing_covered = map (λ (c : ℕ). false)

abbrev pub cover : Text → List Text → List Bool
cover prose quotes = cover_loop prose quotes (nothing_covered prose)

-- A run that has ended.
abbrev pub ended_run : ℕ → Text → List Text
ended_run min_run run = let frag = strip run in if leb min_run (length frag) then frag ∷ [] else []

-- The two loops over a segment: between the runs, and in a run with its text so far.
unfoldable mutual
  pub gaps_loop : ℕ → List Bool → Text → List Text
  gaps_loop min_run (true ∷ seg) (c ∷ n) = gaps_loop min_run seg n
  gaps_loop min_run (false ∷ seg) (c ∷ n) = run_loop min_run (c ∷ []) seg n
  gaps_loop min_run _ _ = []

  pub run_loop : ℕ → Text → List Bool → Text → List Text
  run_loop min_run run (true ∷ seg) (c ∷ n) = ended_run min_run run ++ gaps_loop min_run seg n
  run_loop min_run run (false ∷ seg) (c ∷ n) = run_loop min_run (run ++ (c ∷ [])) seg n
  run_loop min_run run _ _ = ended_run min_run run

pub record Result : Type 0 where
  pub section : Text
  pub text : Text
  pub percent : ℕ
  pub gaps : List Text

abbrev pub segment : List Bool → UnitSpan → List Bool
segment covered span = take (length span.text) (drop span.start covered)

abbrev pub result_of : ℕ → List Bool → UnitSpan → Result
result_of min_run covered span =
    let seg = segment covered span in
    record {
      section = span.section;
      text = span.text;
      percent = if is_nil seg then 100 else 100 * count_if (λ b. b) seg / length seg;
      gaps = gaps_loop min_run seg span.text;
    }

-- `LABEL_ONLY`
abbrev pub is_label : Text → Bool
is_label gap =
    let numbered = behind is_digit gap in
    let dotted = get_or (strip_prefix (codes ".") numbered) numbered in
    elim (strip_prefix (codes "**") (behind is_space dotted)) [
      | none ↦ false
      | some bold ↦ elim (some_of (λ (c : ℕ). not (eqb c b'*')) bold) [
        | none ↦ false
        | some rest ↦ elim (strip_prefix (codes "**") rest) [
          | none ↦ false
          | some tail ↦ is_empty (behind (λ (c : ℕ). is_space c || contains (codes ".:") c) tail)
        ]
      ]
    ]

-- `classify(gap) == "prose"`
abbrev pub is_prose : Text → Bool
is_prose gap = not (is_label (strip gap))

module _ (F : Floats) (wanted : Text → Bool) (min_run : ℕ) where
  -- `analyse`, from the text and the blocks of the specification and the lines of the clauses.
  abbrev pub results : List Text → List Text → List Result
  results blocks lines =
      let spans = spans_loop 0 false (prose_units wanted blocks) in
      let quotes = map (λ (row : Row). row.quote) (load_quotes lines).0 in
      map (result_of min_run (cover (prose_of spans) quotes)) spans

  abbrev pub fraction : Text → List Row → F.Float
  fraction spec rows =
      if is_nil rows
      then F.ratio 0 1
      else F.ratio (count_if (λ (row : Row). has_text row.quote (norm spec)) rows) (length rows)

  abbrev pub has_prose_gap : Result → Bool
  has_prose_gap result = any is_prose result.gaps

  -- The exit code of `run`.
  unfoldable pub run : F.Float → Text → List Text → List Text → ℕ
  run min_verbatim spec blocks lines =
      if F.ltb (fraction spec (load_quotes lines).0) min_verbatim
      then 2
      else if any has_prose_gap (results blocks lines)
      then 1
      else 0
