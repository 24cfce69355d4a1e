-- ===== src/Clauses/Verified.antt =====
-- What the check of the quotes says where it ends with 0.
use mathlib.Core.Path.{subst}
use bmk_dev.Base.{
  ℕ, ◌+◌, ◌++◌, map, ap, Bool, true, false, ◌||◌, not, some, List, [], ◌∷◌, ◌≡◌, refl, sym, ◌∙◌,
  arith, contains, list_eq, nat_eq, is_nil, keep, all, if◌then◌else◌, Bool-cases, Option-cases, inl,
  inr,
}
use bmk_dev.Base.Text.{Text, codes, starts_with, has_text}
use bmk_dev.Clauses.Rows.{Row, norm, row_mark, is_row, read_row}
use bmk_dev.Clauses.Verify.{
  after_family, clauses_loop, family, failed, is_verbatim, dupes_loop, verify,
}

-- The lines that begin like a clause of the family, with the clause that is read from each.
abbrev pub clause_lines : Text → List Text → List Text
clause_lines fam = keep (λ line. starts_with line (row_mark ++ fam ++ codes "-"))

abbrev pub clause : Text → Text → Row
clause fam line = read_row (after_family fam) line

-- The identifiers are different, and none is among those before.
abbrev pub AreDistinct : List Text → List Row → Type 0
AreDistinct seen [] = Unit
AreDistinct seen (row ∷ rows) = (contains seen row.id ≡ false) × AreDistinct (row.id ∷ seen) rows

abbrev entry_row : ℕ × Row → Row
entry_row entry = entry.1

dupes_loop-AreDistinct :
    (seen : List Text) (rows : List (ℕ × Row))
    → dupes_loop seen rows ≡ []
    → AreDistinct seen (map entry_row rows)
unfolding dupes_loop
dupes_loop-AreDistinct seen [] h = tt
dupes_loop-AreDistinct seen ((n, row) ∷ rows) h = elim (Bool-cases (contains seen row.id)) [
  | inl t ↦ absurd (ground arith)
  | inr f ↦ (f, dupes_loop-AreDistinct (row.id ∷ seen) rows (ground arith))
]

-- Where no line is malformed, the rows are those of the lines that begin like a clause.
clauses_loop-rows :
    (fam : Text) (n : ℕ) (lines : List Text)
    → (clauses_loop fam n lines).malformed ≡ []
    → (map entry_row (clauses_loop fam n lines).rows ≡ map (clause fam) (clause_lines fam lines))
      × (all (is_row (after_family fam)) (clause_lines fam lines) ≡ true)
unfolding clauses_loop
clauses_loop-rows fam n [] h = (refl, refl)
clauses_loop-rows fam n (line ∷ lines) h =
    elim (Bool-cases (starts_with line (row_mark ++ fam ++ codes "-"))) [
      | inr other ↦ rw other (clauses_loop-rows fam (n + 1) lines (ground arith))
      | inl begins ↦ elim (Bool-cases (is_row (after_family fam) line)) [
        | inr bad ↦ absurd (ground arith)
        | inl good ↦
            let (rows, formed) = clauses_loop-rows fam (n + 1) lines (ground arith) in
            rw (begins, good)
              (ap (λ (l : List Row). read_row (after_family fam) line ∷ l) rows, formed)
      ]
    ]

all-map :
    {A B : Type 0} (p : B → Bool) (f : A → B) (xs : List A)
    → all p (map f xs) ≡ all (λ (x : A). p (f x)) xs
all-map p f [] = refl
all-map p f (x ∷ xs) = ground (arith, all-map p f xs)

keep_nothing :
    {A : Type 0} (p : A → Bool) (xs : List A)
    → keep (λ (x : A). not (p x)) xs ≡ []
    → all p xs ≡ true
keep_nothing p [] h = refl
keep_nothing p (x ∷ xs) h = elim (Bool-cases (p x)) [
  | inl t ↦ rw t (keep_nothing p xs (ground arith))
  | inr f ↦ absurd (ground arith)
]

is_nil-eq : {A : Type 0} (xs : List A) → is_nil xs ≡ true → xs ≡ []
is_nil-eq [] h = refl
is_nil-eq (x ∷ xs) h = absurd cc

abbrev code_of : Bool → ℕ
code_of b = if b then 1 else 0

all_nil :
    (a b c : Bool) → code_of (not a || not b || not c) ≡ 0 → (a ≡ true) × (b ≡ true) × (c ≡ true)
all_nil a b c h = ground arith

-- Where the check of a file of clauses ends with 0, some row names a family, each line of the file
-- that begins like a clause of this family is one, its quote stands in the normalised
-- specification, and no two of these lines have one identifier.
pub verify-passes :
    (spec : Text) (lines : List Text)
    → verify spec lines ≡ 0
    → (fam : Text) × (family lines ≡ some fam)
      × (all (is_row (after_family fam)) (clause_lines fam lines) ≡ true)
      × (all (λ line. has_text (clause fam line).quote (norm spec)) (clause_lines fam lines) ≡ true)
      × AreDistinct [] (map (clause fam) (clause_lines fam lines))
unfolding verify
verify-passes spec lines h = elim (Option-cases (family lines)) [
  | inl n ↦
      let fails : verify spec lines ≡ 1 = rw (verify, n) refl in absurd (omega (arith, fails, h))
  | inr (fam, e) ↦
      let c = clauses_loop fam 1 lines in
      let bad = failed (norm spec) c.rows in
      let twice = dupes_loop [] c.rows in
      let test : code_of (not (is_nil bad) || not (is_nil c.malformed) || not (is_nil twice)) ≡ 0 =
        sym (rw (verify, e) refl) ∙ h in
      let (quoted, formed, single) =
        all_nil (is_nil bad) (is_nil c.malformed) (is_nil twice) test in
      let (rows, shaped) = clauses_loop-rows fam 1 lines (is_nil-eq c.malformed formed) in
      let verbatim : all (is_verbatim (norm spec)) (map entry_row c.rows) ≡ true =
        all-map (is_verbatim (norm spec)) entry_row c.rows
        ∙ keep_nothing (λ (entry : ℕ × Row). is_verbatim (norm spec) entry.1) c.rows
            (is_nil-eq bad quoted) in
      (
        fam,
        e,
        shaped,
        sym (all-map (is_verbatim (norm spec)) (clause fam) (clause_lines fam lines))
            ∙ ap (λ (l : List Row). all (is_verbatim (norm spec)) l) (sym rows)
            ∙ verbatim,
        subst (λ (l : List Row). AreDistinct [] l) rows
            (dupes_loop-AreDistinct [] c.rows (is_nil-eq twice single)),
      )
]
