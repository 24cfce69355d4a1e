-- ===== src/Runners/TypeScript/Cases.antt =====
-- That the cases of a parameterised test have the name of the test.
use mathlib.Core.Option.{or_else}
use mathlib.Core.Bool.{true≢false}
use bmk_dev.Base.{
  ℕ, ◌||◌, true, false, none, some, [], ◌∷◌, ◌++◌, contains, list_eq, nat_eq, ◌==◌, ◌≡◌, refl, sym,
  ◌∙◌, arith, ap, all, inl, inr, eqb, contains-append, ==-cases,
}
use bmk_dev.Base.Text.{
  Text, codes, starts_with, is_digit, is_empty, strip_prefix, after_last, find_last,
}
use bmk_dev.Runners.TypeScript.{is_letter, fold_title, before_last, with_head, ts_function_of}
use bmk_dev.Runners.TypeScript.Titles.{fold_title-template, fold_title-case}

abbrev pub colon : ℕ
colon = b':'

-- A text without a colon holds no separator, also behind one colon.
no_separator : (s : Text) → contains s colon ≡ false → strip_prefix (codes "::") s ≡ none
no_separator [] h = refl
no_separator (c ∷ s) h = ground arith

no_second : (s : Text) → contains s colon ≡ false → strip_prefix (codes "::") (colon ∷ s) ≡ none
no_second [] h = refl
no_second (c ∷ s) h = ground arith

find_last-none : (s : Text) → contains s colon ≡ false → find_last (codes "::") s ≡ none
unfolding or_else
find_last-none [] h = refl
find_last-none (c ∷ s) h =
    rw (find_last, find_last-none s (ground arith), no_separator (c ∷ s) h) refl

before_last-none : (s : Text) → contains s colon ≡ false → before_last (codes "::") s ≡ none
before_last-none [] h = refl
before_last-none (c ∷ s) h =
    rw (before_last, before_last-none s (ground arith), starts_with, no_separator (c ∷ s) h) refl

module _ (leaf : Text) (plain : contains leaf colon ≡ false) where
  pub find_last-some : (h : Text) → find_last (codes "::") (h ++ (colon ∷ colon ∷ leaf)) ≡ some leaf
  unfolding or_else
  find_last-some [] = rw (find_last, find_last-none leaf plain, no_second leaf plain) refl
  find_last-some (c ∷ h) = rw (find_last, find_last-some h) refl

  pub before_last-some :
      (h : Text) → before_last (codes "::") (h ++ (colon ∷ colon ∷ leaf)) ≡ some h
  before_last-some [] =
      rw (before_last, before_last-none leaf plain, starts_with, no_second leaf plain) refl
  before_last-some (c ∷ h) = rw (before_last, before_last-some h) refl

  function_of-parts :
      (h : Text) → ts_function_of (h ++ (colon ∷ colon ∷ leaf)) ≡ with_head h (fold_title leaf)
  unfolding ts_function_of
  function_of-parts h = rw (ts_function_of, before_last-some h, after_last, find_last-some h) refl

digit-not_colon : (d : ℕ) → is_digit d ≡ true → (colon == d) ≡ false
digit-not_colon d h = elim (==-cases colon d) [
  | inl (_, same) ↦ absurd (true≢false (sym h ∙ ap is_digit (sym same)))
  | inr (f, _) ↦ f
]

letter-not_colon : (c : ℕ) → (is_letter c || eqb c b'#') ≡ true → (colon == c) ≡ false
letter-not_colon c h = elim (==-cases colon c) [
  | inl (_, same) ↦
      absurd (true≢false (sym h ∙ ap (λ (x : ℕ). is_letter x || eqb x b'#') (sym same)))
  | inr (f, _) ↦ f
]

digits-plain : (ds : Text) → all is_digit ds ≡ true → contains ds colon ≡ false
digits-plain [] h = refl
digits-plain (d ∷ ds) h =
    let here : is_digit d ≡ true = ground arith in
    rw (digit-not_colon d here) (digits-plain ds (ground arith))

-- The name of a template, of a stem without a colon, a space, `%` and a letter or `#`, is the name
-- of each of its cases, in which digits stand for them: a parameterised test is one function.
pub function_of-case :
    (h stem ds : Text) (c : ℕ)
    → contains stem colon ≡ false
    → (is_letter c || eqb c b'#') ≡ true
    → is_empty ds ≡ false
    → all is_digit ds ≡ true
    → ts_function_of (h ++ (colon ∷ colon ∷ stem ++ (b' ' ∷ ds)))
      ≡ ts_function_of (h ++ (colon ∷ colon ∷ stem ++ (b' ' ∷ b'%' ∷ c ∷ [])))
unfolding nat_eq
function_of-case h stem ds c plain letter full digits =
    let case_plain : contains (stem ++ (b' ' ∷ ds)) colon ≡ false =
      contains-append stem (b' ' ∷ ds) colon ∙ rw (plain, digits-plain ds digits) refl in
    let template_plain : contains (stem ++ (b' ' ∷ b'%' ∷ c ∷ [])) colon ≡ false =
      contains-append stem (b' ' ∷ b'%' ∷ c ∷ []) colon
      ∙ rw (plain, letter-not_colon c letter) refl in
    function_of-parts (stem ++ (b' ' ∷ ds)) case_plain h
    ∙ ap (λ (t : Text). with_head h t)
        (fold_title-case stem ds full digits ∙ sym (fold_title-template stem c letter))
    ∙ sym (function_of-parts (stem ++ (b' ' ∷ b'%' ∷ c ∷ [])) template_plain h)
