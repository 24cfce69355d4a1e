-- ===== src/Runners/TypeScript/Titles.antt =====
-- What the substitutions at the end of a title make of a template and of a case.
use mathlib.Core.List.{reverse, reverse-append, reverse-cons, append_assoc}
use mathlib.Core.Option.{or_else}
use bmk_dev.Base.{
  ℕ, ◌||◌, Bool, true, false, none, some, [], ◌∷◌, ◌++◌, list_eq, nat_eq, ◌≡◌, refl, ◌∙◌, arith, ap,
  all, all-append, Bool-cases, inl, inr, eqb,
}
use mathlib.Core.Bool.{true≢false}
use bmk_dev.Base.Text.{Text, is_digit, is_space, is_empty}
use bmk_dev.Runners.TypeScript.{
  rest_of, past_some, is_letter, is_word, trim, drop_index, drop_percent, drop_dollar, drop_number,
  sub_end, drop_case, fold_title,
}

digit-not_space : (c : ℕ) → is_digit c ≡ true → is_space c ≡ false
digit-not_space c h = ground arith

letter-not_space : (c : ℕ) → (is_letter c || eqb c b'#') ≡ true → is_space c ≡ false
letter-not_space c h = ground arith

digit-not_letter : (c : ℕ) → is_digit c ≡ true → (is_letter c || eqb c b'#') ≡ false
digit-not_letter c h = ground arith

digit-is_word : (c : ℕ) → is_digit c ≡ true → is_word c ≡ true
digit-is_word c h = ground arith

-- A part whose characters pass is left behind.
rest_of-all :
    (p : ℕ → Bool) (s : Text) (x : ℕ) (t : Text)
    → all p s ≡ true
    → p x ≡ false
    → rest_of p (s ++ (x ∷ t)) ≡ x ∷ t
rest_of-all p [] x t h n = rw n refl
rest_of-all p (c ∷ s) x t h n =
    let here : p c ≡ true = ground arith in rw here (rest_of-all p s x t (ground arith) n)

trim-trim : (s : Text) → trim (trim s) ≡ trim s
trim-trim [] = refl
trim-trim (c ∷ s) = elim (Bool-cases (is_space c)) [
  | inl t ↦ rw t (trim-trim s)
  | inr f ↦ rw f (rw f refl)
]

-- The title turned around, with the substitutions.
abbrev folded : Text → Text
folded s = trim (sub_end drop_case (sub_end drop_index s))

-- Where the last character is no bracket, the first substitution does nothing.
sub_index :
    (c : ℕ) (s : Text)
    → is_space c ≡ false
    → eqb b']' c ≡ false
    → sub_end drop_index (c ∷ s) ≡ c ∷ s
sub_index c s space bracket = rw (sub_end, space, bracket) refl

folded_template :
    (c : ℕ) (r : Text) → (is_letter c || eqb c b'#') ≡ true → folded (c ∷ b'%' ∷ b' ' ∷ r) ≡ trim r
unfolding or_else
folded_template c r h =
    let space = letter-not_space c h in
    let bracket : eqb b']' c ≡ false = ground arith in
    ap (λ (t : Text). trim (sub_end drop_case t)) (sub_index c (b'%' ∷ b' ' ∷ r) space bracket)
    ∙ rw (sub_end, space, drop_case, drop_percent, h) (trim-trim r)

all-is_word : (ds : Text) → all is_digit ds ≡ true → all is_word ds ≡ true
all-is_word [] h = refl
all-is_word (d ∷ ds) h =
    let here : is_digit d ≡ true = ground arith in
    rw (digit-is_word d here) (all-is_word ds (ground arith))

-- What the last two alternatives make of digits behind a space.
module _ (d : ℕ) (ds r : Text) (h : is_digit d ≡ true) (hs : all is_digit ds ≡ true) where
  abbrev digits : Text
  digits = d ∷ (ds ++ (b' ' ∷ r))

  past_digits :
      (p : ℕ → Bool)
      → p d ≡ true
      → all p ds ≡ true
      → p b' ' ≡ false
      → past_some p digits ≡ some (b' ' ∷ r)
  past_digits p here later space =
      rw (past_some, here) (ap some (rest_of-all p ds b' ' r later space))

  drop_dollar-digits : drop_dollar digits ≡ none
  drop_dollar-digits =
      rw (drop_dollar, past_digits is_word (digit-is_word d h) (all-is_word ds hs) refl) refl

  drop_number-digits : drop_number digits ≡ some (b' ' ∷ r)
  drop_number-digits = rw (drop_number, past_digits is_digit h hs refl) refl

  folded_case : folded digits ≡ trim r
  unfolding or_else
  folded_case =
      let space = digit-not_space d h in
      let bracket : eqb b']' d ≡ false = ground arith in
      let found : drop_case digits ≡ some (b' ' ∷ r) =
        rw (drop_case, drop_dollar-digits, drop_number-digits)
          (rw (drop_percent, digit-not_letter d h) refl) in
      let kept : trim digits ≡ digits = rw space refl in
      ap (λ (t : Text). trim (sub_end drop_case t)) (sub_index d (ds ++ (b' ' ∷ r)) space bracket)
      ∙ rw (sub_end, kept, found) (trim-trim r)

-- The title of a template and the title of its case, of a stem and digits that are not empty, fold
-- to the same text.
pub fold_title-template :
    (stem : Text) (c : ℕ)
    → (is_letter c || eqb c b'#') ≡ true
    → fold_title (stem ++ (b' ' ∷ b'%' ∷ c ∷ [])) ≡ reverse (trim (reverse stem))
unfolding fold_title
fold_title-template stem c h =
    ap (λ (t : Text). reverse (folded t)) (reverse-append stem (b' ' ∷ b'%' ∷ c ∷ []))
    ∙ ap (λ (t : Text). reverse t) (folded_template c (reverse stem) h)

all-reverse : (ds : Text) → all is_digit ds ≡ true → all is_digit (reverse ds) ≡ true
all-reverse [] h = refl
all-reverse (d ∷ ds) h =
    ap (λ (t : Text). all is_digit t) (reverse-cons d ds)
    ∙ all-append is_digit (reverse ds) (d ∷ [])
    ∙ ground (arith, all-reverse ds)

fold_reversed :
    (r rev : Text)
    → is_empty rev ≡ false
    → all is_digit rev ≡ true
    → folded (rev ++ (b' ' ∷ r)) ≡ trim r
fold_reversed r [] full h = absurd (true≢false full)
fold_reversed r (d ∷ ds) full h = folded_case d ds r (ground arith) (ground arith)

last_full : (s : Text) (c : ℕ) → is_empty (s ++ (c ∷ [])) ≡ false
last_full [] c = refl
last_full (d ∷ s) c = refl

reverse-full : (s : Text) → is_empty s ≡ false → is_empty (reverse s) ≡ false
reverse-full [] h = absurd (true≢false h)
reverse-full (c ∷ s) h = ap (λ (t : Text). is_empty t) (reverse-cons c s) ∙ last_full (reverse s) c

pub fold_title-case :
    (stem ds : Text)
    → is_empty ds ≡ false
    → all is_digit ds ≡ true
    → fold_title (stem ++ (b' ' ∷ ds)) ≡ reverse (trim (reverse stem))
unfolding fold_title
fold_title-case stem ds full h =
    let turned : reverse (stem ++ (b' ' ∷ ds)) ≡ reverse ds ++ (b' ' ∷ reverse stem) =
      reverse-append stem (b' ' ∷ ds)
      ∙ ap (λ (t : Text). t ++ reverse stem) (reverse-cons b' ' ds)
      ∙ append_assoc (reverse ds) (b' ' ∷ []) (reverse stem) in
    ap (λ (t : Text). reverse (folded t)) turned
    ∙ ap (λ (t : Text). reverse t)
        (fold_reversed (reverse stem) (reverse ds) (reverse-full ds full) (all-reverse ds h))
