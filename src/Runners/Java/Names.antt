-- ===== src/Runners/Java/Names.antt =====
-- What the substitutions of a method's name do to word characters, signatures and indices.
use mathlib.Core.List.{reverse, reverse-cons, append-nil}
use mathlib.Core.Option.{or_else}
use bmk_dev.Base.{
  ℕ, ◌&&◌, Bool, true, false, not, none, some, [], ◌∷◌, ◌++◌, list_eq, nat_eq, ◌≡◌, refl, ◌∙◌,
  arith, ap, all, all-append, eqb,
}
use bmk_dev.Base.Text.{Text, codes, is_space, strip_prefix, find_last}
use bmk_dev.Runners.TypeScript.{rest_of, is_word}
use bmk_dev.Runners.Java.{closes, outside, inside, before_bracket, drop_brackets}

-- What a word character is not.
word-not_open : (c : ℕ) → is_word c ≡ true → eqb c b'(' ≡ false
word-not_open c h = ground arith

word-not_bracket :
    (c : ℕ) → is_word c ≡ true → (eqb c b']' ≡ false) × (eqb b']' c ≡ false) × (eqb b'[' c ≡ false)
word-not_bracket c h = ground arith

word-not_space : (c : ℕ) → is_word c ≡ true → is_space c ≡ false
word-not_space c h = ground arith

pub words-reverse : (s : Text) → all is_word s ≡ true → all is_word (reverse s) ≡ true
words-reverse [] h = refl
words-reverse (c ∷ s) h =
    ap (λ (t : Text). all is_word t) (reverse-cons c s)
    ∙ all-append is_word (reverse s) (c ∷ [])
    ∙ ground (arith, words-reverse s)

pub outside-words : (s t : Text) → all is_word s ≡ true → outside (s ++ t) ≡ s ++ outside t
unfolding outside
outside-words [] t h = refl
outside-words (c ∷ s) t h =
    let here : is_word c ≡ true = ground arith in
    rw (word-not_open c here) (ap (λ (r : Text). c ∷ r) (outside-words s t (ground arith)))

-- A character of a signature: it does not close the parenthesis or end the line.
abbrev pub in_signature : ℕ → Bool
in_signature c = not (eqb c b')') && not (eqb c 10) && not (eqb c b':')

pub closes-signature : (s t : Text) → all in_signature s ≡ true → closes (s ++ (b')' ∷ t)) ≡ true
closes-signature [] t h = refl
closes-signature (c ∷ s) t h = ground (arith, closes-signature s t)

pub inside-signature :
    (s t : Text) → all in_signature s ≡ true → inside (s ++ (b')' ∷ t)) ≡ outside t
unfolding outside
inside-signature [] t h = refl
inside-signature (c ∷ s) t h =
    let here : eqb c b')' ≡ false = ground arith in rw here (inside-signature s t (ground arith))

find_last-words : (s : Text) → all is_word s ≡ true → find_last (codes "[") s ≡ none
unfolding or_else
find_last-words [] h = refl
find_last-words (c ∷ s) h =
    let here : is_word c ≡ true = ground arith in
    let (_, _, bracket) = word-not_bracket c here in
    rw (find_last, find_last-words s (ground arith), strip_prefix, bracket) refl

find_last-bracket :
    (s t : Text) → all is_word t ≡ true → find_last (codes "[") (s ++ (b'[' ∷ t)) ≡ some t
unfolding or_else
find_last-bracket [] t h = rw (find_last, find_last-words t h) refl
find_last-bracket (c ∷ s) t h = rw (find_last, find_last-bracket s t h) refl

abbrev no_bracket : ℕ → Bool
no_bracket c = not (eqb c b']')

before_bracket-all : (s : Text) → all no_bracket s ≡ true → before_bracket s ≡ s
before_bracket-all [] h = refl
before_bracket-all (c ∷ s) h =
    let here : eqb c b']' ≡ false = ground arith in
    rw here (ap (λ (r : Text). c ∷ r) (before_bracket-all s (ground arith)))

rest_of-nothing : (p : ℕ → Bool) (s : Text) → all p s ≡ true → rest_of p s ≡ []
rest_of-nothing p [] h = refl
rest_of-nothing p (c ∷ s) h =
    let here : p c ≡ true = ground arith in rw here (rest_of-nothing p s (ground arith))

words-no_bracket : (s : Text) → all is_word s ≡ true → all no_bracket s ≡ true
words-no_bracket [] h = refl
words-no_bracket (c ∷ s) h =
    let here : is_word c ≡ true = ground arith in
    rw (word-not_bracket c here).0 (words-no_bracket s (ground arith))

pub drop_brackets-words : (s : Text) → all is_word s ≡ true → drop_brackets s ≡ s
drop_brackets-words [] h = refl
drop_brackets-words (c ∷ s) h =
    let here : is_word c ≡ true = ground arith in
    let (_, bracket, _) = word-not_bracket c here in
    rw (drop_brackets, word-not_space c here, bracket) refl

pub drop_brackets-index :
    (index s : Text)
    → all is_word index ≡ true
    → all is_word s ≡ true
    → drop_brackets (b']' ∷ index ++ (b'[' ∷ s)) ≡ s
unfolding nat_eq
drop_brackets-index index s hi hs =
    let u = index ++ (b'[' ∷ s) in
    let free : all no_bracket u ≡ true =
      all-append no_bracket index (b'[' ∷ s)
      ∙ rw (words-no_bracket index hi, words-no_bracket s hs) refl in
    let found : find_last (codes "[") (before_bracket u) ≡ some s =
      ap (λ (t : Text). find_last (codes "[") t) (before_bracket-all u free)
      ∙ find_last-bracket index s hs in
    let rest : rest_of no_bracket u ≡ [] = rest_of-nothing no_bracket u free in
    rw (drop_brackets, found, rest) (append-nil s)
