-- ===== src/Runners/Java/Methods.antt =====
-- That the cases of a parameterised method have the name of the method.
use mathlib.Core.List.{
  reverse, reverse-append, reverse-cons, reverse-reverse, append_assoc, append-nil,
}
use mathlib.Core.Bool.{true≢false}
use bmk_dev.Base.{
  ℕ, Bool, true, false, [], ◌∷◌, ◌++◌, contains, list_eq, nat_eq, ◌≡◌, refl, sym, ◌∙◌, arith, ap,
  all, inl, inr, contains-append, ==-cases,
}
use bmk_dev.Base.Text.{Text, strip, after_last}
use bmk_dev.Runners.TypeScript.{with_head, is_word}
use bmk_dev.Runners.TypeScript.Cases.{colon, find_last-some, before_last-some}
use bmk_dev.Runners.Java.{outside, drop_brackets, method_of, java_function_of}
use bmk_dev.Runners.Java.Names.{
  words-reverse, outside-words, in_signature, closes-signature, inside-signature,
  drop_brackets-words, drop_brackets-index,
}

-- A name of word characters, and a case of it.
method_of-words : (m : Text) → all is_word m ≡ true → method_of m ≡ strip m
unfolding method_of outside
method_of-words m h =
    let kept : outside m ≡ m =
      ap (λ (t : Text). outside t) (sym (append-nil m)) ∙ outside-words m [] h ∙ append-nil m in
    ap (λ (t : Text). strip (reverse (drop_brackets (reverse t)))) kept
    ∙ ap (λ (t : Text). strip (reverse t)) (drop_brackets-words (reverse m) (words-reverse m h))
    ∙ ap (λ (t : Text). strip t) (reverse-reverse m)

abbrev case_of : Text → Text → Text → Text
case_of m signature index = m ++ (b'(' ∷ signature ++ (b')' ∷ b'[' ∷ index ++ (b']' ∷ [])))

outside-case :
    (m signature index : Text)
    → all is_word m ≡ true
    → all in_signature signature ≡ true
    → all is_word index ≡ true
    → outside (case_of m signature index) ≡ m ++ (b'[' ∷ index ++ (b']' ∷ []))
unfolding outside
outside-case m signature index hm hs hi =
    let tail = b'[' ∷ index ++ (b']' ∷ []) in
    let closed = closes-signature signature tail hs in
    let dropped : outside (b'(' ∷ signature ++ (b')' ∷ tail)) ≡ outside tail =
      rw (outside, closed) (inside-signature signature tail hs) in
    outside-words m (b'(' ∷ signature ++ (b')' ∷ tail)) hm
    ∙ ap (λ (t : Text). m ++ t)
        (dropped ∙ ap (λ (t : Text). b'[' ∷ t) (outside-words index (b']' ∷ []) hi))

reverse-indexed :
    (m index : Text)
    → reverse (m ++ (b'[' ∷ index ++ (b']' ∷ []))) ≡ b']' ∷ reverse index ++ (b'[' ∷ reverse m)
reverse-indexed m index =
    reverse-append m (b'[' ∷ index ++ (b']' ∷ []))
    ∙ ap (λ (t : Text). t ++ reverse m)
        (reverse-cons b'[' (index ++ (b']' ∷ []))
          ∙ ap (λ (t : Text). t ++ (b'[' ∷ [])) (reverse-append index (b']' ∷ [])))
    ∙ append_assoc (b']' ∷ reverse index) (b'[' ∷ []) (reverse m)

method_of-case :
    (m signature index : Text)
    → all is_word m ≡ true
    → all in_signature signature ≡ true
    → all is_word index ≡ true
    → method_of (case_of m signature index) ≡ strip m
unfolding method_of
method_of-case m signature index hm hs hi =
    ap (λ (t : Text). strip (reverse (drop_brackets (reverse t))))
      (outside-case m signature index hm hs hi)
    ∙ ap (λ (t : Text). strip (reverse (drop_brackets t))) (reverse-indexed m index)
    ∙ ap (λ (t : Text). strip (reverse t))
        (drop_brackets-index (reverse index) (reverse m) (words-reverse index hi)
          (words-reverse m hm))
    ∙ ap (λ (t : Text). strip t) (reverse-reverse m)

function_of-parts :
    (h leaf : Text)
    → contains leaf colon ≡ false
    → java_function_of (h ++ (colon ∷ colon ∷ leaf)) ≡ with_head h (method_of leaf)
unfolding java_function_of
function_of-parts h leaf plain =
    rw (java_function_of, before_last-some leaf plain h, after_last, find_last-some leaf plain h)
      refl

plain-all : (p : ℕ → Bool) (s : Text) → p colon ≡ false → all p s ≡ true → contains s colon ≡ false
plain-all p [] n h = refl
plain-all p (c ∷ s) n h = elim (==-cases colon c) [
  | inl (_, same) ↦
      let here : p c ≡ true = ground arith in absurd (true≢false (sym here ∙ ap p (sym same) ∙ n))
  | inr (f, _) ↦ rw f (plain-all p s n (ground arith))
]

-- A case that the report names by its method, a signature in parentheses and an index in brackets
-- has the function that the method's own id has: a parameterised method is one function. The method
-- and the index are of word characters, and the signature closes no parenthesis, ends no line and
-- holds no colon.
pub function_of-parameterised :
    (h m signature index : Text)
    → all is_word m ≡ true
    → all in_signature signature ≡ true
    → all is_word index ≡ true
    → java_function_of
        (h ++ (colon ∷ colon ∷ m ++ (b'(' ∷ signature ++ (b')' ∷ b'[' ∷ index ++ (b']' ∷ [])))))
      ≡ java_function_of (h ++ (colon ∷ colon ∷ m))
unfolding nat_eq
function_of-parameterised h m signature index hm hs hi =
    let tail = b')' ∷ b'[' ∷ index ++ (b']' ∷ []) in
    let index_plain : contains tail colon ≡ false =
      contains-append index (b']' ∷ []) colon ∙ rw (plain-all is_word index refl hi) refl in
    let signature_plain : contains (signature ++ tail) colon ≡ false =
      contains-append signature tail colon
      ∙ rw (plain-all in_signature signature refl hs, index_plain) refl in
    let m_plain = plain-all is_word m refl hm in
    let plain : contains (case_of m signature index) colon ≡ false =
      contains-append m (b'(' ∷ signature ++ tail) colon ∙ rw (m_plain, signature_plain) refl in
    function_of-parts h (case_of m signature index) plain
    ∙ ap (λ (t : Text). with_head h t)
        (method_of-case m signature index hm hs hi ∙ sym (method_of-words m hm))
    ∙ sym (function_of-parts h m m_plain)
