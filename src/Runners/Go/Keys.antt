-- ===== src/Runners/Go/Keys.antt =====
-- The keys of the Go runner's tests.
use mathlib.Core.Option.{or_else}
use bmk_dev.Base.{
  ℕ, true, false, none, some, [], ◌∷◌, ◌++◌, ◌≡◌, refl, ap, contains, nat_eq, list_eq, ==-cases,
  ◌==◌, inl, inr, arith, contains-append,
}
use bmk_dev.Base.Text.{Text, codes, starts_with, before_first, strip_prefix}
use bmk_dev.Runners.Go.{function_of, last_split, parent_of}

no_separator : (c : ℕ) (s : Text) → (b':' == c) ≡ false → strip_prefix (codes "::") (c ∷ s) ≡ none
no_separator c s h = ground arith

single_colon : (s : Text) → contains s b':' ≡ false → strip_prefix (codes "::") (b':' ∷ s) ≡ none
single_colon [] h = refl
single_colon (c ∷ s) h = ground arith

last_split-none : (s : Text) → contains s b':' ≡ false → last_split (codes "::") s ≡ none
unfolding or_else
last_split-none [] h = refl
last_split-none (c ∷ s) h =
    let other : (b':' == c) ≡ false = ground arith in
    rw (last_split-none s (ground arith), no_separator c s other) refl

-- Behind the last separator there is no colon, so that part is what the separator splits off.
pub last_split-append :
    (front back : Text)
    → contains back b':' ≡ false
    → last_split (codes "::") (front ++ codes "::" ++ back) ≡ some (front, back)
unfolding or_else
last_split-append [] back h = rw (last_split-none back h, single_colon back h) refl
last_split-append (c ∷ front) back h = rw (last_split-append front back h) refl

-- The part before the first slash, with and without one.
slash_free : (c : ℕ) (s : Text) → (b'/' == c) ≡ false → starts_with (c ∷ s) (codes "/") ≡ false
slash_free c s h = ground arith

before_first-slash :
    (n case : Text)
    → contains n b'/' ≡ false
    → (before_first (codes "/") n ≡ none)
      × (before_first (codes "/") (n ++ codes "/" ++ case) ≡ some n)
before_first-slash [] case h = (refl, refl)
before_first-slash (c ∷ n) case h =
    let other : (b'/' == c) ≡ false = ground arith in
    let (plain, cut) = before_first-slash n case (ground arith) in
    (
      rw (slash_free c n other, plain) refl,
      rw (slash_free c (n ++ codes "/" ++ case) other, cut) refl,
    )

-- The key of an id of a package.
pub function_of-id :
    (c : ℕ) (pkg n : Text)
    → contains n b':' ≡ false
    → function_of ((c ∷ pkg) ++ codes "::" ++ n) ≡ (c ∷ pkg) ++ codes "::" ++ parent_of n
unfolding function_of
function_of-id c pkg n h = rw (function_of, last_split-append (c ∷ pkg) n h) refl

-- A subtest of a test in a package, however deep, has the key of its test, where no colon stands in
-- its name; and the test's id is its own key.
pub function_of-subtest :
    (c : ℕ) (pkg n case : Text)
    → contains n b':' ≡ false
    → contains n b'/' ≡ false
    → contains case b':' ≡ false
    → (function_of ((c ∷ pkg) ++ codes "::" ++ (n ++ codes "/" ++ case))
        ≡ (c ∷ pkg) ++ codes "::" ++ n)
      × (function_of ((c ∷ pkg) ++ codes "::" ++ n) ≡ (c ∷ pkg) ++ codes "::" ++ n)
unfolding nat_eq
function_of-subtest c pkg n case no_colon no_slash free =
    let (plain, cut) = before_first-slash n case no_slash in
    (
      rw
          (
            function_of-id c pkg (n ++ codes "/" ++ case)
                (rw (contains-append, contains-append, no_colon, free) refl),
            cut,
          )
          refl,
      rw (function_of-id c pkg n no_colon, plain) refl,
    )

-- A key of a package begins with a suite only if the package is named as the suite.
pub key-package :
    (pkg suite n : Text)
    → contains pkg b':' ≡ false
    → contains suite b':' ≡ false
    → starts_with (pkg ++ codes "::" ++ n) (suite ++ codes "::") ≡ true
    → pkg ≡ suite
key-package [] [] n h h' s = refl
key-package [] (d ∷ suite) n h h' s = absurd (ground arith)
key-package (c ∷ pkg) [] n h h' s = absurd (ground arith)
key-package (c ∷ pkg) (d ∷ suite) n h h' s = elim (==-cases d c) [
  | inl (t, same) ↦ rw same (
      ap (λ (x : Text). c ∷ x)
        (key-package pkg suite n (ground arith) (ground arith) (ground arith)))
  | inr (f, differ) ↦ absurd (ground arith)
]
