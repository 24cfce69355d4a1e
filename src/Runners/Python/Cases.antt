-- ===== src/Runners/Python/Cases.antt =====
-- A parameterised case counts for its function.
use bmk_dev.Base.{ℕ, false, none, some, [], ◌∷◌, ◌++◌, ◌≡◌, refl, contains, nat_eq, ◌==◌, arith}
use bmk_dev.Base.Text.{Text, codes, starts_with, before_first}
use bmk_dev.Runners.Python.{function_of}

no_bracket : (c : ℕ) (s : Text) → (b'[' == c) ≡ false → starts_with (c ∷ s) (codes "[") ≡ false
no_bracket c s h = ground arith

-- The part before the first bracket, with and without one.
before_first-bracket :
    (t case : Text)
    → contains t b'[' ≡ false
    → (before_first (codes "[") t ≡ none)
      × (before_first (codes "[") (t ++ codes "[" ++ case) ≡ some t)
before_first-bracket [] case h = (refl, refl)
before_first-bracket (c ∷ t) case h =
    let other : (b'[' == c) ≡ false = ground arith in
    let (plain, cut) = before_first-bracket t case (ground arith) in
    (
      rw (no_bracket c t other, plain) refl,
      rw (no_bracket c (t ++ codes "[" ++ case) other, cut) refl,
    )

-- Where the id of a function has no bracket, each of its parameterised cases has the function's
-- key, whatever the case's id holds behind the bracket.
pub function_of-case :
    (t case : Text) → contains t b'[' ≡ false → function_of (t ++ codes "[" ++ case) ≡ function_of t
unfolding function_of
function_of-case t case h = let (plain, cut) = before_first-bracket t case h in rw (plain, cut) refl
