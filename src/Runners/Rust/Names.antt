-- ===== src/Runners/Rust/Names.antt =====
-- The ids of the Rust runner in the report and in the filter of a batch.
use mathlib.Core.Path.{subst}
use mathlib.Core.List.{append_assoc}
use bmk_dev.Base.{
  ℕ, false, some, [], ◌∷◌, ◌++◌, ◌≡◌, refl, ap, sym, ◌∙◌, contains, nat_eq, ◌==◌, arith,
}
use bmk_dev.Base.Text.{Text, codes, starts_with, before_first, after_first}
use bmk_dev.Runners.Rust.{reported_to_id, filter_name}

no_colons : (c : ℕ) (s : Text) → (b':' == c) ≡ false → starts_with (c ∷ s) (codes "::") ≡ false
no_colons c s h = ground arith

before_first-colons :
    (crate more : Text)
    → contains crate b':' ≡ false
    → before_first (codes "::") (crate ++ codes "::" ++ more) ≡ some crate
before_first-colons [] more h = refl
before_first-colons (c ∷ crate) more h =
    let other : (b':' == c) ≡ false = ground arith in
    rw
      (
        no_colons c (crate ++ codes "::" ++ more) other,
        before_first-colons crate more (ground arith),
      )
      refl

after_first-colons :
    (crate more : Text)
    → contains crate b':' ≡ false
    → after_first (codes "::") (crate ++ codes "::" ++ more) ≡ some more
after_first-colons [] more h = refl
after_first-colons (c ∷ crate) more h = ground (arith, after_first-colons crate more)

after_first-dollar :
    (front more : Text)
    → contains front b'$' ≡ false
    → after_first (codes "$") (front ++ codes "$" ++ more) ≡ some more
after_first-dollar [] more h = refl
after_first-dollar (c ∷ front) more h = ground (arith, after_first-dollar front more)

-- A test that the stream reports by the crate of its suite, its binary and its path has the id that
-- the suite and the path make, and the filter of a batch asks for that id by the path; for this the
-- suite holds no colon, and neither the suite nor the binary a dollar.
pub reported_to_id-filter_name :
    (c : ℕ) (suite binary path : Text)
    → contains (c ∷ suite) b':' ≡ false
    → contains ((c ∷ suite) ++ codes "::" ++ binary) b'$' ≡ false
    → (reported_to_id ((c ∷ suite) ++ codes "::" ++ binary ++ codes "$" ++ path)
        ≡ (c ∷ suite) ++ codes "::" ++ path)
      × (filter_name (reported_to_id ((c ∷ suite) ++ codes "::" ++ binary ++ codes "$" ++ path))
          ≡ path)
unfolding reported_to_id
reported_to_id-filter_name c suite binary path no_colon dollar_free =
    let reported = (c ∷ suite) ++ codes "::" ++ binary ++ codes "$" ++ path in
    let front = (c ∷ suite) ++ codes "::" in
    let regrouped : reported ≡ front ++ (binary ++ codes "$" ++ path) =
      ap (λ (t : Text). t ++ path) (append_assoc front binary (codes "$"))
      ∙ append_assoc front (binary ++ codes "$") path in
    let crate : before_first (codes "::") reported ≡ some (c ∷ suite) =
      subst (λ (t : Text). before_first (codes "::") t ≡ some (c ∷ suite)) (sym regrouped)
        (before_first-colons (c ∷ suite) (binary ++ codes "$" ++ path) no_colon) in
    let rest : after_first (codes "$") reported ≡ some path =
      after_first-dollar ((c ∷ suite) ++ codes "::" ++ binary) path dollar_free in
    let id : reported_to_id reported ≡ (c ∷ suite) ++ codes "::" ++ path =
      rw (reported_to_id, crate, rest) refl in
    (id, rw (id, after_first-colons (c ∷ suite) path no_colon) refl)
