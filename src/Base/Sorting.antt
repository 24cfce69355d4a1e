-- ===== src/Base/Sorting.antt =====
-- `sorted` by insertion, for an order that is a test, and the order of text by code points.
use bmk_dev.Base.Lists.{length}
use bmk_dev.Base.Tests.{ltb, eqb}
use bmk_dev.Base.Text.{Text}
use bmk_dev.Base.Equality.{Eq, contains, if◌then◌else◌, ◌==◌}
use Prim.Native.Nat.{suc}
use mathlib.Core.Path.{◌≡◌, refl, ◌∙◌}
use mathlib.Core.Bool.{Bool, true, false, ◌&&◌, ◌||◌}
use mathlib.Core.List.{List, [], ◌∷◌}
use native.Mathlib.Omega.{arith}

-- `a <= b` on strings
abbrev pub le_text : Text → Text → Bool
le_text [] b = true
le_text (c ∷ a) [] = false
le_text (c ∷ a) (d ∷ b) = let rest = le_text a b in ltb c d || (eqb c d && rest)

module _ {ℓ} {A : Type ℓ} (le : A → A → Bool) where
  -- Behind the entries that are not above it, so that equal entries keep their order.
  unfoldable pub insert_sorted : A → List A → List A
  insert_sorted x [] = x ∷ []
  insert_sorted x (y ∷ ys) =
      let rest = insert_sorted x ys in if le x y then x ∷ y ∷ ys else y ∷ rest

  unfoldable pub sorted : List A → List A
  sorted [] = []
  sorted (x ∷ xs) = insert_sorted x (sorted xs)

  module _ ⦃e : Eq A⦄ where
    contains-insert_sorted :
        (a x : A) (ys : List A) → contains (insert_sorted x ys) a ≡ (a == x || contains ys a)
    unfolding insert_sorted
    contains-insert_sorted a x [] = refl
    contains-insert_sorted a x (y ∷ ys) = ground (arith, contains-insert_sorted a x ys)

    pub contains-sorted : (a : A) (xs : List A) → contains (sorted xs) a ≡ contains xs a
    unfolding sorted
    contains-sorted a [] = refl
    contains-sorted a (x ∷ xs) =
        contains-insert_sorted a x (sorted xs) ∙ ground (arith, contains-sorted a xs)

  length-insert_sorted : (x : A) (ys : List A) → length (insert_sorted x ys) ≡ suc (length ys)
  unfolding insert_sorted
  length-insert_sorted x [] = refl
  length-insert_sorted x (y ∷ ys) = ground (arith, length-insert_sorted x ys)

  pub length-sorted : (xs : List A) → length (sorted xs) ≡ length xs
  unfolding sorted
  length-sorted [] = refl
  length-sorted (x ∷ xs) = length-insert_sorted x (sorted xs) ∙ ground (arith, length-sorted xs)
