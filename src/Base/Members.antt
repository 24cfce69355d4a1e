-- ===== src/Base/Members.antt =====
-- What `in` says of the lists that the library builds.
use bmk_dev.Base.Equality.{Eq, contains, ==-cases, ==-self}
use bmk_dev.Base.Lists.{keep, any}
use bmk_dev.Base.Tests.{Bool-cases}
use mathlib.Core.Path.{◌≡◌, refl, sym}
use mathlib.Core.Logic.{inl, inr}
use mathlib.Core.Bool.{Bool, true, false, ◌&&◌, ◌||◌}
use mathlib.Core.List.{List, [], ◌∷◌, ◌++◌}
use native.Mathlib.Omega.{arith}

module _ {ℓ} {A : Type ℓ} ⦃e : Eq A⦄ where
  pub contains-keep :
      (p : A → Bool) (xs : List A) (a : A) → contains (keep p xs) a ≡ (contains xs a && p a)
  contains-keep p [] a = refl
  contains-keep p (x ∷ xs) a = elim (==-cases a x) [
    | inl (t, same) ↦ elim (Bool-cases (p x)) [
      | inl y ↦ rw (y, same) (ground (arith, contains-keep p xs x))
      | inr n ↦ rw (n, same) (ground (arith, contains-keep p xs x))
    ]
    | inr (f, differ) ↦ elim (Bool-cases (p x)) [
      | inl y ↦ rw (y, f) (contains-keep p xs a)
      | inr n ↦ rw (n, f) (contains-keep p xs a)
    ]
  ]

  pub any-contains :
      (p : A → Bool) (xs : List A) (a : A) → contains xs a ≡ true → p a ≡ true → any p xs ≡ true
  any-contains p [] a c h = cc
  any-contains p (x ∷ xs) a c h = elim (==-cases a x) [
    | inl (t, same) ↦ rw (sym same, h) refl
    | inr (f, differ) ↦ elim (Bool-cases (p x)) [
      | inl y ↦ rw y refl
      | inr n ↦ rw n (any-contains p xs a (ground arith) h)
    ]
  ]

  pub contains-append :
      (xs ys : List A) (a : A) → contains (xs ++ ys) a ≡ (contains xs a || contains ys a)
  contains-append [] ys a = refl
  contains-append (x ∷ xs) ys a = ground (arith, contains-append xs ys a)

  pub never_passes :
      (p : A → Bool) (xs : List A) → any p xs ≡ false → (a : A) → contains xs a ≡ true → p a ≡ false
  never_passes p [] h a c = cc
  never_passes p (x ∷ xs) h a c = elim (==-cases a x) [
    | inl (t, same) ↦ rw same (ground arith)
    | inr (f, differ) ↦ never_passes p xs (ground arith) a (ground arith)
  ]

  pub refused_by_all :
      (p : A → Bool) (xs : List A)
      → ((a : A) → contains xs a ≡ true → p a ≡ false)
      → any p xs ≡ false
  refused_by_all p [] h = refl
  refused_by_all p (x ∷ xs) h =
      rw (h x (rw (==-self x) refl)) (refused_by_all p xs (λ a c. h a (ground arith)))

module _ {ℓ} {A : Type ℓ} where
  -- A list that is empty has empty parts.
  pub split_nil : (xs ys : List A) → xs ++ ys ≡ [] → (xs ≡ []) × (ys ≡ [])
  split_nil [] ys h = (refl, h)
  split_nil (x ∷ xs) ys h = absurd (ground arith)
