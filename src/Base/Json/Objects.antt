-- ===== src/Base/Json/Objects.antt =====
-- The laws of objects: a field that is set or removed, and the equality of a value with itself.
use mathlib.Core.Option.{none, some, get_or}
use bmk_dev.Base.Tests.{Option-cases}
use mathlib.Core.Path.{◌≡◌, refl, ◌∙◌, subst}
use mathlib.Core.Logic.{inl, inr}
use mathlib.Core.Bool.{Bool, true}
use native.Mathlib.Omega.{arith}
use bmk_dev.Base.Equality.{◌==◌, list_eq, nat_eq, if◌then◌else◌, ==-cases, ==-self}
use bmk_dev.Base.Text.{Text}
use bmk_dev.Base.Json.{
  Json, null, boolean, number, string, array, object, Values, no_values, value, Fields, no_fields,
  field, get_field, set_field, set_default, erase_field, same_json, same_values, all_fields,
  IsDecoded, AreDecoded, HasFields,
}

module _ (N : Type 0) where
  pub get_field-set_field :
      (j k : Text) (v : Json N) (f : Fields N)
      → get_field N j (set_field N k v f) ≡ (if j == k then some v else get_field N j f)
  unfolding set_field
  get_field-set_field j k v no_fields = ground arith
  get_field-set_field j k v (field l w more) = ground (arith, get_field-set_field j k v more)

  pub get_field-erase_field :
      (j k : Text) (f : Fields N)
      → get_field N j (erase_field N k f) ≡ (if j == k then none else get_field N j f)
  unfolding erase_field
  get_field-erase_field j k no_fields = ground arith
  get_field-erase_field j k (field l w more) = ground (arith, get_field-erase_field j k more)

  -- A field is there already with its value.
  pub set_field-present :
      (k : Text) (v : Json N) (f : Fields N) → get_field N k f ≡ some v → set_field N k v f ≡ f
  unfolding set_field
  set_field-present k v no_fields h = absurd cc
  set_field-present k v (field l w more) h = elim (==-cases k l) [
    | inl (t, same) ↦ rw t (ground arith)
    | inr (differ, _) ↦
        let later : get_field N k more ≡ some v = ground arith in
        rw (differ, set_field-present k v more later) refl
  ]

  pub set_default-present :
      (k : Text) (v w : Json N) (f : Fields N) → get_field N k f ≡ some w → set_default N k v f ≡ f
  set_default-present k v w f h = rw (set_default, h) refl

  pub erase_field-absent :
      (k : Text) (f : Fields N) → get_field N k f ≡ none → erase_field N k f ≡ f
  unfolding erase_field
  erase_field-absent k no_fields h = refl
  erase_field-absent k (field l w more) h = elim (==-cases k l) [
    | inl (t, same) ↦ absurd (ground arith)
    | inr (differ, _) ↦
        let later : get_field N k more ≡ none = ground arith in
        rw (differ, erase_field-absent k more later) refl
  ]

  pub get_field-set_default :
      (j k : Text) (v : Json N) (f : Fields N)
      → get_field N j (set_default N k v f)
        ≡ (if j == k then some (get_or (get_field N k f) v) else get_field N j f)
  get_field-set_default j k v f = elim (Option-cases (get_field N k f)) [
    | inl n ↦ rw (set_default, n) (get_field-set_field j k v f)
    | inr (w, e) ↦ elim (==-cases j k) [
      | inl (t, same) ↦ rw (set_default, e, t) (rw same e)
      | inr (differ, _) ↦ rw (set_default, e, differ) refl
    ]
  ]

  pub set_field-HasFields :
      (k : Text) (v : Json N) (f : Fields N)
      → IsDecoded N v
      → HasFields N f
      → HasFields N (set_field N k v f)
  unfolding set_field HasFields
  set_field-HasFields k v no_fields d h = (refl, d, tt)
  set_field-HasFields k v (field l w more) d (fresh, e, u) = elim (==-cases k l) [
    | inl (t, same) ↦ rw t (rw same fresh, d, u)
    | inr (differ, apart) ↦
        let kept : get_field N l (set_field N k v more) ≡ none =
          get_field-set_field l k v more ∙ ground arith in
        rw differ (kept, e, set_field-HasFields k v more d u)
  ]

  pub set_default-HasFields :
      (k : Text) (v : Json N) (f : Fields N)
      → IsDecoded N v
      → HasFields N f
      → HasFields N (set_default N k v f)
  set_default-HasFields k v f d h = elim (Option-cases (get_field N k f)) [
    | inl n ↦ rw (set_default, n) (set_field-HasFields k v f d h)
    | inr (w, e) ↦ rw (set_default, e) h
  ]

  pub erase_field-HasFields :
      (k : Text) (f : Fields N) → HasFields N f → HasFields N (erase_field N k f)
  unfolding erase_field HasFields
  erase_field-HasFields k no_fields h = tt
  erase_field-HasFields k (field l w more) (fresh, e, u) = elim (==-cases k l) [
    | inl (t, same) ↦ rw t (erase_field-HasFields k more u)
    | inr (differ, apart) ↦
        let kept : get_field N l (erase_field N k more) ≡ none =
          get_field-erase_field l k more ∙ ground arith in
        rw differ (kept, e, erase_field-HasFields k more u)
  ]

  pub get_field-IsDecoded :
      (k : Text) (v : Json N) (f : Fields N)
      → HasFields N f
      → get_field N k f ≡ some v
      → IsDecoded N v
  unfolding HasFields
  get_field-IsDecoded k v no_fields h e = absurd cc
  get_field-IsDecoded k v (field l w more) (fresh, d, u) e = elim (==-cases k l) [
    | inl (t, same) ↦
        let found : w ≡ v = ground arith in subst (λ (j : Json N). IsDecoded N j) found d
    | inr (differ, apart) ↦ get_field-IsDecoded k v more u (ground arith)
  ]

  -- The fields of `f` stand in `g` with their values.
  abbrev pub Among : Fields N → Fields N → Type 0
  Among no_fields g = Unit
  Among (field k v more) g = (get_field N k g ≡ some v) × Among more g

  Among-skip :
      (k : Text) (v : Json N) (f g : Fields N)
      → get_field N k f ≡ none
      → Among f g
      → Among f (field k v g)
  Among-skip k v no_fields g fresh h = tt
  Among-skip k v (field l w more) g fresh (here, later) = elim (==-cases k l) [
    | inl (t, same) ↦ absurd (ground arith)
    | inr (differ, apart) ↦ (ground arith, Among-skip k v more g (ground arith) later)
  ]

  Among-self : (f : Fields N) → HasFields N f → Among f f
  unfolding HasFields
  Among-self no_fields h = tt
  Among-self (field k v more) (fresh, d, u) =
      (rw (==-self k) refl, Among-skip k v more more fresh (Among-self more u))

  module _ (same : N → N → Bool) (number_of : Bool → N)
      (reflexive : (n : N) → same n n ≡ true) where
    mutual
      unfolding same_json IsDecoded

      pub same_json_self : (v : Json N) → IsDecoded N v → same_json N same number_of v v ≡ true
      same_json_self null d = refl
      same_json_self (boolean b) d = reflexive (number_of b)
      same_json_self (number n) d = reflexive n
      same_json_self (string s) d = ==-self s
      same_json_self (array xs) d = same_values_self xs d
      same_json_self (object f) d = rw (all_fields-Among f f d (Among-self f d)) (ground arith)

      same_values_self :
          (xs : Values N) → AreDecoded N xs → same_values N same number_of xs xs ≡ true
      same_values_self no_values d = refl
      same_values_self (value x xs) (d, ds) = rw (same_json_self x d) (same_values_self xs ds)

      all_fields-Among :
          (f g : Fields N) → HasFields N f → Among f g → all_fields N same number_of f g ≡ true
      all_fields-Among no_fields g h a = refl
      all_fields-Among (field k v more) g (fresh, d, u) (here, later) =
          rw (here, same_json_self v d) (all_fields-Among more g u later)

-- What a field is after an update.
pub ruleset object_laws = (get_field-erase_field, get_field-set_field, get_field-set_default)
