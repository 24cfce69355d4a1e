-- ===== src/Core/Metadata/Taxonomy.antt =====
-- The labels of the tests: what they add up to, and that a second run keeps them.
use bmk_dev.Base.{
  ℕ, ◌+◌, Bool, true, false, ◌||◌, some, List, [], ◌∷◌, contains, list_eq, nat_eq, option_eq, ◌==◌,
  length, ◌≡◌, refl, sym, ◌∙◌, arith, inl, inr, Bool-cases, Option-cases, ==-cases, ==-self,
}
use mathlib.Core.Path.{subst}
use mathlib.Core.Option.{some-injective, none-ne-some}
use bmk_dev.Base.Text.{Text, codes}
use bmk_dev.Base.Dict.{Dict, lookup, insert}
use bmk_dev.Base.Json.{Json, null, boolean, number, string, array, object, get_field}
use bmk_dev.Core.GateChecks.{layer_count}
use bmk_dev.Core.Metadata.{
  Library, atomic_layer, integration_layers, layer_if, atomic_loop, kept_layer, layer_of, fields_of,
}

abbrev pub is_integration : Text → Bool
is_integration = contains integration_layers

pub layer_if-is_integration : (b : Bool) → is_integration (layer_if b) ≡ true
unfolding list_eq nat_eq
layer_if-is_integration true = refl
layer_if-is_integration false = refl

-- Every label is one of the three layers.
abbrev pub HasLayers : Dict Text Text → Type 0
HasLayers [] = Unit
HasLayers ((_, layer) ∷ more) =
    ((layer == atomic_layer || is_integration layer) ≡ true) × HasLayers more

pub insert-HasLayers :
    (k layer : Text) (d : Dict Text Text)
    → (layer == atomic_layer || is_integration layer) ≡ true
    → HasLayers d
    → HasLayers (insert k layer d)
unfolding insert
insert-HasLayers k layer [] h hs = (h, tt)
insert-HasLayers k layer ((j, w) ∷ d) h (here, later) = elim (Bool-cases (k == j)) [
  | inl t ↦ rw t (h, later)
  | inr f ↦ rw f (here, insert-HasLayers k layer d h later)
]

-- One more label of one layer.
abbrev pub sum_of_counts : Dict Text Text → ℕ
sum_of_counts d =
    layer_count (codes "atomic") d
    + layer_count (codes "integration") d
    + layer_count (codes "system_e2e") d

sum_of_counts-cons :
    (key layer : Text) (d : Dict Text Text)
    → (layer == atomic_layer || is_integration layer) ≡ true
    → sum_of_counts ((key, layer) ∷ d) ≡ sum_of_counts d + 1
unfolding list_eq nat_eq
sum_of_counts-cons key layer d h = elim (==-cases layer (codes "atomic")) [
  | inl (_, same) ↦ rw same (omega arith)
  | inr (not_atomic, _) ↦ elim (==-cases layer (codes "integration")) [
    | inl (_, same) ↦ rw same (omega arith)
    | inr (not_integration, _) ↦ elim (==-cases layer (codes "system_e2e")) [
      | inl (_, same) ↦ rw same (omega arith)
      | inr (not_system, _) ↦ absurd (ground arith)
    ]
  ]
]

pub layer_count-sum : (d : Dict Text Text) → HasLayers d → sum_of_counts d ≡ length d
layer_count-sum [] hs = refl
layer_count-sum ((key, layer) ∷ d) (here, later) =
    omega (arith, sum_of_counts-cons key layer d here, layer_count-sum d later)

pub atomic_loop-HasLayers :
    (key_of : Text → Text) (names : List Text) (d : Dict Text Text)
    → HasLayers d
    → HasLayers (atomic_loop key_of names d)
unfolding atomic_loop
atomic_loop-HasLayers key_of [] d hs = hs
atomic_loop-HasLayers key_of (name ∷ names) d hs =
    atomic_loop-HasLayers key_of names (insert (key_of name) atomic_layer d)
      (insert-HasLayers (key_of name) atomic_layer d (rw (==-self atomic_layer) refl) hs)

module _ (L : Library) where
  pub get_field-fields_of :
      (key layer : Text) (d : Dict Text Text)
      → lookup key d ≡ some layer
      → get_field L.Number key (fields_of L d) ≡ some (string layer)
  unfolding fields_of lookup
  get_field-fields_of key layer [] h = absurd cc
  get_field-fields_of key layer ((j, w) ∷ d) h = elim (==-cases key j) [
    | inl (t, same) ↦ ground arith
    | inr (f, differ) ↦ rw f (get_field-fields_of key layer d (ground arith))
  ]

  -- A label that is there already is kept.
  pub layer_of-kept :
      (key guess layer : Text) (d : Dict Text Text)
      → lookup key d ≡ some layer
      → is_integration layer ≡ true
      → layer_of L (object (fields_of L d)) key guess ≡ some layer
  unfolding layer_of
  layer_of-kept key guess layer d found h =
      rw (layer_of, get_field-fields_of key layer d found, h) refl

  kept_layer-is_integration :
      (old : Json L.Number) (guess layer : Text)
      → is_integration guess ≡ true
      → kept_layer L old guess ≡ some layer
      → is_integration layer ≡ true
  kept_layer-is_integration (string s) guess layer g h = elim (Bool-cases (is_integration s)) [
    | inl t ↦
        let same : s ≡ layer = some-injective s layer (sym (rw t refl) ∙ h) in
        subst (λ (l : Text). is_integration l ≡ true) same t
    | inr f ↦
        let same : guess ≡ layer = some-injective guess layer (sym (rw f refl) ∙ h) in
        subst (λ (l : Text). is_integration l ≡ true) same g
  ]
  kept_layer-is_integration (array _) guess layer g h = absurd (none-ne-some layer h)
  kept_layer-is_integration (object _) guess layer g h = absurd (none-ne-some layer h)
  kept_layer-is_integration null guess layer g h =
      subst (λ (l : Text). is_integration l ≡ true) (some-injective guess layer h) g
  kept_layer-is_integration (boolean _) guess layer g h =
      subst (λ (l : Text). is_integration l ≡ true) (some-injective guess layer h) g
  kept_layer-is_integration (number _) guess layer g h =
      subst (λ (l : Text). is_integration l ≡ true) (some-injective guess layer h) g

  pub layer_of-is_integration :
      (previous : Json L.Number) (key guess layer : Text)
      → is_integration guess ≡ true
      → layer_of L previous key guess ≡ some layer
      → is_integration layer ≡ true
  unfolding layer_of
  layer_of-is_integration (object previous) key guess layer g h =
      elim (Option-cases (get_field L.Number key previous)) [
        | inl n ↦
            let same : guess ≡ layer =
              some-injective guess layer (sym (rw (layer_of, n) refl) ∙ h) in
            subst (λ (l : Text). is_integration l ≡ true) same g
        | inr (old, e) ↦
            kept_layer-is_integration old guess layer g (sym (rw (layer_of, e) refl) ∙ h)
      ]
  layer_of-is_integration null key guess layer g h = absurd (none-ne-some layer h)
  layer_of-is_integration (boolean _) key guess layer g h = absurd (none-ne-some layer h)
  layer_of-is_integration (number _) key guess layer g h = absurd (none-ne-some layer h)
  layer_of-is_integration (string _) key guess layer g h = absurd (none-ne-some layer h)
  layer_of-is_integration (array _) key guess layer g h = absurd (none-ne-some layer h)
