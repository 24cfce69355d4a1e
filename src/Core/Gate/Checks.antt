-- ===== src/Core/Gate/Checks.antt =====
-- What the checks of the static gate say of a packet, one by one.
use mathlib.Core.List.{flat_map}
use bmk_dev.Base.{
  split_nil, ℕ, ◌+◌, ◌≤◌, Bool, true, false, not, Option, List, [], ◌∷◌, ◌++◌, map, contains,
  list_eq, nat_eq, option_eq, ◌==◌, ◌≡◌, refl, arith, inl, inr, Bool-cases, ==-cases, contains-keep,
}
use bmk_dev.Base.Text.{Text, codes, after_last}
use bmk_dev.Base.Dict.{Dict, keys}
use bmk_dev.Base.Floats.{Floats}
use bmk_dev.Core.GateChecks.{
  GateError, error_if, Meta, distinct, floor_errors, taxonomy_errors, dependency_errors, same_set,
  layer_count, unknown_names, names_error,
}

pub no_error : (b : Bool) (error : GateError) → error_if b error ≡ [] → b ≡ false
no_error b error h = ground arith

pub same_id : (a b : Option Text) → not (a == b) ≡ false → a ≡ b
same_id a b h = elim (==-cases a b) [
  | inl (t, same) ↦ same
  | inr (f, differ) ↦ absurd (ground arith)
]

-- Each element of a list is one of its set.
pub contains-distinct :
    (xs : List Text) (x : Text) → contains xs x ≡ true → contains (distinct xs) x ≡ true
unfolding distinct
contains-distinct [] x h = cc
contains-distinct (y ∷ xs) x h = elim (Bool-cases (contains (distinct xs) y)) [
  | inl repeated ↦ rw repeated (ground (arith, contains-distinct xs x))
  | inr fresh ↦ rw fresh (ground (arith, contains-distinct xs x))
]

-- The floors of the layers and the counts of task.json.
abbrev pub HasFloors : ℕ → ℕ → Meta → Type 0
HasFloors atomic integration data_of =
    (30 ≤ atomic)
    × (25 ≤ integration)
    × (60 ≤ data_of.count)
    × (atomic ≤ data_of.atomic)
    × (integration ≤ data_of.integration + data_of.system_e2e)
    × (data_of.atomic + (data_of.integration + data_of.system_e2e) ≡ data_of.count)

pub floor_errors_sound :
    (atomic integration : ℕ) (data_of : Meta)
    → floor_errors atomic integration data_of ≡ []
    → HasFloors atomic integration data_of
unfolding floor_errors
floor_errors_sound atomic integration data_of h =
    (ground arith, ground arith, ground arith, ground arith, ground arith, ground arith)

-- The keys of the taxonomy are those of the tests, and no layer has more of them than task.json counts.
abbrev pub HasTaxonomy : List Text → List Text → Meta → Type 0
HasTaxonomy atomic_keys integration_keys data_of =
    (same_set (keys data_of.taxonomy) (atomic_keys ++ integration_keys) ≡ true)
    × (layer_count (codes "atomic") data_of.taxonomy ≤ data_of.atomic)
    × (layer_count (codes "integration") data_of.taxonomy ≤ data_of.integration)
    × (layer_count (codes "system_e2e") data_of.taxonomy ≤ data_of.system_e2e)

pub taxonomy_errors_sound :
    (atomic_keys integration_keys : List Text) (data_of : Meta)
    → taxonomy_errors atomic_keys integration_keys data_of ≡ []
    → HasTaxonomy atomic_keys integration_keys data_of
unfolding taxonomy_errors
taxonomy_errors_sound atomic_keys integration_keys data_of h =
    (ground arith, ground arith, ground arith, ground arith)

-- Each prerequisite is the leaf of an atomic key.
abbrev pub Known : Dict Text (List Text) → List Text → Type 0
Known dependency_map atomic_keys =
    (dependency : Text)
    → contains (flat_map (λ (_, dependencies). dependencies) dependency_map) dependency ≡ true
    → contains (map (after_last (codes "::")) atomic_keys) dependency ≡ true

pub names_error_sound : (names : List Text) → names_error names ≡ [] → names ≡ []
names_error_sound [] h = refl
names_error_sound (n ∷ names) h = absurd (ground arith)

pub dependency_errors_sound :
    (F : Floats) (dependency_map : Dict Text (List Text)) (integration : ℕ)
    (atomic_keys : List Text)
    → dependency_errors F dependency_map integration atomic_keys ≡ []
    → Known dependency_map atomic_keys
unfolding dependency_errors
dependency_errors_sound F dependency_map integration atomic_keys h dependency referenced =
    let none_unknown : unknown_names dependency_map atomic_keys ≡ [] =
      names_error_sound (unknown_names dependency_map atomic_keys) (split_nil _ _ h).1 in
    let all_names =
      flat_map (λ ((_, dependencies) : Text × List Text). dependencies) dependency_map in
    let kept =
      contains-keep (λ (d : Text). not (contains (map (after_last (codes "::")) atomic_keys) d))
        (distinct all_names) dependency in
    let named = contains-distinct all_names dependency referenced in
    elim (Bool-cases (contains (map (after_last (codes "::")) atomic_keys) dependency)) [
      | inl known ↦ known
      | inr unknown ↦ absurd (ground arith)
    ]
