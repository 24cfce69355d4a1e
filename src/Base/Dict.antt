-- ===== src/Base/Dict.antt =====
-- Python dicts in insertion order, behind their laws.
use mathlib.Core.List
use mathlib.Core.Option.{or_else}
use bmk_dev.Base.{
  Option-cases, inl, inr, ◌∙◌, ◌≤◌, ◌+◌, length, Bool, false, ◌++◌, ◌≡◌, refl, ◌≢◌, ◌↔◌, true,
  Option, none, some, List, [], ◌∷◌, arith,
}
use bmk_dev.Base.{Eq, ◌==◌, contains, if◌then◌else◌}

abbrev pub Dict {ℓ κ} : Type ℓ → Type κ → Type (ℓ ⊔ κ)
Dict K V = List (K × V)

unfoldable pub keys {ℓ κ} : {K : Type ℓ} {V : Type κ} → Dict K V → List K
keys = List.map (λ (k, _). k)

module _ {ℓ κ} {K : Type ℓ} {V : Type κ} ⦃e : Eq K⦄ where
  unfoldable pub lookup : K → Dict K V → Option V
  unfolding List.lookup
  lookup = List.lookup e.dec

  -- `d[k] = v`
  unfoldable pub insert : K → V → Dict K V → Dict K V
  insert k v [] = (k, v) ∷ []
  insert k v ((j, w) ∷ d) = if k == j then (k, v) ∷ d else (j, w) ∷ insert k v d

  -- `d.pop(k, None)`. Every entry of the key goes; a real dict has at most one.
  unfoldable pub erase : K → Dict K V → Dict K V
  erase k [] = []
  erase k ((j, w) ∷ d) = let rest = erase k d in if k == j then rest else (j, w) ∷ rest

  abbrev pub NodupKeys : Dict K V → Type κ
  NodupKeys [] = Unit
  NodupKeys ((k, _) ∷ d) = (lookup k d ≡ none) × NodupKeys d

  pub lookup-nil : (k : K) → lookup k [] ≡ none
  unfolding lookup
  lookup-nil k = refl

  pub lookup-cons :
      (j k : K) (v : V) (d : Dict K V)
      → lookup j ((k, v) ∷ d) ≡ (if j == k then some v else lookup j d)
  unfolding lookup
  lookup-cons j k v d = ground arith

  pub lookup-insert :
      (j k : K) (v : V) (d : Dict K V)
      → lookup j (insert k v d) ≡ (if j == k then some v else lookup j d)
  unfolding insert lookup
  lookup-insert j k v [] = lookup-cons j k v []
  lookup-insert j k v (_ ∷ d) = ground (arith, lookup-insert j k v d)

  pub lookup-erase :
      (j k : K) (d : Dict K V) → lookup j (erase k d) ≡ (if j == k then none else lookup j d)
  unfolding erase lookup
  lookup-erase j k [] = ground arith
  lookup-erase j k (_ ∷ d) = ground (arith, lookup-erase j k d)

  pub contains-keys : (d : Dict K V) (k : K) → (contains (keys d) k ≡ true) ↔ (lookup k d ≢ none)
  unfolding keys lookup
  contains-keys [] k = (λ h. cc, λ h. absurd (h refl))
  contains-keys (_ ∷ d) k = ground (arith, contains-keys d k)

  pub insert-NodupKeys : (k : K) (v : V) (d : Dict K V) → NodupKeys d → NodupKeys (insert k v d)
  unfolding insert
  insert-NodupKeys k v [] _ = (lookup-nil k, tt)
  insert-NodupKeys k v ((j, _) ∷ d) (fresh, u) =
      ground (arith, insert-NodupKeys k v d u, lookup-insert j k v d)

  pub lookup-append :
      (k : K) (d e' : Dict K V) → lookup k (d ++ e') ≡ or_else (lookup k d) (lookup k e')
  unfolding lookup or_else
  lookup-append k [] e' = refl
  lookup-append k (_ ∷ d) e' = ground (arith, lookup-append k d e')

  pub insert-fresh :
      (k : K) (v : V) (d : Dict K V) → lookup k d ≡ none → insert k v d ≡ d ++ ((k, v) ∷ [])
  unfolding insert lookup
  insert-fresh k v [] h = refl
  insert-fresh k v (_ ∷ d) h = ground (arith, insert-fresh k v d)

  pub lookup-eq_none-of-NodupKeys :
      (k : K) (v : V) (d e' : Dict K V) → NodupKeys (d ++ ((k, v) ∷ e')) → lookup k d ≡ none
  unfolding or_else
  lookup-eq_none-of-NodupKeys k v [] e' u = lookup-nil k
  lookup-eq_none-of-NodupKeys k v ((j, w) ∷ d) e' (fresh, u) = ground (
    arith,
    lookup-cons k j w d,
    lookup-append j d ((k, v) ∷ e'),
    lookup-cons j k v e',
    lookup-eq_none-of-NodupKeys k v d e' u,
  )

  abbrev pub has_key : Dict K V → K → Bool
  has_key d k = elim (lookup k d) [ none ↦ false | some _ ↦ true ]

  pub has_key-some : (d : Dict K V) (k : K) → has_key d k ≡ true → (v : V) × (lookup k d ≡ some v)
  has_key-some d k h = elim (Option-cases (lookup k d)) [
    | inl n ↦ absurd (ground arith)
    | inr found ↦ found
  ]

  -- `d.update(more)`, and a loop of `d[k] = v`
  unfoldable pub update : Dict K V → Dict K V → Dict K V
  update d [] = d
  update d ((k, v) ∷ more) = update (insert k v d) more

  pub update-NodupKeys : (d e' : Dict K V) → NodupKeys d → NodupKeys (update d e')
  unfolding update
  update-NodupKeys d [] u = u
  update-NodupKeys d ((k, v) ∷ e') u = update-NodupKeys (insert k v d) e' (insert-NodupKeys k v d u)

  -- A later entry wins, where the dict that is added has each key once.
  pub lookup-update :
      (k : K) (d e' : Dict K V)
      → NodupKeys e'
      → lookup k (update d e') ≡ or_else (lookup k e') (lookup k d)
  unfolding update or_else lookup
  lookup-update k d [] u = refl
  lookup-update k d ((j, v) ∷ e') (fresh, u) =
      lookup-update k (insert j v d) e' u
      ∙ ground (arith, lookup-insert k j v d, lookup-cons k j v e')

  pub length-erase :
      (k : K) (d : Dict K V)
      → (length (erase k d) ≤ length d) × (has_key d k ≡ true → length (erase k d) + 1 ≤ length d)
  unfolding erase lookup
  length-erase k [] = (omega arith, λ h. cc)
  length-erase k (_ ∷ d) = ground (arith, length-erase k d)
