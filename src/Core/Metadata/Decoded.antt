-- ===== src/Core/Metadata/Decoded.antt =====
-- The fields that a run leaves have each key once, as those that it starts from.
use bmk_dev.Base.{
  Option, none, some, List, [], ◌∷◌, list_eq, nat_eq, option_eq, ◌==◌, ◌≡◌, refl, sym, ◌∙◌, arith,
  inl, inr, Bool-cases, Option-cases, ==-cases,
}
use mathlib.Core.Path.{subst}
use mathlib.Core.Option.{some-injective, none-ne-some}
use bmk_dev.Base.Text.{Text, codes}
use bmk_dev.Base.Dict.{Dict, lookup, insert, NodupKeys, insert-NodupKeys}
use bmk_dev.Base.Json.{Json, Fields, get_field, IsDecoded, HasFields}
use bmk_dev.Base.Json.Objects.{
  set_field-HasFields, set_default-HasFields, erase_field-HasFields, get_field-IsDecoded,
}
use bmk_dev.Core.Metadata.{
  Library, Packet, taxonomy, fields_of, stats_of, with_taxonomy, named, synchronized_metadata,
}
use bmk_dev.Core.Metadata.{
  atomic_layer, atomic_loop, integration_loop, layer_of, taxonomy_of, integration_key, atomic_key,
  inferred_integration_layer, java_layer, test_names,
}
use bmk_dev.Core.Metadata.Settled.{synchronized_metadata-IsMade, oracle_of}

atomic_loop-NodupKeys :
    (key_of : Text → Text) (names : List Text) (d : Dict Text Text)
    → NodupKeys d
    → NodupKeys (atomic_loop key_of names d)
unfolding atomic_loop
atomic_loop-NodupKeys key_of [] d u = u
atomic_loop-NodupKeys key_of (name ∷ names) d u =
    atomic_loop-NodupKeys key_of names (insert (key_of name) atomic_layer d)
      (insert-NodupKeys (key_of name) atomic_layer d u)

module _ (L : Library) where
  module _ (previous : Json L.Number) (key_of guess : Text → Text) where
    integration_loop-NodupKeys :
        (names : List Text) (d final : Dict Text Text)
        → NodupKeys d
        → integration_loop L previous key_of guess names d ≡ some final
        → NodupKeys final
    unfolding integration_loop
    integration_loop-NodupKeys [] d final u h =
        subst (λ (t : Dict Text Text). NodupKeys t) (some-injective d final h) u
    integration_loop-NodupKeys (name ∷ names) d final u h =
        elim (Option-cases (layer_of L previous (key_of name) (guess name))) [
          | inl n ↦ absurd (none-ne-some final (sym (rw (integration_loop, n) refl) ∙ h))
          | inr (layer, e) ↦
              integration_loop-NodupKeys names (insert (key_of name) layer d) final
                (insert-NodupKeys (key_of name) layer d u) (sym (rw (integration_loop, e) refl) ∙ h)
        ]

    taxonomy_of-NodupKeys :
        (atomic integration : Option (List Text)) (key : Text → Text) (final : Dict Text Text)
        → taxonomy_of L previous key_of guess atomic integration key ≡ some final
        → NodupKeys final
    unfolding taxonomy_of
    taxonomy_of-NodupKeys (some atomic) (some integration) key final h =
        integration_loop-NodupKeys integration (atomic_loop key atomic []) final
          (atomic_loop-NodupKeys key atomic [] tt) h
    taxonomy_of-NodupKeys (some atomic) none key final h = absurd (none-ne-some final h)
    taxonomy_of-NodupKeys none (some _) key final h = absurd (none-ne-some final h)
    taxonomy_of-NodupKeys none none key final h = absurd (none-ne-some final h)

  pub taxonomy-NodupKeys :
      {Host : Type 0} (packet : Packet Host) (language : Text) (previous : Json L.Number)
      (final : Dict Text Text)
      → taxonomy L packet language previous ≡ some final
      → NodupKeys final
  unfolding taxonomy
  taxonomy-NodupKeys packet language previous final h =
      elim (Bool-cases (language == codes "java")) [
        | inl java ↦
            taxonomy_of-NodupKeys previous (λ id. id) java_layer
              (some (packet.java_runner.discover packet.oracle (codes "atomic")))
              (some (packet.java_runner.discover packet.oracle (codes "integration"))) (λ id. id)
              final (sym (rw (taxonomy, java) refl) ∙ h)
        | inr python ↦
            taxonomy_of-NodupKeys previous integration_key inferred_integration_layer
              (test_names (packet.test_file (codes "test_atomic.py")))
              (test_names (packet.test_file (codes "test_integration.py"))) atomic_key final
              (sym (rw (taxonomy, python) refl) ∙ h)
      ]

  absent-fields_of :
      (key : Text) (d : Dict Text Text)
      → lookup key d ≡ none
      → get_field L.Number key (fields_of L d) ≡ none
  unfolding fields_of lookup
  absent-fields_of key [] h = refl
  absent-fields_of key ((j, w) ∷ d) h = elim (==-cases key j) [
    | inl (t, same) ↦ absurd (ground arith)
    | inr (f, differ) ↦ rw f (absent-fields_of key d (ground arith))
  ]

  fields_of-HasFields : (d : Dict Text Text) → NodupKeys d → HasFields L.Number (fields_of L d)
  unfolding fields_of HasFields
  fields_of-HasFields [] u = tt
  fields_of-HasFields ((key, layer) ∷ d) (fresh, u) =
      (absent-fields_of key d fresh, tt, fields_of-HasFields d u)

  stats_of-HasFields : (d : Dict Text Text) → HasFields L.Number (stats_of L d)
  unfolding HasFields list_eq nat_eq
  stats_of-HasFields d = (refl, tt, (refl, tt, (refl, tt, tt)))

  module _ {Host : Type 0} (packet : Packet Host) (task_id : Text) where
    with_taxonomy-HasFields :
        (labels : Dict Text Text) (data_of : Fields L.Number)
        → NodupKeys labels
        → HasFields L.Number data_of
        → HasFields L.Number (with_taxonomy L labels (named L task_id data_of))
    unfolding IsDecoded
    with_taxonomy-HasFields labels data_of u h =
        set_field-HasFields L.Number _ _ _ (stats_of-HasFields labels) (
          set_field-HasFields L.Number _ _ _ tt (
            set_field-HasFields L.Number _ _ _ (fields_of-HasFields labels u)
              (set_default-HasFields L.Number _ _ _ tt (set_field-HasFields L.Number _ _ _ tt h))))

    oracle_of-IsDecoded :
        (data_of : Fields L.Number) (labels : Dict Text Text)
        → HasFields L.Number (with_taxonomy L labels (named L task_id data_of))
        → IsDecoded L.Number (oracle_of L packet task_id data_of labels)
    unfolding IsDecoded HasFields
    oracle_of-IsDecoded data_of labels h =
        let counted = with_taxonomy L labels (named L task_id data_of) in
        elim (Option-cases (get_field L.Number (codes "oracle") counted)) [
          | inl n ↦ rw (oracle_of, n) tt
          | inr (v, e) ↦
              rw (oracle_of, e) (get_field-IsDecoded L.Number (codes "oracle") v counted h e)
        ]

    pub synchronized_metadata-HasFields :
        (data_of result : Fields L.Number)
        → HasFields L.Number data_of
        → synchronized_metadata L packet task_id data_of ≡ some result
        → HasFields L.Number result
    unfolding IsDecoded
    synchronized_metadata-HasFields data_of result h e =
        let (labels, l, oracle, o, r) =
          synchronized_metadata-IsMade L packet task_id data_of result e in
        let u : NodupKeys labels = taxonomy-NodupKeys packet _ _ labels l in
        let counted = with_taxonomy-HasFields labels data_of u h in
        let oracle_is : HasFields L.Number oracle =
          subst (λ (j : Json L.Number). IsDecoded L.Number j) o
            (oracle_of-IsDecoded data_of labels counted) in
        subst (λ (f : Fields L.Number). HasFields L.Number f) (sym r)
          (erase_field-HasFields L.Number _ _ (
            set_field-HasFields L.Number _ _ _
              (set_field-HasFields L.Number _ _ _ tt (
                set_field-HasFields L.Number _ _ _ tt
                  (set_field-HasFields L.Number _ _ _ tt oracle_is)))
              (set_default-HasFields L.Number _ _ _ tt counted)))
