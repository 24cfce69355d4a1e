-- ===== src/Core/Metadata/Settled.antt =====
-- What the synchronized fields are, and that synchronizing them again changes nothing.
use bmk_dev.Base.{
  ℕ, none, some, list_eq, nat_eq, option_eq, length, ◌≡◌, refl, sym, ◌∙◌, inl, inr, Option-cases,
}
use mathlib.Core.Option.{get_or, some-injective, none-ne-some}
use bmk_dev.Base.Text.{Text, codes}
use bmk_dev.Base.Dict.{Dict}
use bmk_dev.Base.Json.{
  Json, null, boolean, number, string, array, object, Fields, no_fields, get_field, set_field,
  set_default, erase_field,
}
use bmk_dev.Base.Json.Objects.{object_laws}
use bmk_dev.Core.Metadata.{
  Library, Packet, taxonomy, fields_of, stats_of, base_unit, count_oracle, with_oracle,
  with_taxonomy, with_counts, named, language_of, previous_of, synchronized_metadata,
}

module _ (L : Library) {Host : Type 0} (packet : Packet Host) (task_id : Text) where
  -- The fields that are returned for given labels and a given object under `oracle`.
  abbrev pub result_of : Fields L.Number → Dict Text Text → Fields L.Number → Fields L.Number
  result_of data_of labels oracle = erase_field L.Number (codes "depends_on") (
      set_field L.Number (codes "oracle") (object (count_oracle L (length labels) oracle)) (
        set_default L.Number (codes "oracle") (object no_fields)
          (with_taxonomy L labels (named L task_id data_of))))

  abbrev pub oracle_of : Fields L.Number → Dict Text Text → Json L.Number
  oracle_of data_of labels =
      get_or
        (get_field L.Number (codes "oracle") (with_taxonomy L labels (named L task_id data_of)))
        (object no_fields)

  with_oracle-made :
      (total : ℕ) (data_of result : Fields L.Number) (v : Json L.Number)
      → with_oracle L total data_of v ≡ some result
      → (oracle : Fields L.Number) × (v ≡ object oracle)
        × (result
            ≡ erase_field L.Number (codes "depends_on") (
                set_field L.Number (codes "oracle") (object (count_oracle L total oracle)) data_of))
  unfolding with_oracle
  with_oracle-made total data_of result (object oracle) h =
      (oracle, refl, sym (some-injective _ result h))
  with_oracle-made total data_of result null h = absurd (none-ne-some result h)
  with_oracle-made total data_of result (boolean _) h = absurd (none-ne-some result h)
  with_oracle-made total data_of result (number _) h = absurd (none-ne-some result h)
  with_oracle-made total data_of result (string _) h = absurd (none-ne-some result h)
  with_oracle-made total data_of result (array _) h = absurd (none-ne-some result h)

  -- What a result is made of.
  abbrev pub IsMade : Fields L.Number → Fields L.Number → Type 0
  IsMade data_of result =
      (labels : Dict Text Text) × (taxonomy L packet (language_of L (named L task_id data_of))
          (previous_of L data_of)
        ≡ some labels)
      × (oracle : Fields L.Number) × (oracle_of data_of labels ≡ object oracle)
      × (result ≡ result_of data_of labels oracle)

  pub synchronized_metadata-IsMade :
      (data_of result : Fields L.Number)
      → synchronized_metadata L packet task_id data_of ≡ some result
      → IsMade data_of result
  unfolding synchronized_metadata with_counts
  synchronized_metadata-IsMade data_of result h =
      let renamed = named L task_id data_of in
      elim (Option-cases (taxonomy L packet (language_of L renamed) (previous_of L data_of))) [
        | inl n ↦ absurd (none-ne-some result (sym (rw (synchronized_metadata, n) refl) ∙ h))
        | inr (labels, e) ↦
            let (oracle, o, r) =
              with_oracle-made (length labels) _ result (oracle_of data_of labels)
                (sym (rw (synchronized_metadata, e) refl) ∙ h) in
            (labels, e, oracle, o, r)
      ]

  module _ (data_of : Fields L.Number) (labels : Dict Text Text) (oracle : Fields L.Number) where
    abbrev result : Fields L.Number
    result = result_of data_of labels oracle

    -- Each field that is set, by the laws of objects.
    pub result-fields :
        (get_field L.Number (codes "instance_id") result ≡ some (string task_id))
        × (get_field L.Number (codes "language") result
            ≡ get_field L.Number (codes "language") (named L task_id data_of))
        × (get_field L.Number (codes "taxonomy") result ≡ some (object (fields_of L labels)))
        × (get_field L.Number (codes "taxonomy_unit") result ≡ some (base_unit L))
        × (get_field L.Number (codes "stats") result ≡ some (object (stats_of L labels)))
        × (get_field L.Number (codes "oracle") result
            ≡ some (object (count_oracle L (length labels) oracle)))
        × (get_field L.Number (codes "depends_on") result ≡ none)
    unfolding list_eq nat_eq
    result-fields = (
      simp object_laws,
      simp object_laws,
      simp object_laws,
      simp object_laws,
      simp object_laws,
      simp object_laws,
      simp object_laws,
    )
