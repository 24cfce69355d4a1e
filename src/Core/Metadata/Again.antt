-- ===== src/Core/Metadata/Again.antt =====
-- Fields that are as a run leaves them are left so by the next run.
use bmk_dev.Base.{ℕ, Option, none, some, list_eq, nat_eq, option_eq, length, ◌≡◌, sym, ◌∙◌, ap}
use mathlib.Core.Path.{subst}
use mathlib.Core.Option.{get_or}
use bmk_dev.Base.Text.{Text, codes, lower}
use bmk_dev.Base.Dict.{Dict}
use bmk_dev.Base.Json.{
  Json, number, string, object, Fields, no_fields, get_field, set_field, set_default, erase_field,
}
use bmk_dev.Base.Json.Objects.{
  object_laws, set_field-present, set_default-present, erase_field-absent,
}
use bmk_dev.Core.Metadata.{
  Library, Packet, taxonomy, fields_of, stats_of, base_unit, count_oracle, with_oracle,
  with_taxonomy, with_counts, named, language_of, previous_of, synchronized_metadata, text_of,
}
use bmk_dev.Core.Metadata.Kept.{taxonomy-again}
use bmk_dev.Core.Metadata.Settled.{synchronized_metadata-IsMade, result-fields}

module _ (L : Library) {Host : Type 0} (packet : Packet Host) (task_id : Text) where
  -- Fields that are set already stay as they are.
  module _ (f : Fields L.Number) where
    named-present :
        (v : Json L.Number)
        → get_field L.Number (codes "instance_id") f ≡ some (string task_id)
        → get_field L.Number (codes "language") f ≡ some v
        → named L task_id f ≡ f
    named-present v i l =
        ap
          (λ (g : Fields L.Number).
            set_default L.Number (codes "language") (string (codes "python")) g)
          (set_field-present L.Number (codes "instance_id") (string task_id) f i)
        ∙ set_default-present L.Number (codes "language") (string (codes "python")) v f l

    with_taxonomy-present :
        (labels : Dict Text Text)
        → get_field L.Number (codes "taxonomy") f ≡ some (object (fields_of L labels))
        → get_field L.Number (codes "taxonomy_unit") f ≡ some (base_unit L)
        → get_field L.Number (codes "stats") f ≡ some (object (stats_of L labels))
        → with_taxonomy L labels f ≡ f
    with_taxonomy-present labels t u s =
        rw
          (
            with_taxonomy,
            set_field-present L.Number (codes "taxonomy") (object (fields_of L labels)) f t,
            set_field-present L.Number (codes "taxonomy_unit") (base_unit L) f u,
          )
          (set_field-present L.Number (codes "stats") (object (stats_of L labels)) f s)

    oracle-present :
        (oracle : Fields L.Number)
        → get_field L.Number (codes "oracle") f ≡ some (object oracle)
        → get_field L.Number (codes "depends_on") f ≡ none
        → erase_field L.Number (codes "depends_on") (
            set_field L.Number
              (codes "oracle")
              (object oracle)
              (set_default L.Number (codes "oracle") (object no_fields) f))
          ≡ f
    oracle-present oracle o d =
        rw
          (
            set_default-present L.Number (codes "oracle") (object no_fields) (object oracle) f o,
            set_field-present L.Number (codes "oracle") (object oracle) f o,
          )
          (erase_field-absent L.Number (codes "depends_on") f d)

  count_oracle-again :
      (total : ℕ) (oracle : Fields L.Number)
      → count_oracle L total (count_oracle L total oracle) ≡ count_oracle L total oracle
  unfolding list_eq nat_eq
  count_oracle-again total oracle =
      let counted = count_oracle L total oracle in
      let count : get_field L.Number (codes "count") counted ≡ some (number (L.of_ℕ total)) =
        simp object_laws in
      let unit_is : get_field L.Number (codes "count_unit") counted ≡ some (base_unit L) =
        simp object_laws in
      let base : get_field L.Number (codes "base_function_count") counted
          ≡ some (number (L.of_ℕ total)) =
        simp object_laws in
      ap
        (λ (g : Fields L.Number).
          set_field L.Number (codes "base_function_count") (number (L.of_ℕ total))
            (set_field L.Number (codes "count_unit") (base_unit L) g))
        (set_field-present L.Number (codes "count") (number (L.of_ℕ total)) counted count)
      ∙ ap
          (λ (g : Fields L.Number).
            set_field L.Number (codes "base_function_count") (number (L.of_ℕ total)) g)
          (set_field-present L.Number (codes "count_unit") (base_unit L) counted unit_is)
      ∙ set_field-present L.Number (codes "base_function_count") (number (L.of_ℕ total)) counted
          base

  -- Fields that are as a run leaves them.
  abbrev IsSettled : Fields L.Number → Type 0
  IsSettled f =
      (labels : Dict Text Text) × (oracle : Fields L.Number) × (v : Json L.Number) × (get_field
          L.Number (codes "instance_id") f
        ≡ some (string task_id))
      × (get_field L.Number (codes "language") f ≡ some v)
      × (get_field L.Number (codes "taxonomy") f ≡ some (object (fields_of L labels)))
      × (get_field L.Number (codes "taxonomy_unit") f ≡ some (base_unit L))
      × (get_field L.Number (codes "stats") f ≡ some (object (stats_of L labels)))
      × (get_field L.Number (codes "oracle") f
          ≡ some (object (count_oracle L (length labels) oracle)))
      × (get_field L.Number (codes "depends_on") f ≡ none)
      × (taxonomy L packet (lower (text_of L v)) (object (fields_of L labels)) ≡ some labels)

  -- The branches, with the fields that they start from.
  abbrev counts_of : Fields L.Number → Option (Fields L.Number)
  counts_of f = with_counts L (taxonomy L packet (language_of L f) (previous_of L f)) f

  labels-again :
      (f : Fields L.Number) (labels : Dict Text Text) (v : Json L.Number)
      → get_field L.Number (codes "language") f ≡ some v
      → get_field L.Number (codes "taxonomy") f ≡ some (object (fields_of L labels))
      → taxonomy L packet (lower (text_of L v)) (object (fields_of L labels)) ≡ some labels
      → taxonomy L packet (language_of L f) (previous_of L f) ≡ some labels
  labels-again f labels v l t again =
      let language : language_of L f ≡ lower (text_of L v) =
        ap (λ (o : Option (Json L.Number)). lower (text_of L (get_or o (string (codes "python")))))
          l in
      let previous : previous_of L f ≡ object (fields_of L labels) =
        ap (λ (o : Option (Json L.Number)). get_or o (object no_fields)) t in
      rw (language, previous) again

  with_counts-again :
      (f : Fields L.Number) (labels : Dict Text Text) (oracle : Fields L.Number)
      → with_taxonomy L labels f ≡ f
      → get_field L.Number (codes "oracle") f
        ≡ some (object (count_oracle L (length labels) oracle))
      → get_field L.Number (codes "depends_on") f ≡ none
      → with_counts L (some labels) f ≡ some f
  unfolding with_counts
  with_counts-again f labels oracle counted o d =
      let counted_oracle = count_oracle L (length labels) oracle in
      let present : get_or (get_field L.Number (codes "oracle") f) (object no_fields)
          ≡ object counted_oracle =
        ap (λ (j : Option (Json L.Number)). get_or j (object no_fields)) o in
      ap
        (λ (g : Fields L.Number).
          with_oracle L (length labels) (set_default L.Number (codes "oracle") (object no_fields) g)
            (get_or (get_field L.Number (codes "oracle") g) (object no_fields)))
        counted
      ∙ rw (present, with_oracle, count_oracle-again (length labels) oracle)
          (ap some (oracle-present f counted_oracle o d))

  IsSettled-again :
      (f : Fields L.Number) → IsSettled f → synchronized_metadata L packet task_id f ≡ some f
  unfolding synchronized_metadata
  IsSettled-again f (labels, oracle, v, i, l, t, u, s, o, d, again) =
      ap
        (λ (g : Fields L.Number).
          with_counts L (taxonomy L packet (language_of L g) (previous_of L f)) g)
        (named-present f v i l)
      ∙ ap (λ (found : Option (Dict Text Text)). with_counts L found f)
          (labels-again f labels v l t again)
      ∙ with_counts-again f labels oracle (with_taxonomy-present f labels t u s) o d

  pub synchronized_metadata-IsSettled :
      (data_of result : Fields L.Number)
      → synchronized_metadata L packet task_id data_of ≡ some result
      → IsSettled result
  unfolding list_eq nat_eq
  synchronized_metadata-IsSettled data_of result h =
      let (labels, e, oracle, _, r) =
        synchronized_metadata-IsMade L packet task_id data_of result h in
      let (i, l, t, u, s, o, d) = result-fields L packet task_id data_of labels oracle in
      let v = get_or (get_field L.Number (codes "language") data_of) (string (codes "python")) in
      let language : get_field L.Number (codes "language") (named L task_id data_of) ≡ some v =
        simp object_laws in
      let language_is : language_of L (named L task_id data_of) ≡ lower (text_of L v) =
        ap (λ (j : Option (Json L.Number)). lower (text_of L (get_or j (string (codes "python")))))
          language in
      let first : taxonomy L packet (lower (text_of L v)) (previous_of L data_of) ≡ some labels =
        subst (λ (x : Text). taxonomy L packet x (previous_of L data_of) ≡ some labels) language_is
          e in
      subst (λ (f : Fields L.Number). IsSettled f) (sym r)
        (
          labels,
          oracle,
          v,
          i,
          l ∙ language,
          t,
          u,
          s,
          o,
          d,
          taxonomy-again L packet (lower (text_of L v)) (previous_of L data_of) labels first,
        )

  -- Synchronizing what is synchronized changes nothing.
  pub synchronized_metadata-again :
      (data_of result : Fields L.Number)
      → synchronized_metadata L packet task_id data_of ≡ some result
      → synchronized_metadata L packet task_id result ≡ some result
  synchronized_metadata-again data_of result h =
      IsSettled-again result (synchronized_metadata-IsSettled data_of result h)
