-- ===== src/Core/Metadata/Results.antt =====
-- What the synchronized fields say of the tests.
use bmk_dev.Base.{
  ℕ, ◌+◌, true, false, Option, none, some, List, [], contains, list_eq, nat_eq, option_eq, ◌==◌,
  length, count_if, ◌≡◌, refl, sym, ◌∙◌, ap,
}
use mathlib.Core.Option.{none-ne-some}
use bmk_dev.Base.Text.{Text, codes}
use bmk_dev.Base.Dict.{Dict, lookup}
use bmk_dev.Base.Json.{Json, number, string, object, Fields, get_field}
use bmk_dev.Base.Json.Objects.{object_laws}
use bmk_dev.Core.GateChecks.{layer_count}
use bmk_dev.Core.Metadata.{
  Library, Packet, taxonomy, taxonomy_of, fields_of, stats_of, count_oracle, named, language_of,
  previous_of, synchronized_metadata, integration_key, integration_layers, test_names, layer_of,
  inferred_integration_layer, atomic_key, atomic_loop,
}
use bmk_dev.Core.Metadata.Taxonomy.{layer_count-sum, get_field-fields_of}
use bmk_dev.Core.Metadata.Kept.{
  taxonomy-HasLayers, integration_loop-labels, integration_key-injective,
}
use bmk_dev.Core.Metadata.Settled.{synchronized_metadata-IsMade, result-fields}

module _ (L : Library) {Host : Type 0} (packet : Packet Host) (task_id : Text) where
  abbrev pub counted : ℕ → Option (Json L.Number)
  counted n = some (number (L.of_ℕ n))

  -- The field of a layer is the number of the labels that are this layer.
  abbrev pub CountsLabels : Text → Fields L.Number → Dict Text Text → Type 0
  CountsLabels layer stats labels =
      get_field L.Number layer stats
      ≡ counted (count_if (λ (entry : Text × Text). entry.1 == layer) labels)

  -- Where task.json is synchronized, its stats count the labels of the taxonomy that is written
  -- beside them, layer by layer, and the count under `oracle` is the sum of the three.
  pub synchronized_metadata-counts :
      (data_of result : Fields L.Number)
      → synchronized_metadata L packet task_id data_of ≡ some result
      → (labels : Dict Text Text) × (stats : Fields L.Number) × (oracle : Fields L.Number)
        × (get_field L.Number (codes "taxonomy") result ≡ some (object (fields_of L labels)))
        × (get_field L.Number (codes "stats") result ≡ some (object stats))
        × CountsLabels (codes "atomic") stats labels
        × CountsLabels (codes "integration") stats labels
        × CountsLabels (codes "system_e2e") stats labels
        × (get_field L.Number (codes "oracle") result ≡ some (object oracle))
        × (get_field L.Number (codes "count") oracle
            ≡ counted (
                layer_count (codes "atomic") labels
                + layer_count (codes "integration") labels
                + layer_count (codes "system_e2e") labels))
        × (get_field L.Number (codes "base_function_count") oracle
            ≡ get_field L.Number (codes "count") oracle)
  unfolding list_eq nat_eq
  synchronized_metadata-counts data_of result h =
      let (labels, e, oracle, _, r) =
        synchronized_metadata-IsMade L packet task_id data_of result h in
      let (_, _, t, _, s, o, _) = result-fields L packet task_id data_of labels oracle in
      let sum = layer_count-sum labels (taxonomy-HasLayers L packet _ _ labels e) in
      let made = count_oracle L (length labels) oracle in
      let count : get_field L.Number (codes "count") made ≡ counted (length labels) =
        simp object_laws in
      let base : get_field L.Number (codes "base_function_count") made ≡ counted (length labels) =
        simp object_laws in
      (
        labels,
        stats_of L labels,
        made,
        ap (λ (f : Fields L.Number). get_field L.Number (codes "taxonomy") f) r ∙ t,
        ap (λ (f : Fields L.Number). get_field L.Number (codes "stats") f) r ∙ s,
        refl,
        refl,
        refl,
        ap (λ (f : Fields L.Number). get_field L.Number (codes "oracle") f) r ∙ o,
        count ∙ ap counted (sym sum),
        base ∙ sym count,
      )

  -- The label of an integration test in a Python packet: the old one where it is one of the two
  -- layers.
  python_label :
      (previous : Json L.Number) (atomic : Option (List Text)) (names : List Text)
      (name layer : Text) (labels : Dict Text Text)
      → taxonomy_of L previous integration_key inferred_integration_layer atomic
          (some names)
          atomic_key
        ≡ some labels
      → contains names name ≡ true
      → layer_of L previous (integration_key name) (inferred_integration_layer name) ≡ some layer
      → lookup (integration_key name) labels ≡ some layer
  unfolding taxonomy_of
  python_label previous none names name layer labels h c l = absurd (none-ne-some labels h)
  python_label previous (some atomic) names name layer labels h c l =
      let (layer', l', found) =
        integration_loop-labels L previous integration_key inferred_integration_layer
          (integration_key-injective L) name names (atomic_loop atomic_key atomic []) labels c h in
      found ∙ sym l' ∙ l

  -- In a packet that is not Java's, an integration test whose label was `integration` or
  -- `system_e2e` has the same label in the taxonomy of the synchronized task.json.
  pub synchronized_metadata-labels :
      (data_of result previous : Fields L.Number) (names : List Text) (name layer : Text)
      → (language_of L (named L task_id data_of) == codes "java") ≡ false
      → previous_of L data_of ≡ object previous
      → test_names (packet.test_file (codes "test_integration.py")) ≡ some names
      → contains names name ≡ true
      → get_field L.Number (integration_key name) previous ≡ some (string layer)
      → contains integration_layers layer ≡ true
      → synchronized_metadata L packet task_id data_of ≡ some result
      → (labels : Fields L.Number) × (get_field L.Number (codes "taxonomy") result
          ≡ some (object labels))
        × (get_field L.Number (integration_key name) labels ≡ some (string layer))
  unfolding layer_of taxonomy
  synchronized_metadata-labels data_of result previous names name layer python p n c old known h =
      let (labels, e, oracle, _, r) =
        synchronized_metadata-IsMade L packet task_id data_of result h in
      let (_, _, t, _, _, _, _) = result-fields L packet task_id data_of labels oracle in
      let atomic = test_names (packet.test_file (codes "test_atomic.py")) in
      let made : taxonomy_of L (object previous) integration_key inferred_integration_layer atomic
            (some names) atomic_key
          ≡ some labels =
        ap
          (λ (j : Json L.Number).
            taxonomy_of L j integration_key inferred_integration_layer atomic (some names)
              atomic_key)
          (sym p)
        ∙ ap
            (λ (o : Option (List Text)).
              taxonomy_of L (previous_of L data_of) integration_key inferred_integration_layer
                atomic o atomic_key)
            (sym n)
        ∙ sym (rw (taxonomy, python) refl)
        ∙ e in
      let kept : layer_of L (object previous) (integration_key name)
            (inferred_integration_layer name)
          ≡ some layer =
        rw (layer_of, old, known) refl in
      (
        fields_of L labels,
        ap (λ (f : Fields L.Number). get_field L.Number (codes "taxonomy") f) r ∙ t,
        get_field-fields_of L (integration_key name) layer labels
            (python_label (object previous) atomic names name layer labels made c kept),
      )
