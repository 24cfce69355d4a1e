-- ===== src/Core/Metadata.antt =====
-- harness/core/sync_task_metadata.py: the fields of task.json that are derived from the tests.
pub mod Main
pub mod Taxonomy
pub mod Kept
pub mod Settled
pub mod Again
pub mod Decoded
pub mod Fresh
pub mod Rerun
pub mod Results
use bmk_dev.Base.{
  ℕ, Bool, true, false, ◌&&◌, ◌||◌, not, Option, none, some, List, [], ◌∷◌, ◌++◌, map, contains,
  list_eq, nat_eq, option_eq, ◌==◌, if◌then◌else◌, is_nil, length, any, all, keep,
}
use mathlib.Core.Option.{get_or}
use bmk_dev.Base.Text.{Text, codes, has_text, starts_with, strip_prefix, after_last, lower}
use bmk_dev.Base.Sorting.{sorted, le_text}
use bmk_dev.Base.Dict.{Dict, lookup, insert}
use bmk_dev.Base.Json.{
  Json, null, boolean, number, string, array, object, Fields, no_fields, field, get_field,
  set_field, set_default, erase_field, same_json,
}
use bmk_dev.Runners.{Runner}
use bmk_dev.Runners.Syntax.{Function, Tree}
use bmk_dev.Core.Layout.{Location, Disk, task_dirs}
use bmk_dev.Core.GateChecks.{layer_count}

-- The numbers of JSON, and what `json` and `str` do. `loads` takes the bytes behind a mark of the
-- byte order, and `dumps` gives those of the text and the end of its line.
pub record Library : Type 1 where
  pub Number : Type 0
  pub of_ℕ : ℕ → Number
  pub of_Bool : Bool → Number
  pub same : Number → Number → Bool
  pub str : Json Number → Text
  pub loads : Text → Option (Json Number)
  pub dumps : Json Number → Text

-- What is read of a packet besides task.json. A Python file is absent, or it has a tree where
-- `ast.parse` does not raise.
pub record Packet (Host : Type 0) : Type 0 where
  pub location : Location
  pub oracle : Host
  pub test_file : Text → Option (Option Tree)
  pub java_runner : Runner Host

abbrev pub atomic_layer : Text
atomic_layer = codes "atomic"

abbrev pub integration_layers : List Text
integration_layers = codes "integration" ∷ codes "system_e2e" ∷ []

abbrev pub system_e2e_hints : List Text
system_e2e_hints =
    codes "cross_view" ∷ codes "representative" ∷ codes "workflow" ∷ codes "end_to_end" ∷ []

abbrev pub layer_if : Bool → Text
layer_if system = if system then codes "system_e2e" else codes "integration"

abbrev pub inferred_integration_layer : Text → Text
inferred_integration_layer name =
    layer_if (any (λ (hint : Text). has_text hint name) system_e2e_hints)

abbrev pub java_layer : Text → Text
java_layer test_id = layer_if (starts_with (after_last (codes "::") test_id) (codes "system"))

abbrev pub test_functions : List Function → List Text
test_functions [] = []
test_functions (f ∷ functions) =
    let rest = test_functions functions in
    if starts_with f.name_of (codes "test_") then f.name_of ∷ rest else rest

abbrev pub test_names : Option (Option Tree) → Option (List Text)
test_names none = some []
test_names (some none) = none
test_names (some (some tree)) = some (test_functions tree.functions)

-- The loop over the atomic tests.
unfoldable pub atomic_loop : (Text → Text) → List Text → Dict Text Text → Dict Text Text
atomic_loop key_of [] taxonomy = taxonomy
atomic_loop key_of (name ∷ names) taxonomy =
    atomic_loop key_of names (insert (key_of name) atomic_layer taxonomy)

abbrev pub atomic_key : Text → Text
atomic_key name = codes "test_atomic::" ++ name

abbrev pub integration_key : Text → Text
integration_key name = codes "test_integration::" ++ name

module _ (L : Library) where
  -- `old_layer if old_layer in {…} else …`; a list or an object cannot be looked for in a set.
  abbrev pub kept_layer : Json L.Number → Text → Option Text
  kept_layer (string s) guess = some (if contains integration_layers s then s else guess)
  kept_layer (array _) guess = none
  kept_layer (object _) guess = none
  kept_layer _ guess = some guess

  -- `previous.get(key)` and what is made of it.
  unfoldable pub layer_of : Json L.Number → Text → Text → Option Text
  layer_of (object previous) key guess = elim (get_field L.Number key previous) [
    | none ↦ some guess
    | some old_layer ↦ kept_layer old_layer guess
  ]
  layer_of _ key guess = none

  module _ (previous : Json L.Number) (key_of guess : Text → Text) where
    -- The loop over the integration tests; `none` where it raises.
    unfoldable pub integration_loop : List Text → Dict Text Text → Option (Dict Text Text)
    integration_loop [] taxonomy = some taxonomy
    integration_loop (name ∷ names) taxonomy = elim (layer_of previous (key_of name) (guess name)) [
      | none ↦ none
      | some layer ↦ integration_loop names (insert (key_of name) layer taxonomy)
    ]

    unfoldable pub taxonomy_of :
        Option (List Text) → Option (List Text) → (Text → Text) → Option (Dict Text Text)
    unfolding integration_loop atomic_loop
    taxonomy_of (some atomic) (some integration) atomic_key =
        integration_loop integration (atomic_loop atomic_key atomic [])
    taxonomy_of _ _ atomic_key = none

  module _ {Host : Type 0} (packet : Packet Host) where
    -- The branch on the language.
    unfoldable pub taxonomy : Text → Json L.Number → Option (Dict Text Text)
    unfolding taxonomy_of
    taxonomy language previous =
        let discover : Text → List Text = packet.java_runner.discover packet.oracle in
        if language == codes "java"
        then taxonomy_of previous (λ id. id) java_layer (some (discover (codes "atomic")))
            (some (discover (codes "integration"))) (λ id. id)
        else taxonomy_of previous integration_key inferred_integration_layer
            (test_names (packet.test_file (codes "test_atomic.py")))
            (test_names (packet.test_file (codes "test_integration.py"))) atomic_key

  -- A dict of strings, as a value of JSON.
  unfoldable pub fields_of : Dict Text Text → Fields L.Number
  fields_of [] = no_fields
  fields_of ((key, layer) ∷ more) = field key (string layer) (fields_of more)

  abbrev pub stats_of : Dict Text Text → Fields L.Number
  stats_of labels =
      let counts : Text → Json L.Number = λ layer. number (L.of_ℕ (layer_count layer labels)) in
      field (codes "atomic") (counts (codes "atomic")) (
        field (codes "integration") (counts (codes "integration"))
          (field (codes "system_e2e") (counts (codes "system_e2e")) no_fields))

  abbrev pub base_unit : Json L.Number
  base_unit = string (codes "base_test_functions")

  -- The three fields of `data["oracle"]`.
  abbrev pub count_oracle : ℕ → Fields L.Number → Fields L.Number
  count_oracle total oracle =
      set_field L.Number (codes "base_function_count") (number (L.of_ℕ total)) (
        set_field L.Number (codes "count_unit") base_unit
          (set_field L.Number (codes "count") (number (L.of_ℕ total)) oracle))

  unfoldable pub with_oracle : ℕ → Fields L.Number → Json L.Number → Option (Fields L.Number)
  with_oracle total data_of (object oracle) = some (
      erase_field L.Number (codes "depends_on")
        (set_field L.Number (codes "oracle") (object (count_oracle total oracle)) data_of))
  with_oracle total data_of _ = none

  abbrev pub with_taxonomy : Dict Text Text → Fields L.Number → Fields L.Number
  with_taxonomy labels data_of = set_field L.Number (codes "stats") (object (stats_of labels)) (
      set_field L.Number (codes "taxonomy_unit") base_unit
        (set_field L.Number (codes "taxonomy") (object (fields_of labels)) data_of))

  -- From the counts on; an absent `oracle` is an empty object.
  unfoldable pub with_counts : Option (Dict Text Text) → Fields L.Number → Option (Fields L.Number)
  unfolding with_oracle
  with_counts none data_of = none
  with_counts (some labels) data_of =
      let counted = with_taxonomy labels data_of in
      with_oracle (length labels) (set_default L.Number (codes "oracle") (object no_fields) counted)
        (get_or (get_field L.Number (codes "oracle") counted) (object no_fields))

  abbrev pub text_of : Json L.Number → Text
  text_of (string s) = s
  text_of v = L.str v

  abbrev pub named : Text → Fields L.Number → Fields L.Number
  named task_id data_of =
      set_default L.Number (codes "language") (string (codes "python"))
        (set_field L.Number (codes "instance_id") (string task_id) data_of)

  abbrev pub language_of : Fields L.Number → Text
  language_of data_of =
      lower
        (text_of (get_or (get_field L.Number (codes "language") data_of) (string (codes "python"))))

  -- What `data.get("taxonomy", {})` is.
  abbrev pub previous_of : Fields L.Number → Json L.Number
  previous_of data_of = get_or (get_field L.Number (codes "taxonomy") data_of) (object no_fields)

  -- From the decoded task.json on; `none` where it raises.
  unfoldable pub synchronized_metadata :
      {Host : Type 0} → Packet Host → Text → Fields L.Number → Option (Fields L.Number)
  unfolding with_counts taxonomy
  synchronized_metadata packet task_id data_of =
      let renamed = named task_id data_of in
      with_counts (taxonomy packet (language_of renamed) (previous_of data_of)) renamed
