-- ===== src/Tests/Metadata.antt =====
-- The metadata of two packets, one of Python and one of Java.
mod Codec
use bmk_dev.Base.{
  ℕ, ◌+◌, Bool, true, false, Option, none, some, List, [], ◌∷◌, ◌++◌, contains, list_eq, nat_eq,
  option_eq, ◌==◌, if◌then◌else◌, ◌≡◌, ◌≢◌, ◌⊎◌, refl, ap, sym, ◌∙◌, arith, inl, inr, ==-cases,
}
use mathlib.Core.Bool.{true≢false}
use mathlib.Core.Option.{or_else, get_or}
use bmk_dev.Base.Text.{Text, codes}
use bmk_dev.Base.Dict.{Dict, lookup, insert}
use bmk_dev.Base.Json.{
  Json, number, string, object, Fields, no_fields, field, get_field, set_field, erase_field,
  same_json,
}
use bmk_dev.Runners.Syntax.{Function, Tree}
use bmk_dev.Core.GateChecks.{layer_count}
use bmk_dev.Core.Metadata.{
  Library, Packet, taxonomy, taxonomy_of, fields_of, stats_of, synchronized_metadata,
  integration_key, integration_layers, layer_of, with_oracle, with_counts, atomic_loop,
  integration_loop, previous_of, language_of, named, test_names,
}
use bmk_dev.Core.Metadata.Main.{
  Files, Ending, ended, main, sync_loop, sync_task, sync_file, sync_decoded, compare_task,
}
use bmk_dev.Core.Metadata.Rerun.{main-check_after}
use bmk_dev.Core.Metadata.Results.{
  synchronized_metadata-counts, synchronized_metadata-labels, counted, CountsLabels,
}
use bmk_dev.Tests.Metadata.Codec.{library, codec, accept, read, write}
use bmk_dev.Tests.Sample.{runner}

abbrev function_of : Text → Function
function_of n = record { name_of = n; decorators = [] }

abbrev file_of : List Text → Option (Option Tree)
file_of [] = none
file_of (n ∷ names) =
    some (some (record { body = []; functions = bmk_dev.Base.map function_of (n ∷ names) }))

abbrev python_packet : Packet ℕ
python_packet = record {
  location = codes "p" ∷ [];
  oracle = 0;
  test_file = λ name.
      if name == codes "test_atomic.py"
      then file_of (codes "test_a" ∷ codes "helper" ∷ [])
      else file_of (codes "test_b" ∷ codes "test_workflow" ∷ codes "test_c" ∷ []);
  java_runner = runner;
}

abbrev java_packet : Packet ℕ
java_packet = record {
  location = codes "j" ∷ [];
  oracle = 0;
  test_file = λ name. none;
  java_runner = runner;
}

abbrev packets : Text → Option (Packet ℕ)
packets task_id =
    if task_id == codes "p"
    then some python_packet
    else if task_id == codes "j"
    then some java_packet
    else none

abbrev previous : Fields ℕ
previous = field (integration_key (codes "test_c")) (string (codes "system_e2e")) no_fields

abbrev python_task : Fields ℕ
python_task =
    field (codes "depends_on") (number 3) (field (codes "taxonomy") (object previous) no_fields)

abbrev java_task : Fields ℕ
java_task = field (codes "language") (string (codes "Java")) no_fields

abbrev files : Files
files =
    (codes "task.json" ∷ codes "p" ∷ [], 239 ∷ 187 ∷ 191 ∷ library.dumps (object python_task))
    ∷ (codes "task.json" ∷ codes "j" ∷ [], library.dumps (object java_task))
    ∷ []

abbrev selected : List Text
selected = codes "p" ∷ codes "j" ∷ codes "p" ∷ []

final : Files
final = (main library packets false selected files).1

rewrites : main library packets false selected files ≡ (ended (codes "p" ∷ codes "j" ∷ []) 0, final)
unfolding main sync_loop sync_task sync_file sync_decoded compare_task final lookup insert list_eq
    nat_eq synchronized_metadata with_counts with_oracle taxonomy taxonomy_of integration_loop
    atomic_loop layer_of fields_of set_field erase_field same_json or_else accept read write
rewrites = refl

packet_cases :
    (i : Text) (p : Packet ℕ)
    → packets i ≡ some p
    → (i ≡ codes "p") × (p ≡ python_packet) ⊎ (i ≡ codes "j") × (p ≡ java_packet)
packet_cases i p h = elim (==-cases i (codes "p")) [
  | inl (t, same) ↦ inl (same, ground arith)
  | inr (f, _) ↦ elim (==-cases i (codes "j")) [
    | inl (t, same) ↦ inr (same, ground arith)
    | inr (g, _) ↦ absurd (ground arith)
  ]
]

ap_location : {p q : Packet ℕ} → p ≡ q → p.location ≡ q.location
ap_location h = ap (λ (r : Packet ℕ). r.location) h

places_differ : python_packet.location ≢ java_packet.location
unfolding list_eq nat_eq
places_differ h =
    let same : true ≡ false = ap (λ (l : List Text). l == python_packet.location) h in
    true≢false same

apart :
    (i j : Text) (p q : Packet ℕ)
    → packets i ≡ some p
    → packets j ≡ some q
    → p.location ≡ q.location
    → i ≡ j
apart i j p q pi qj l = elim (packet_cases i p pi) [
  | inl (a, b) ↦ elim (packet_cases j q qj) [
    | inl (c, d) ↦ a ∙ sym c
    | inr (c, d) ↦ absurd (places_differ (sym (ap_location b) ∙ l ∙ ap_location d))
  ]
  | inr (a, b) ↦ elim (packet_cases j q qj) [
    | inl (c, d) ↦ absurd (places_differ (sym (sym (ap_location b) ∙ l ∙ ap_location d)))
    | inr (c, d) ↦ a ∙ sym c
  ]
]

main-check_after_example : main library packets true selected final ≡ (ended [] 0, final)
main-check_after_example =
    main-check_after library codec packets apart (codes "p") (codes "j" ∷ codes "p" ∷ [])
      (codes "p" ∷ codes "j" ∷ []) 0 files final rewrites

expected : Option (Fields ℕ)
expected = synchronized_metadata library python_packet (codes "p") python_task

expected_fields : Fields ℕ
expected_fields = get_or expected no_fields

synchronized :
    synchronized_metadata library python_packet (codes "p") python_task ≡ some expected_fields
unfolding expected_fields expected accept read write lookup insert list_eq nat_eq
    synchronized_metadata with_counts with_oracle taxonomy taxonomy_of integration_loop atomic_loop
    layer_of fields_of set_field erase_field or_else
synchronized = refl

synchronized_metadata-counts_example :
    (labels : Dict Text Text) × (stats : Fields ℕ) × (oracle : Fields ℕ) × (get_field ℕ
        (codes "taxonomy")
        expected_fields
      ≡ some (object (fields_of library labels)))
    × (get_field ℕ (codes "stats") expected_fields ≡ some (object stats))
    × CountsLabels library python_packet (codes "p") (codes "atomic") stats labels
    × CountsLabels library python_packet (codes "p") (codes "integration") stats labels
    × CountsLabels library python_packet (codes "p") (codes "system_e2e") stats labels
    × (get_field ℕ (codes "oracle") expected_fields ≡ some (object oracle))
    × (get_field ℕ (codes "count") oracle
        ≡ counted library python_packet (codes "p") (
            layer_count (codes "atomic") labels
            + layer_count (codes "integration") labels
            + layer_count (codes "system_e2e") labels))
    × (get_field ℕ (codes "base_function_count") oracle ≡ get_field ℕ (codes "count") oracle)
synchronized_metadata-counts_example =
    synchronized_metadata-counts library python_packet (codes "p") python_task expected_fields
      synchronized

python : (language_of library (named library (codes "p") python_task) == codes "java") ≡ false
unfolding list_eq nat_eq set_field
python = refl

previously : previous_of library python_task ≡ object previous
unfolding list_eq nat_eq
previously = refl

test_c :
    contains (codes "test_b" ∷ codes "test_workflow" ∷ codes "test_c" ∷ []) (codes "test_c") ≡ true
unfolding list_eq nat_eq
test_c = refl

labelled_before :
    get_field ℕ (integration_key (codes "test_c")) previous ≡ some (string (codes "system_e2e"))
unfolding list_eq nat_eq
labelled_before = refl

system_layer : contains integration_layers (codes "system_e2e") ≡ true
unfolding list_eq nat_eq
system_layer = refl

integration_names :
    test_names (python_packet.test_file (codes "test_integration.py"))
    ≡ some (codes "test_b" ∷ codes "test_workflow" ∷ codes "test_c" ∷ [])
unfolding list_eq nat_eq
integration_names = refl

synchronized_metadata-labels_example :
    (labels : Fields ℕ) × (get_field ℕ (codes "taxonomy") expected_fields ≡ some (object labels))
    × (get_field ℕ (integration_key (codes "test_c")) labels ≡ some (string (codes "system_e2e")))
synchronized_metadata-labels_example =
    synchronized_metadata-labels library python_packet (codes "p") python_task expected_fields
      previous (codes "test_b" ∷ codes "test_workflow" ∷ codes "test_c" ∷ []) (codes "test_c")
      (codes "system_e2e") python previously integration_names test_c labelled_before system_layer
      synchronized
