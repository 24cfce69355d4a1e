-- ===== src/Tests/Gate.antt =====
-- The static gate on a concrete packet.
use mathlib.Core.List.{flat_map}
use mathlib.Core.Option.{or_else}
use bmk_dev.Base.{
  ℕ, zero, suc, ◌+◌, ◌≡◌, refl, true, false, Option, none, some, List, [], ◌∷◌, ◌++◌, map, list_eq,
  nat_eq, string_eq, option_eq, if◌then◌else◌, ◌==◌,
}
use bmk_dev.Base.Text.{Text, codes}
use bmk_dev.Base.Dict.{lookup, keys}
use bmk_dev.Runners.{Runner}
use bmk_dev.Core.GateChecks.{
  Meta, section_errors, leakage_errors, language_errors, distinct, floor_errors, taxonomy_errors,
  dependency_errors,
}
use bmk_dev.Core.PythonChecks.{
  import_errors, annotate_lines, annotate_line, composition_errors, duplicate_imports,
  fixture_errors,
}
use bmk_dev.Core.Gate.{PacketFiles, PythonFiles, main}
use bmk_dev.Core.Gate.Soundness.{main-IsAccepted, IsAccepted}
use bmk_dev.Tests.Sample.{numbers}

-- The ids of a suite: `n` of them, by one character behind the suite's letter.
abbrev ids_of : ℕ → ℕ → List Text
ids_of suite zero = []
ids_of suite (suc n) = (suite ∷ codes "::" ++ ((b'A' + n) ∷ [])) ∷ ids_of suite n

abbrev test_runner : Runner ℕ
test_runner = record {
  discover = λ host suite. if suite == codes "atomic" then ids_of b'a' 30 else ids_of b'i' 30;
  setup = λ env. [];
  batch = λ suite tests offset timeout. record { command = []; report = none };
  outcomes = λ report out. some none;
  function_of = λ id. id;
  synthetic_id = λ suite. suite;
  dependencies = λ host. map (λ (id : Text). (id, codes "A" ∷ [])) (ids_of b'i' 30);
  provenance = λ env. none;
}

abbrev meta : Meta
meta = record {
  language = codes "Python";
  instance_id = some (codes "t");
  has_validation = true;
  atomic = 31;
  integration = 30;
  system_e2e = 0;
  count = 61;
  taxonomy =
      map (λ (id : Text). (id, codes "atomic")) (ids_of b'a' 30)
      ++ map (λ (id : Text). (id, codes "integration")) (ids_of b'i' 30);
}

abbrev files : PythonFiles
files = record {
  has_requirements = true;
  promised = λ imported. true;
  atomic_imports = (codes "pkg.core", 3) ∷ [];
  annotations = (codes "test_atomic::test_a", "positive") ∷ [];
  atomic_spans = record { name_of = codes "test_a"; lineno = 1; end_lineno = 4 } ∷ [];
  helper_lines = 2 ∷ [];
  bound_names = λ file. (codes "pkg", 1) ∷ [];
  fixture_paths = λ file. [];
  fixture_exists = λ parts. true;
}

abbrev packet : PacketFiles ℕ
packet = record {
  oracle = 0;
  has_spec = true;
  has_task_json = true;
  headings =
      codes "Product Overview"
      ∷ codes "Scope and Non-Goals"
      ∷ codes "Public API"
      ∷ codes "State Model"
      ∷ codes "Error Semantics"
      ∷ codes "Cross-View Invariants"
      ∷ codes "Representative Workflow"
      ∷ codes "Environment"
      ∷ codes "Evaluation Notes"
      ∷ [];
  mentions = λ term. false;
  task_json = some meta;
  filed_under = some (codes "python");
  runner_for = λ language. some test_runner;
  target_imports = codes "pkg" ∷ [];
  python_files = files;
}

abbrev task_dir : Text → Option (PacketFiles ℕ)
task_dir task_id = some packet

passes : main numbers task_dir (codes "t" ∷ []) ≡ 0
unfolding main section_errors leakage_errors language_errors distinct floor_errors taxonomy_errors
    dependency_errors import_errors annotate_lines annotate_line composition_errors
    duplicate_imports fixture_errors list_eq nat_eq string_eq option_eq lookup keys or_else flat_map
passes = refl

main-IsAccepted_example :
    (p : PacketFiles ℕ) × (task_dir (codes "t") ≡ some p) × IsAccepted numbers p (codes "t")
main-IsAccepted_example = main-IsAccepted numbers task_dir (codes "t") passes
