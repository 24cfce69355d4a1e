-- ===== src/Core/Gate/Soundness.antt =====
-- What a packet that passes the static gate satisfies.
use bmk_dev.Base.{
  split_nil, ℕ, true, false, Option, none, some, List, [], ◌∷◌, ◌++◌, map, list_eq, nat_eq,
  option_eq, ◌==◌, ◌≡◌, refl, arith, is_nil, length, inl, inr, Bool-cases, Option-cases,
}
use bmk_dev.Base.Text.{Text, codes, lower}
use bmk_dev.Base.Floats.{Floats}
use bmk_dev.Runners.{Runner}
use bmk_dev.Core.GateChecks.{GateError, Meta, distinct, leaf_key}
use bmk_dev.Core.Gate.Checks.{
  no_error, same_id, HasFloors, floor_errors_sound, HasTaxonomy, taxonomy_errors_sound, Known,
  dependency_errors_sound,
}
use bmk_dev.Core.Gate.{
  PacketFiles, errors_of, check_task, check_packet, check_meta, check_runner, check_language,
  check_suites, check_python, layer_errors, suite_errors, missing_files, main, spec_errors,
}

module _ (F : Floats) {Host : Type 0} (packet : PacketFiles Host) where
  check_python_sound :
      (data_of : Meta) (errors : List GateError)
      → errors_of (check_python F packet data_of errors) ≡ []
      → errors ≡ []
  unfolding check_python
  check_python_sound data_of errors h =
      (split_nil errors _ (split_nil _ _ (split_nil _ _ (split_nil _ _ h).0).0).0).0

  module _ (runner : Runner Host) (data_of : Meta) where
    abbrev pub ids : Text → List Text
    ids suite = runner.discover packet.oracle suite

    check_language_sound :
        (errors : List GateError)
        → errors_of (check_language F packet data_of errors) ≡ []
        → errors ≡ []
    unfolding check_language
    check_language_sound errors h = elim (Bool-cases (lower data_of.language == codes "python")) [
      | inl python ↦ check_python_sound data_of errors (ground arith)
      | inr other ↦ ground arith
    ]

    -- The early return has errors.
    check_suites_sound :
        (before : List GateError)
        → errors_of (check_suites F packet runner data_of before) ≡ []
        → (before ≡ [])
          × (layer_errors F packet runner data_of (ids (codes "atomic")) (ids (codes "integration"))
              ≡ [])
    unfolding check_suites
    check_suites_sound before h =
        let errors =
          before ++ suite_errors F packet (ids (codes "atomic")) (ids (codes "integration")) in
        let layers =
          layer_errors F packet runner data_of (ids (codes "atomic")) (ids (codes "integration")) in
        let later : errors_of (check_language F packet data_of (errors ++ layers)) ≡ [] =
          ground arith in
        let (e, l) = split_nil errors layers (check_language_sound (errors ++ layers) later) in
        ((split_nil before _ e).0, l)

    abbrev pub atomic_count : ℕ
    atomic_count = length (distinct (map runner.function_of (ids (codes "atomic"))))

    abbrev pub integration_count : ℕ
    integration_count = length (distinct (map runner.function_of (ids (codes "integration"))))

    abbrev pub keys_of : Text → List Text
    keys_of suite = map (λ (test : Text). leaf_key (runner.function_of test)) (ids suite)

    -- What the layers of the packet satisfy.
    abbrev pub IsSound : Type 0
    IsSound =
        HasFloors atomic_count integration_count data_of
        × HasTaxonomy (keys_of (codes "atomic")) (keys_of (codes "integration")) data_of
        × Known (runner.dependencies packet.oracle) (keys_of (codes "atomic"))
        × (is_nil packet.target_imports ≡ false)

    layer_errors_sound :
        layer_errors F packet runner data_of (ids (codes "atomic")) (ids (codes "integration")) ≡ []
        → IsSound
    unfolding layer_errors
    layer_errors_sound h =
        let (h1, targets) = split_nil _ _ h in
        let (h2, dependencies) = split_nil _ _ h1 in
        let (floors, taxonomy) = split_nil _ _ h2 in
        (
          floor_errors_sound _ _ data_of floors,
          taxonomy_errors_sound _ _ data_of taxonomy,
          dependency_errors_sound F _ _ _ dependencies,
          no_error _ _ targets,
        )

  check_runner_sound :
      (task_id : Text) (data_of : Meta) (errors : List GateError) (found : Option (Runner Host))
      → errors_of (check_runner F packet task_id data_of errors found) ≡ []
      → (errors ≡ [])
        × (data_of.instance_id ≡ some task_id)
        × (runner : Runner Host) × (found ≡ some runner)
        × IsSound runner data_of
  unfolding check_runner
  check_runner_sound task_id data_of errors none h = absurd (ground (arith, split_nil errors _ h))
  check_runner_sound task_id data_of errors (some runner) h =
      let (before, layers) = check_suites_sound runner data_of _ h in
      let (e, i) = split_nil errors _ before in
      (e, same_id _ _ (no_error _ _ i), runner, refl, layer_errors_sound runner data_of layers)

  -- The packet has all its files, its task.json is decoded and belongs to the task, its spec has no
  -- error, and its layers are sound by the runner of its language.
  abbrev pub IsAccepted : Text → Type 0
  IsAccepted task_id =
      (packet.has_spec ≡ true)
      × (packet.has_task_json ≡ true)
      × (spec_errors F packet ≡ [])
      × (data_of : Meta) × (packet.task_json ≡ some data_of)
      × (data_of.instance_id ≡ some task_id)
      × (runner : Runner Host) × (packet.runner_for (lower data_of.language) ≡ some runner)
      × IsSound runner data_of

  check_meta_sound :
      (task_id : Text) (errors : List GateError) (found : Option Meta)
      → errors_of (check_meta F packet task_id errors found) ≡ []
      → (errors ≡ [])
        × (data_of : Meta) × (found ≡ some data_of)
        × (data_of.instance_id ≡ some task_id)
        × (runner : Runner Host) × (packet.runner_for (lower data_of.language) ≡ some runner)
        × IsSound runner data_of
  unfolding check_meta
  check_meta_sound task_id errors none h = absurd (ground (arith, split_nil errors _ h))
  check_meta_sound task_id errors (some data_of) h =
      let (before, i, runner, e, sound) = check_runner_sound task_id data_of _ _ h in
      ((split_nil errors _ before).0, data_of, refl, i, runner, e, sound)

  check_packet_sound :
      (task_id : Text)
      → errors_of
          (check_packet F packet task_id (missing_files packet.has_spec packet.has_task_json))
        ≡ []
      → IsAccepted task_id
  unfolding check_packet
  check_packet_sound task_id h = elim (Bool-cases packet.has_spec) [
    | inr no_spec ↦ absurd (ground arith)
    | inl spec ↦ elim (Bool-cases packet.has_task_json) [
      | inr no_json ↦ absurd (ground arith)
      | inl json ↦
          let (no_errors, data_of, decoded, i, runner, e, sound) =
            check_meta_sound task_id (spec_errors F packet) packet.task_json (ground arith) in
          (spec, json, no_errors, data_of, decoded, i, runner, e, sound)
    ]
  ]

-- Where the gate ends with 0, the task has a packet with a spec without errors and a task.json of
-- its own, the suites that the runner of its language discovers have at least 30 and 25 functions,
-- task.json counts at least as many, adds up and reaches 60, the taxonomy has exactly the keys of
-- the tests and no more of a layer than task.json counts, each prerequisite is the leaf of an
-- atomic test, and the task has an import root.
pub main-IsAccepted :
    (F : Floats) {Host : Type 0} (task_dir : Text → Option (PacketFiles Host)) (task_id : Text)
    → main F task_dir (task_id ∷ []) ≡ 0
    → (packet : PacketFiles Host) × (task_dir task_id ≡ some packet) × IsAccepted F packet task_id
unfolding main check_task
main-IsAccepted F task_dir task_id h = elim (Option-cases (task_dir task_id)) [
  | inl missing ↦ absurd (ground arith)
  | inr (packet, found) ↦ (packet, found, check_packet_sound F packet task_id (ground arith))
]
