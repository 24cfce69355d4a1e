-- ===== src/Tests/Verdict.antt =====
-- The theorems of the verdicts at the disk of Tests.Layout.
use bmk_dev.Base.{
  true, false, not, some, [], ◌∷◌, ℕ, contains, list_eq, nat_eq, option_eq, string_eq, ◌≡◌, refl,
  map, keep,
}
use bmk_dev.Base.Text.{Text, codes}
use bmk_dev.Base.Sorting.{sorted, insert_sorted}
use bmk_dev.Base.Json.{number, object, Fields, no_fields, field}
use bmk_dev.Base.Dict.{Dict, lookup, insert, update}
use bmk_dev.Core.Layout.{Location, bucket_loop, languages_loop, packet_loop, benches}
use bmk_dev.Core.Slots.{Entry, slots, evidence_loop, first_of, rate, evidence_of}
use bmk_dev.Core.Verdict.{Gate, main, build, one, loop, selected_of}
use bmk_dev.Core.Verdict.Evidence.{is_measured, IsTraced, evidence_of-partition}
use bmk_dev.Core.Verdict.Drift.{IsFiled, main-check-write}
use bmk_dev.Core.Verdict.Check.{main-check_sound}
use bmk_dev.Tests.Sample.{numbers}
use bmk_dev.Tests.Layout.{disk, b}

abbrev task : Fields ℕ
task =
    field (codes "reference_score")
      (object (field (codes "passed") (number 3) (field (codes "total") (number 4) no_fields)))
      (field (codes "controls") (object (field (codes "dummy") (number 0) no_fields)) no_fields)

abbrev gate : Gate numbers
gate = record {
  root = [];
  disk = disk;
  load_json = λ _. some task;
  check_task = λ _. ([], []);
  dumps = λ v. v.instance_id;
}

abbrev success : ℕ
success = 0

abbrev files : Dict Location Text
files = (codes "verdict.json" ∷ b ∷ codes "go" ∷ benches [], codes "b\n") ∷ []

writes : main numbers gate (codes "--write" ∷ b ∷ []) [] ≡ some (0, files)
unfolding lookup insert update bucket_loop languages_loop packet_loop sorted insert_sorted list_eq
    nat_eq option_eq string_eq one loop build evidence_loop first_of rate
writes = refl

checks : main numbers gate (codes "--check" ∷ b ∷ []) files ≡ some (0, files)
unfolding lookup insert update bucket_loop languages_loop packet_loop sorted insert_sorted list_eq
    nat_eq option_eq string_eq one loop build evidence_loop first_of rate
checks = refl

not_written : contains (b ∷ []) (codes "--write") ≡ false
unfolding list_eq nat_eq
not_written = refl

selected : contains (selected_of numbers gate (codes "--check" ∷ b ∷ [])) b ≡ true
unfolding list_eq nat_eq
selected = refl

main-check-write_example :
    (success ≡ 0) × (main numbers gate (codes "--check" ∷ b ∷ []) files ≡ some (0, files))
main-check-write_example =
    main-check-write numbers gate (b ∷ []) not_written [] files success writes

main-check_sound_example : IsFiled numbers gate files b
main-check_sound_example =
    main-check_sound numbers gate (b ∷ []) not_written files files checks b selected

evidence_of-partition_example :
    (map (λ (e : Entry numbers). e.name) (evidence_of numbers task).0
      ≡ keep (is_measured numbers task) slots)
    × ((evidence_of numbers task).1 ≡ keep (λ name. not (is_measured numbers task name)) slots)
    × IsTraced numbers task (evidence_of numbers task).0
evidence_of-partition_example = evidence_of-partition numbers task
