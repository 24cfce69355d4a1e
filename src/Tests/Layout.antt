-- ===== src/Tests/Layout.antt =====
-- The theorems of the layout at a disk with a packet in each tree, one of them in both.
use bmk_dev.Base.{false, some, none, [], ◌∷◌, List, contains, list_eq, nat_eq, option_eq, ◌≡◌, refl}
use bmk_dev.Base.Text.{Text, codes}
use bmk_dev.Base.Sorting.{sorted, insert_sorted}
use bmk_dev.Base.Dict.{lookup, insert, update}
use bmk_dev.Core.Layout.{
  Location, Disk, bucket_loop, languages_loop, packet_loop, task_dir, tier_of, tasks, benches,
  packet_dirname,
}
use bmk_dev.Core.Layout.Standing.{Stands, task_dir-Stands}
use bmk_dev.Core.Layout.Resolution.{tier_of-filed}

abbrev a : Text
a = codes "a"

abbrev pub b : Text
b = codes "b"

abbrev dirs : List Location
dirs =
    (codes "go" ∷ tasks [])
    ∷ (a ∷ codes "go" ∷ tasks [])
    ∷ (codes "go" ∷ benches [])
    ∷ (a ∷ codes "go" ∷ benches [])
    ∷ (packet_dirname ∷ a ∷ codes "go" ∷ benches [])
    ∷ (b ∷ codes "go" ∷ benches [])
    ∷ (packet_dirname ∷ b ∷ codes "go" ∷ benches [])
    ∷ []

abbrev pub disk : Disk
disk = record {
  is_dir = contains dirs;
  is_file = λ _. false;
  iterdir = λ _. b ∷ a ∷ [];
  read_json = λ _. none;
}

task_dir-b : task_dir [] disk b ≡ some (packet_dirname ∷ b ∷ codes "go" ∷ benches [])
unfolding lookup insert update bucket_loop languages_loop packet_loop sorted insert_sorted list_eq
    nat_eq
task_dir-b = refl

task_dir-Stands_example : Stands [] disk b (packet_dirname ∷ b ∷ codes "go" ∷ benches [])
task_dir-Stands_example =
    task_dir-Stands [] disk b (packet_dirname ∷ b ∷ codes "go" ∷ benches []) task_dir-b

tier_of-filed_example : tier_of [] disk a ≡ some (codes "tasks")
unfolding list_eq nat_eq
tier_of-filed_example = tier_of-filed [] disk a (codes "go") refl refl
