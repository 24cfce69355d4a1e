-- ===== src/Tests/Cleanroom.antt =====
-- A cleanroom at a concrete task.
use bmk_dev.Base.{
  true, false, none, some, [], ◌∷◌, ◌≡◌, refl, list_eq, nat_eq, ◌==◌, if◌then◌else◌, map,
}
use bmk_dev.Base.Text.{Text, codes}
use bmk_dev.Core.Cleanroom.{
  Entries, TaskDir, Manifest, made, create_cleanroom, assert_no_banned_paths, leaked_loop,
  copy_tree, all_entries, public_entries,
}
use bmk_dev.Core.Cleanroom.Contents.{AllPublic, IsSpecified, NoneBanned, create_cleanroom-made}

abbrev task : TaskDir
task = record {
  read = λ path. if path == codes "spec.md" ∷ [] then some (codes "# spec") else none;
  starter = some (
      (codes "pkg" ∷ [], none)
      ∷ (codes "pkg" ∷ codes "a.py" ∷ [], some (codes "x"))
      ∷ (codes "pkg" ∷ codes "a.pyc" ∷ [], some [])
      ∷ []);
  source = codes "/tasks/t";
}

abbrev dumps : Manifest → Text
dumps manifest = manifest.run_id

abbrev entries : Entries
entries = all_entries dumps task (codes "/out") (codes "r1") (codes "main.py") (codes "m") true (
    public_entries dumps task (codes "/out") (codes "r1") (codes "main.py") (codes "m") true
      ((codes "public_packet" ∷ codes "spec.md" ∷ [], some (codes "# spec")) ∷ []))

paths :
    map (λ (path, _). path) entries
    ≡ (codes "solution" ∷ [])
      ∷ (codes "public_packet" ∷ [])
      ∷ (codes "public_packet" ∷ codes "spec.md" ∷ [])
      ∷ (codes "starter" ∷ [])
      ∷ (codes "starter" ∷ codes "pkg" ∷ [])
      ∷ (codes "starter" ∷ codes "pkg" ∷ codes "a.py" ∷ [])
      ∷ (codes "task_prompt.txt" ∷ [])
      ∷ (codes "cleanroom_manifest.json" ∷ [])
      ∷ []
unfolding copy_tree list_eq nat_eq
paths = refl

is_made :
    create_cleanroom dumps task (codes "/out") (codes "r1") (codes "main.py") (codes "m") true false
    ≡ made entries
unfolding create_cleanroom assert_no_banned_paths leaked_loop copy_tree list_eq nat_eq
is_made = refl

create_cleanroom-made_example :
    (false ≡ false) × IsSpecified task entries × AllPublic task true entries × NoneBanned entries
create_cleanroom-made_example =
    create_cleanroom-made dumps task (codes "/out") (codes "r1") (codes "main.py") (codes "m") true
      false entries is_made
