-- ===== src/Core/Layout/Resolution.antt =====
-- That nothing in a bucket is overlooked, and that `duplicates` names the ids of both trees.
use bmk_dev.Base.{
  contains-keep, any-contains, true, ◌&&◌, some, contains, nat_eq, list_eq, option_eq, ◌≡◌, refl,
  sym, ◌∙◌, arith, inl, inr,
}
use mathlib.Core.Option.{or_else, none-ne-some}
use bmk_dev.Base.Text.{Text, codes}
use bmk_dev.Base.Sorting.{le_text, contains-sorted}
use bmk_dev.Base.Dict.{Dict, keys, has_key, has_key-some, contains-keys}
use bmk_dev.Core.Layout.{
  Location, Disk, languages, graduated_dirs, benched_packet_dirs, duplicates, tasks, tier_of,
}
use bmk_dev.Core.Layout.Laws.{is_filed, has_key-bucketed}
use bmk_dev.Core.Layout.Standing.{task_dir-lookup, task_dir-Stands}

contains-keys-eq_has_key : (d : Dict Text Location) (k : Text) → contains (keys d) k ≡ has_key d k
contains-keys-eq_has_key d k = ground (arith, contains-keys d k)

module _ (root : Location) (disk : Disk) where
  -- An id is in `duplicates` exactly when both trees have a packet of it.
  pub duplicates-exact :
      (task_id : Text)
      → contains (duplicates root disk) task_id ≡ (
          has_key (graduated_dirs root disk) task_id
          && has_key (benched_packet_dirs root disk) task_id)
  duplicates-exact task_id =
      contains-sorted le_text task_id _
      ∙ contains-keep (contains (keys (benched_packet_dirs root disk)))
          (keys (graduated_dirs root disk)) task_id
      ∙ rw
          (
            contains-keys-eq_has_key (graduated_dirs root disk) task_id,
            contains-keys-eq_has_key (benched_packet_dirs root disk) task_id,
          )
          refl

  -- A directory with a task's name in the bucket of a language under `tasks/` is resolved there,
  -- whatever `wip/` holds.
  pub tier_of-filed :
      (task_id language : Text)
      → contains languages language ≡ true
      → is_filed disk (tasks root) task_id language ≡ true
      → tier_of root disk task_id ≡ some (codes "tasks")
  unfolding or_else
  tier_of-filed task_id language l h =
      let (path, g) = has_key-some (graduated_dirs root disk) task_id (
        has_key-bucketed disk (tasks root) task_id
        ∙ any-contains (is_filed disk (tasks root) task_id) languages language l h) in
      elim (task_dir-Stands root disk task_id path
        (task_dir-lookup root disk task_id ∙ rw g refl)).5 [
          | inl (_, tier, _) ↦ tier
          | inr (gone, _, _, _) ↦ absurd (none-ne-some path (sym gone ∙ g))
        ]
