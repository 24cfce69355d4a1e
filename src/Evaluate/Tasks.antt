-- ===== src/Evaluate/Tasks.antt =====
-- The tasks of a run: what is asked for, and one result for each.
use bmk_dev.Base.{
  Bool, false, ◌&&◌, Option, List, [], ◌∷◌, ◌==◌, list_eq, nat_eq, contains, keep, map, ◌≡◌, refl,
  ap, contains-keep,
}
use bmk_dev.Base.Text.{Text, codes, strip, split_on}
use bmk_dev.Base.Floats.{Floats}
use bmk_dev.Core.Layout.{Location}
use bmk_dev.Evaluate.{resolve_tasks, Driver, TaskResult, run_one, run_all}

-- Unless all tasks are asked for, a task is run exactly when it is asked for and is one of the tasks
-- there are; what is asked for twice is run twice, in the order that was asked.
pub resolve_tasks-asked :
    (task_arg : Text) (ids : List Text)
    → (task_arg == codes "all") ≡ false
    → (resolve_tasks task_arg ids ≡ keep (contains ids) (map strip (split_on b',' task_arg)))
      × ((task_id : Text)
          → contains (resolve_tasks task_arg ids) task_id
            ≡ (contains (map strip (split_on b',' task_arg)) task_id && contains ids task_id))
unfolding resolve_tasks
resolve_tasks-asked task_arg ids h = (
  rw h refl,
  λ task_id. rw h (contains-keep (contains ids) (map strip (split_on b',' task_arg)) task_id),
)

module _ (F : Floats) {World : Type 0} (driver : Driver F World) where
  run_one-task_id :
      (task_id : Text) (dir : Location) (score_only : Bool) (oracles tasks : Option Location)
      (w : World)
      → (run_one F driver task_id dir score_only oracles tasks w).0.task_id ≡ task_id
  unfolding run_one
  run_one-task_id task_id dir score_only oracles tasks w = refl

  -- A run has one result for each of its tasks, in their order, whatever becomes of a task.
  pub run_all-tasks :
      (ids : List Text) (dir : Location) (score_only : Bool) (oracles tasks : Option Location)
      (w : World)
      → map
          (λ (r : TaskResult F). r.task_id)
          (run_all F driver ids dir score_only oracles tasks w).0
        ≡ ids
  unfolding run_all
  run_all-tasks [] dir score_only oracles tasks w = refl
  run_all-tasks (id ∷ ids) dir score_only oracles tasks w =
      let one = run_one F driver id dir score_only oracles tasks w in
      rw (run_one-task_id id dir score_only oracles tasks w)
        (ap (λ (l : List Text). id ∷ l) (run_all-tasks ids dir score_only oracles tasks one.1))
