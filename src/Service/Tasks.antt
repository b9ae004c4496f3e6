-- ===== src/Service/Tasks.antt =====
-- service/bulk_action.go: which tasks a bulk action pushes.
use goscheduler.Shared.{
  Bool-cases, ◌==◌, ℕ, zero, suc, ◌+◌, ◌^◌, ◌<◌, List, [], ◌∷◌, ◌≡◌, ◌↔◌, refl, sym, ap, arith, inl,
  inr, Has, Has-append, Has-left, Has-right,
}
use mathlib.Core.Path.{subst}
use goscheduler.Shared.Int.{ℤ, pos}
use goscheduler.Store.App.{App}
use goscheduler.Store.Schedule.{Status}
use goscheduler.Schedules.BulkActing.{ActionType}
use goscheduler.Schedules.Windows.{Range, time_stamps}
use goscheduler.Schedules.Minutes.{IsMinute, time_stamps_lem}
use goscheduler.Service.BulkActions.{
  BulkActionTask, partition_tasks, tasks_under, push_bulk_action_queries,
}

module _ (app : App) (status : Status) (action : ActionType) where
  abbrev pub task_at : ℕ → ℤ → BulkActionTask
  task_at partition time = record {
    app = app;
    partition_id = partition;
    schedule_time_group = time;
    status = status;
    action_type = action;
  }

  -- A task for a partition and one of the times.
  abbrev IsTask : List ℤ → ℕ → BulkActionTask → Type 0
  IsTask times partitions task =
      (partition : ℕ) × (time : ℤ) × (partition < partitions)
      × Has time times
      × (task ≡ task_at partition time)

  tasks_of_partition :
      (partition : ℕ) (times : List ℤ) (task : BulkActionTask)
      → Has task (partition_tasks app status action times partition)
      → (time : ℤ) × Has time times × (task ≡ task_at partition time)
  tasks_of_partition partition [] task h = elim h [ ]
  tasks_of_partition partition (u ∷ times) task (inl e) = (u, inl refl, e)
  tasks_of_partition partition (u ∷ times) task (inr h) =
      let (time, there, e) = tasks_of_partition partition times task h in (time, inr there, e)

  Has-task_at :
      (partition : ℕ) (times : List ℤ) (time : ℤ)
      → Has time times
      → Has (task_at partition time) (partition_tasks app status action times partition)
  Has-task_at partition [] time h = elim h [ ]
  Has-task_at partition (u ∷ times) time (inl e) = inl (ap (task_at partition) e)
  Has-task_at partition (u ∷ times) time (inr h) = inr (Has-task_at partition times time h)

  tasks_sound :
      (times : List ℤ) (partitions : ℕ) (task : BulkActionTask)
      → Has task (tasks_under app status action times partitions)
      → IsTask times partitions task
  unfolding tasks_under
  tasks_sound times zero task h = elim h [ ]
  tasks_sound times (suc p) task h =
      elim (Has-append task (tasks_under app status action times p) _ h) [
        | inl before ↦
            let (partition, time, low, there, e) = tasks_sound times p task before in
            (partition, time, omega arith, there, e)
        | inr here ↦
            let (time, there, e) = tasks_of_partition p times task here in
            (p, time, omega arith, there, e)
      ]

  tasks_complete :
      (times : List ℤ) (partitions partition : ℕ) (time : ℤ)
      → partition < partitions
      → Has time times
      → Has (task_at partition time) (tasks_under app status action times partitions)
  unfolding tasks_under
  tasks_complete times zero partition time low there = absurd (omega arith)
  tasks_complete times (suc p) partition time low there = elim (Bool-cases (partition == p)) [
    | inl y ↦
        let same : p ≡ partition = ground arith in
        Has-right _ (tasks_under app status action times p) _ (
          subst (λ q. Has (task_at partition time) (partition_tasks app status action times q))
            (sym same) (Has-task_at partition times time there))
    | inr z ↦
        Has-left _ (tasks_under app status action times p) _
          (tasks_complete times p partition time (ground arith) there)
  ]

  -- For a range with times from 0 on that does not end within a minute of 2 ^ 63, a task is pushed
  -- exactly if it is one of the app, the status and the action, for a partition below the number of the
  -- app's partitions and a time a whole number of minutes after the start and before the end.
  pub push_bulk_action_queries_lem :
      (range : Range) (start end : ℕ) (task : BulkActionTask)
      → range.start_time ≡ pos start
      → range.end_time ≡ pos end
      → end + 60 < 2 ^ 63
      → Has task (push_bulk_action_queries app range status action) ↔ (
          (partition : ℕ) × (time : ℤ) × (partition < app.partitions)
          × IsMinute start end time
          × (task ≡ task_at partition time))
  unfolding push_bulk_action_queries
  push_bulk_action_queries_lem range start end task same_start same_end small =
      rw (same_start, same_end)
        (let times = time_stamps (pos start) (pos end) in
          (
            λ h.
                let (partition, time, low, there, e) = tasks_sound times app.partitions task h in
                (partition, time, low, (time_stamps_lem start end time small).0 there, e),
            λ (partition, time, low, minute, e).
                subst (λ t. Has t (tasks_under app status action times app.partitions)) (sym e)
                  (tasks_complete times app.partitions partition time low
                    ((time_stamps_lem start end time small).1 minute)),
          ))
