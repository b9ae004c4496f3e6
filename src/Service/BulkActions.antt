-- ===== src/Service/BulkActions.antt =====
-- service/bulk_action.go: a bulk action over a range of time, and the tasks that it pushes.
use goscheduler.Shared.{◌*◌, ℕ, zero, suc, List, [], ◌++◌, map, Bool, true, false, if◌then◌else◌}
use goscheduler.Shared.Int.{ℤ, pos, sub64, ltb_ℤ}
use goscheduler.Shared.Text.{Text, codes, text_eq}
use goscheduler.Store.App.{App}
use goscheduler.Store.Schedule.{Status}
use goscheduler.Schedules.BulkActing.{ActionType, reconciles, deletes, other}
use goscheduler.Schedules.Windows.{Range, time_stamps}
use goscheduler.Service.Errors.{invalid_data, invalid_bulk_action_type}
use goscheduler.Service.Lifecycle.{H, ◌>>=◌, ◌>>◌, give, refuse_if}
use goscheduler.Service.Listings.{get_active_or_inactive_app, or_invalid}
use goscheduler.Service.Queries.{Parameters, Texts, parse}

pub record BulkActionTask : Type 0 where
  pub app : App
  pub partition_id : ℕ
  pub schedule_time_group : ℤ
  pub status : Status
  pub action_type : ActionType

-- The tasks of one partition: the loop from minute to minute is that of `timeStamps`.
abbrev pub partition_tasks : App → Status → ActionType → List ℤ → ℕ → List BulkActionTask
partition_tasks app status action times partition =
    map
      (λ time. record {
        app = app;
        partition_id = partition;
        schedule_time_group = time;
        status = status;
        action_type = action;
      })
      times

-- The first partitions' tasks.
unfoldable pub tasks_under : App → Status → ActionType → List ℤ → ℕ → List BulkActionTask
tasks_under app status action times zero = []
tasks_under app status action times (suc partition) =
    tasks_under app status action times partition
    ++ partition_tasks app status action times partition

-- `pushBulkActionQueries`; the queue is an output.
unfoldable pub push_bulk_action_queries : App → Range → Status → ActionType → List BulkActionTask
push_bulk_action_queries app range status action =
    tasks_under app status action (time_stamps range.start_time range.end_time) app.partitions

abbrev pub max_bulk_action_period : ℤ
max_bulk_action_period = pos (7 * 24 * 60 * 60)

-- `validateTimeRange`.
abbrev pub validate_time_range : Range → H (Unit {0})
validate_time_range range = do
  refuse_if (ltb_ℤ range.end_time range.start_time) invalid_data
  refuse_if (ltb_ℤ max_bulk_action_period (sub64 range.end_time range.start_time)) invalid_data

-- The action that a text names.
abbrev pub action_of : Text → ActionType
action_of text =
    if text_eq text (codes "reconcile")
    then reconciles
    else if text_eq text (codes "delete")
    then deletes
    else other

abbrev pub is_other : ActionType → Bool
is_other reconciles = false
is_other deletes = false
is_other other = true

-- `ExecuteBulkAction`.
unfoldable pub execute_bulk_action : Text → ActionType → Status → Range → H (List BulkActionTask)
execute_bulk_action id action status range = do
  refuse_if (is_other action) invalid_bulk_action_type
  app ← get_active_or_inactive_app id
  validate_time_range range
  give (push_bulk_action_queries app range status action)

-- `BulkAction`, from the parameters on.
unfoldable pub bulk_action : Texts → ℤ → Text → Text → Parameters → H (List BulkActionTask)
bulk_action texts now id action p = do
  q ← or_invalid (parse texts now p)
  execute_bulk_action id (action_of action) q.status q.time_range
