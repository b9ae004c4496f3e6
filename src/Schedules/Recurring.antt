-- ===== src/Schedules/Recurring.antt =====
-- dao/schedule_dao_impl.go: the changes of a recurring schedule: `DeleteSchedule`,
-- `UpdateRecurringScheduleStatus` and `UpdateRecurringSchedule`.
use goscheduler.Shared.{ℕ, List, [], ◌∷◌, Option, none, some, true, false, if◌then◌else◌, keep, map}
use goscheduler.Shared.Int.{ℤ, negsuc}
use goscheduler.Shared.Text.{Text, text_eq}
use goscheduler.Store.Schedule.{
  Schedule, Status, no_schedule, zero_uuid, deleted, paused, is_recurring,
}
use goscheduler.Dao.Session.{Result, ok, err}
use goscheduler.Schedules.Session.{
  Row, Tables, M, pure, attempt, ◌>>=◌, ◌>>◌, read, write, same_schedule, same_run, remove_row,
  set_by_id, set_by_partition,
}
use goscheduler.Schedules.Rows.{get_schedule, insert_recurring, set_status_from, status_row}
use goscheduler.Schedules.Runs.{Page, get_future_runs}

-- The rows of the runs of a schedule, without the parent, which the query does not select.
abbrev pub runs_of : Text → List Row → List Row
runs_of id rows =
    map {A = Row}
      (λ row. record row { entry = record row.entry { parent_schedule_id = zero_uuid } })
      (keep (λ row. text_eq row.entry.parent_schedule_id id) rows)

-- `getRuns` with a negative page size, which turns paging off.
abbrev pub runs_page : Text → Result Tables → Page
runs_page id (ok t) = record { rows = runs_of id t.runs; next = none; closes = true }
runs_page id (err e) = record { rows = []; next = none; closes = false }

-- What becomes of a schedule when an error of `setStatus` is only logged.
abbrev pub enriched : ℤ → ℕ → Result Tables → Schedule → Schedule
enriched now flush_period (ok t) s = (set_status_from now flush_period (status_row t s) s).1
enriched now flush_period (err e) s = s

abbrev pub found : Option (List Schedule × Option ℕ) → List Schedule
found none = []
found (some (runs, state)) = runs

module _ (now : ℤ) (flush_period : ℕ) where
  -- `getFutureRuns(id, -1, nil)`, which takes one round.
  unfoldable pub all_future_runs : Text → M (List Schedule)
  unfolding get_future_runs
  all_future_runs id = do
    answer ← attempt (read ok)
    pure (
        found (
          get_future_runs (enriched now flush_period answer) (λ state size. runs_page id answer) now
            1 (negsuc 0) none))

-- The row that `UPDATE … SET status` leaves; where there is none it makes one of the key alone.
unfoldable pub with_status : Schedule → Status → Option Row → Row
with_status key status none = record { entry = record key { status = status }; decodes = false }
with_status key status (some row) = record row { entry = record row.entry { status = status } }

-- The two updates of a batch.
unfoldable pub set_recurring_status : Schedule → Status → Tables → Tables
unfolding with_status
set_recurring_status s status t = record t {
  by_id =
      set_by_id s.schedule_id
        (some (
          with_status (record no_schedule { schedule_id = s.schedule_id }) status
            (t.by_id s.schedule_id)))
        t.by_id;
  by_partition =
      set_by_partition s.partition_id s.schedule_id s.app_id
        (some (
          with_status
            (record no_schedule {
              partition_id = s.partition_id;
              schedule_id = s.schedule_id;
              app_id = s.app_id;
            })
            status (t.by_partition s.partition_id s.schedule_id s.app_id)))
        t.by_partition;
}

-- `deleteFromSchedule` for each run.
unfoldable pub delete_from_schedules : List Schedule → Tables → Tables
delete_from_schedules [] t = t
delete_from_schedules (run ∷ runs) t =
    delete_from_schedules runs (record t { one_time = remove_row same_schedule run t.one_time })

-- `deleteFromRuns` for each run.
unfoldable pub delete_from_runs : Text → List Schedule → Tables → Tables
delete_from_runs parent [] t = t
delete_from_runs parent (run ∷ runs) t =
    delete_from_runs parent runs
      (record t { runs = remove_row same_run (record run { parent_schedule_id = parent }) t.runs })

-- `deleteOneTimeSchedule`.
unfoldable pub delete_one_time_schedule : Schedule → M Schedule
unfolding delete_from_schedules
delete_one_time_schedule s = do write (delete_from_schedules (s ∷ [])); pure s

module _ (now : ℤ) (flush_period : ℕ) where
  -- `deleteRecurringSchedule`.
  unfoldable pub delete_recurring_schedule : Schedule → M Schedule
  delete_recurring_schedule s = do
    runs ← all_future_runs now flush_period s.schedule_id
    write (λ t. delete_from_schedules runs (set_recurring_status s deleted t))
    pure (record s { status = deleted })

  -- `DeleteSchedule`.
  unfoldable pub delete_schedule : Text → M Schedule
  unfolding delete_recurring_schedule
  delete_schedule id = do
    s ← get_schedule id
    if is_recurring s then delete_recurring_schedule s else delete_one_time_schedule s

  -- The runs that a change of status takes away.
  abbrev pub runs_to_delete : Schedule → Status → M (List Schedule)
  runs_to_delete s status =
      if text_eq status paused then all_future_runs now flush_period s.schedule_id else pure []

  -- `UpdateRecurringScheduleStatus`.
  unfoldable pub update_recurring_schedule_status : Schedule → Status → M Schedule
  update_recurring_schedule_status s status = do
    runs ← runs_to_delete s status
    write (λ t.
        delete_from_schedules runs
          (delete_from_runs s.schedule_id runs (set_recurring_status s status t)))
    pure (record s { status = status })

  -- `UpdateRecurringSchedule`, of a schedule with a callback: the source panics when it asks for the type
  -- of none. The handler gives it what `GetSchedule` read, where the callback is never missing.
  unfoldable pub update_recurring_schedule : Schedule → M Schedule
  update_recurring_schedule s = do
    runs ← all_future_runs now flush_period s.schedule_id
    write (λ t.
        delete_from_schedules runs
          (delete_from_runs s.schedule_id runs (insert_recurring s s.status t)))
    pure s
