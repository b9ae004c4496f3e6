-- ===== src/Schedules/Rows.antt =====
-- dao/schedule_dao_impl.go: `CreateSchedule`, `GetSchedule`, `GetEnrichedSchedule`, `CreateRun`,
-- `UpdateStatus` and `setStatus`. A write's time to live is left out. A row keeps the callback and the
-- times in seconds; the columns that stand for them in the database, and how they are read, are in
-- Columns. On a schedule without a callback the source panics when it asks for the type; the handlers
-- panic before, in the validation, so that it is not looked for here.
use goscheduler.Shared.{ℕ, List, [], ◌∷◌, Option, none, some, Bool, true, ◌&&◌, ◌==◌, if◌then◌else◌}
use goscheduler.Shared.Int.{ℤ}
use goscheduler.Shared.Text.{Text, text_eq}
use goscheduler.Store.Schedule.{
  Schedule, Status, StatusRow, no_schedule, zero_uuid, scheduled, is_recurring, set_status,
  set_unknown_status,
}
use goscheduler.Dao.Session.{Result, ok, err, not_found, no_json}
use goscheduler.Schedules.Session.{
  Row, Tables, M, pure, lift, attempt, ◌>>=◌, ◌>>◌, read, write, same_schedule, same_run, put_row,
  set_by_id, set_by_partition,
}

-- What a row keeps of a recurring schedule.
abbrev pub recurring_row : Schedule → Status → Row
recurring_row s status = record {
  entry = record no_schedule {
    app_id = s.app_id;
    partition_id = s.partition_id;
    schedule_id = s.schedule_id;
    payload = s.payload;
    callback = s.callback;
    cron_expression = s.cron_expression;
    status = status;
  };
  decodes = true;
}

-- The two inserts of a batch. A row that is written here decodes; Columns says when.
unfoldable pub insert_recurring : Schedule → Status → Tables → Tables
insert_recurring s status t = record t {
  by_id = set_by_id s.schedule_id (some (recurring_row s status)) t.by_id;
  by_partition =
      set_by_partition s.partition_id s.schedule_id s.app_id (some (recurring_row s status))
        t.by_partition;
}

-- `createRecurringSchedule`.
unfoldable pub create_recurring_schedule : Schedule → M Schedule
create_recurring_schedule s = do
  write (insert_recurring s scheduled)
  pure (record s { status = scheduled })

-- What a row of `schedules` keeps of a schedule.
abbrev pub one_time_row : Schedule → Schedule
one_time_row s = record no_schedule {
  app_id = s.app_id;
  partition_id = s.partition_id;
  schedule_group = s.schedule_group;
  schedule_id = s.schedule_id;
  schedule_time = s.schedule_time;
  payload = s.payload;
  callback = s.callback;
}

-- `createOneTimeSchedule`.
unfoldable pub create_one_time_schedule : Schedule → M Schedule
create_one_time_schedule s = do
  write (λ t. record t { one_time = put_row same_schedule (one_time_row s) t.one_time })
  pure s

-- `CreateSchedule`.
unfoldable pub create_schedule : Schedule → M Schedule
create_schedule s =
    if is_recurring s then create_recurring_schedule s else create_one_time_schedule s

-- The schedule of a row, if there is one and it decodes.
abbrev pub decoded : Option Row → Result Schedule
decoded none = err not_found
decoded (some row) = if row.decodes then ok row.entry else err no_json

-- The first row with the id.
unfoldable pub first_with : Text → List Row → Option Row
first_with id [] = none
first_with id (row ∷ rows) =
    let rest = first_with id rows in if text_eq row.entry.schedule_id id then some row else rest

-- The row's primary key is the id.
abbrev pub keyed : Text → Result Schedule → Result Schedule
keyed id (ok s) = ok (record s { schedule_id = id })
keyed id (err e) = err e

-- `getRecurringSchedule`.
unfoldable pub get_recurring_schedule : Text → M Schedule
get_recurring_schedule id = read (λ t. keyed id (decoded (t.by_id id)))

-- The query does not select the parent, and the table has no cron expression.
abbrev pub one_time_columns : Result Schedule → Result Schedule
one_time_columns (ok s) = ok (record s { parent_schedule_id = zero_uuid; cron_expression = [] })
one_time_columns (err e) = err e

-- `getOneTimeSchedule`.
unfoldable pub get_one_time_schedule : Text → M Schedule
get_one_time_schedule id = read (λ t. one_time_columns (decoded (first_with id t.one_time)))

-- The fall back to the recurring schedules.
abbrev pub or_recurring : Text → Result Schedule → M Schedule
or_recurring id (ok s) = pure s
or_recurring id (err not_found) = get_recurring_schedule id
or_recurring id (err e) = lift (err e)

-- `GetSchedule`.
unfoldable pub get_schedule : Text → M Schedule
get_schedule id = do found ← attempt (get_one_time_schedule id); or_recurring id found

-- `setStatus`, on what the query of the table of statuses finds: false if its history does not
-- decode. The time is in nanoseconds.
unfoldable pub set_status_from : ℤ → ℕ → Option StatusRow → Schedule → Bool × Schedule
set_status_from now flush_period none s = (true, set_unknown_status now flush_period s)
set_status_from now flush_period (some row) s = set_status row s

abbrev pub status_row : Tables → Schedule → Option StatusRow
status_row t s = t.statuses s.app_id s.partition_id s.schedule_id

-- `EnrichSchedule`.
unfoldable pub enrich_schedule : ℤ → ℕ → Schedule → M Schedule
enrich_schedule now flush_period s = read (λ t.
    (let (whole, enriched) = set_status_from now flush_period (status_row t s) s in
      if whole then ok enriched else err no_json))

-- `getEnrichedSchedule`.
unfoldable pub get_enriched_one_time_schedule : ℤ → ℕ → Text → M Schedule
get_enriched_one_time_schedule now flush_period id =
    get_one_time_schedule id >>= enrich_schedule now flush_period

-- `GetEnrichedSchedule`.
unfoldable pub get_enriched_schedule : ℤ → ℕ → Text → M Schedule
get_enriched_schedule now flush_period id = do
  found ← attempt (get_enriched_one_time_schedule now flush_period id)
  or_recurring id found

-- `CreateRun`.
unfoldable pub create_run : Schedule → M Schedule
create_run s = do
  let row = record (one_time_row s) { parent_schedule_id = s.parent_schedule_id }
  write (λ t. record t {
    one_time = put_row same_schedule row t.one_time;
    runs = put_row same_run row t.runs;
  })
  pure s

-- The row that `UpdateStatus` inserts.
abbrev status_of : Schedule → StatusRow
status_of s = record {
  row_status = s.status;
  row_message = s.error_message;
  history = some s.reconciliation_history;
}

unfoldable pub put_statuses :
    List Schedule → (Text → ℕ → Text → Option StatusRow) → Text → ℕ → Text → Option StatusRow
put_statuses [] rows a p k = rows a p k
put_statuses (s ∷ more) rows a p k =
    put_statuses more
      (λ b q j.
        if text_eq s.app_id b && s.partition_id == q && text_eq s.schedule_id j
        then some (status_of s)
        else rows b q j)
      a p k

-- `UpdateStatus`.
unfoldable pub update_status : List Schedule → M (Unit {0})
update_status schedules = write (λ t. record t { statuses = put_statuses schedules t.statuses })
