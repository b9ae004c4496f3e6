-- ===== src/Schedules/ListingExamples.antt =====
-- The theorems on listings, batches and future runs at small tables.
use goscheduler.Shared.{
  ℕ, ◌*◌, ◌/◌, ap, ◌≤◌, List, [], ◌∷◌, ◌++◌, ◌≡◌, refl, arith, none, some, true, false, ◌⊎◌, inl,
  length, concat, All,
}
use goscheduler.Shared.Int.{ℤ, pos, negsuc}
use goscheduler.Shared.Text.{codes}
use goscheduler.Store.Schedule.{Schedule, no_schedule, scheduled, paused, deleted, is_recurring}
use goscheduler.Dao.Session.{ok, failed}
use goscheduler.Schedules.Session.{Row, Tables, same_schedule}
use goscheduler.Schedules.Rows.{
  one_time_row, recurring_row, first_with, create_schedule, get_schedule,
}
use goscheduler.Schedules.Runs.{Query}
use goscheduler.Schedules.RunsPages.{passing, from_next}
use goscheduler.Schedules.Recurring.{
  update_recurring_schedule_status, update_recurring_schedule, delete_recurring_schedule,
}
use goscheduler.Schedules.Batching.{bulk_action}
use goscheduler.Schedules.Batched.{entries, first_page_lem}
use goscheduler.Schedules.Windows.{Range, Found, get_filtered_schedules}
use goscheduler.Schedules.Hours.{rows_from}
use goscheduler.Schedules.Resuming.{Left}
use goscheduler.Schedules.Listing.{get_filtered_schedules_lem, get_filtered_schedules-again}
use goscheduler.Schedules.Cleared.{Cleared, future_runs_lem, failed_read_lem}
use goscheduler.Schedules.Stored.{Alike, written, get_schedule-create_schedule}
use goscheduler.Shared.Dict.{lookup}
use goscheduler.Store.Registry.{initialize_callback_registry}
use goscheduler.Store.Columns.{
  HttpCallback, Json, as_callback, http_factory, create_schedule_from_cassandra_map,
}
use goscheduler.Schedules.Columns.{
  one_time_written, recurring_written, create_schedule_from_cassandra_map_lem,
}
use goscheduler.Schedules.Examples.{first_run, two_pages, runs_from, pages_from, two_pages_fine}

abbrev two_hours : Range
two_hours = record { start_time = pos 3600; end_time = pos 10800 }

get_filtered_schedules_lem_example :
    (found : Found) × (rest : List Row) × (get_filtered_schedules
        (λ s. s)
        (λ times. two_pages)
        (λ s. true)
        (pos 1)
        5
        two_hours
        none
        (pos 0)
      ≡ some found)
    × (found.schedules ++ passing (λ s. s) (λ s. true) rest
        ≡ passing
            (λ s. s)
            (λ s. true)
            (rows_from (pos 10800) (λ times. runs_from) none 1 (pos 3600)))
    × (length found.schedules ≤ 1)
    × ((length found.schedules ≡ 1) ⊎ (rest ≡ []))
    × Left
        (λ s. s)
        (λ s. true)
        (λ times. two_pages)
        (λ times. runs_from)
        1
        10800
        two_hours
        found
        rest
get_filtered_schedules_lem_example =
    get_filtered_schedules_lem (λ s. s) (λ s. true) (λ times. two_pages) (λ times. runs_from)
      (λ times. pages_from) 1 3600 10800 5 two_hours none (pos 0) (λ times. two_pages_fine)
      (omega arith) (omega arith) (omega arith) (omega arith) (omega arith) refl refl
      (refl, (refl, (refl, (refl, tt)))) (omega arith)

abbrev one_page : Query
one_page state size = record { rows = first_run ∷ []; next = none; closes = true }

get_filtered_schedules-again_example :
    (found : Found) × (get_filtered_schedules
        (λ s. s)
        (λ times. one_page)
        (λ s. true)
        (pos 1)
        1
        two_hours
        none
        (pos 0)
      ≡ some found)
    × (get_filtered_schedules
          (λ s. s)
          (λ times. one_page)
          (λ s. true)
          (pos 1)
          1
          two_hours
          found.page_state
          found.window_start
        ≡ some found)
    × (found.schedules ≡ first_run.entry ∷ [])
get_filtered_schedules-again_example =
    get_filtered_schedules-again (λ s. s) (λ s. true) (λ times. one_page) 1 3600 10800 0 two_hours
      (omega arith) (omega arith) (omega arith) (omega arith) (omega arith) refl refl (refl, tt)
      refl (omega arith) refl

first_page_lem_example :
    (batches : List (List Schedule)) × (bulk_action (λ batch. true) (two_pages none (pos 5))
      ≡ (true, batches))
    × All (λ b. length b ≤ 50) batches
    × (concat batches ≡ first_run.entry ∷ [])
    × (concat batches ++ entries (from_next runs_from (some 1)) ≡ entries (runs_from none))
first_page_lem_example =
    first_page_lem (λ batch. true) (λ batch. refl) two_pages runs_from pages_from 5 two_pages_fine
      (refl, tt)

abbrev hourly : Schedule
hourly = record no_schedule {
  schedule_id = codes "hourly";
  app_id = codes "shop";
  cron_expression = codes "0 * * * *";
}

abbrev coming : Row
coming = record {
  entry = record no_schedule {
    schedule_id = codes "run";
    app_id = codes "shop";
    schedule_group = pos 7200;
    parent_schedule_id = codes "hourly";
  };
  decodes = true;
}

abbrev tables : Tables
tables = record {
  one_time = coming ∷ [];
  by_id = λ id. none;
  by_partition = λ partition id app. none;
  runs = coming ∷ [];
  statuses = λ app partition id. none;
}

future_runs_lem_example :
    ((update_recurring_schedule_status
        (pos 0)
        60
        hourly
        paused
        (record { tables = tables; replies = [] })).0
      ≡ ok (record hourly { status = paused }))
    × Cleared coming.entry
        (update_recurring_schedule_status
          (pos 0)
          60
          hourly
          paused
          (record { tables = tables; replies = [] })).1.tables
    × ((update_recurring_schedule (pos 0) 60 hourly (record { tables = tables; replies = [] })).0
        ≡ ok hourly)
    × Cleared coming.entry
        (update_recurring_schedule
          (pos 0)
          60
          hourly
          (record { tables = tables; replies = [] })).1.tables
    × ((delete_recurring_schedule (pos 0) 60 hourly (record { tables = tables; replies = [] })).0
        ≡ ok (record hourly { status = deleted }))
    × All
        (λ (o : Row). same_schedule coming.entry o.entry ≡ false)
        (delete_recurring_schedule
          (pos 0)
          60
          hourly
          (record { tables = tables; replies = [] })).1.tables.one_time
future_runs_lem_example =
    future_runs_lem (pos 0) 60 hourly tables coming (refl, tt) (inl refl) refl refl

failed_read_lem_example :
    ((update_recurring_schedule_status
        (pos 0)
        60
        hourly
        paused
        (record { tables = tables; replies = failed ∷ [] })).0
      ≡ ok (record hourly { status = paused }))
    × ((update_recurring_schedule_status
          (pos 0)
          60
          hourly
          paused
          (record { tables = tables; replies = failed ∷ [] })).1.tables.one_time
        ≡ tables.one_time)
    × ((update_recurring_schedule_status
          (pos 0)
          60
          hourly
          paused
          (record { tables = tables; replies = failed ∷ [] })).1.tables.runs
        ≡ tables.runs)
    × ((update_recurring_schedule
          (pos 0)
          60
          hourly
          (record { tables = tables; replies = failed ∷ [] })).0
        ≡ ok hourly)
    × ((update_recurring_schedule
          (pos 0)
          60
          hourly
          (record { tables = tables; replies = failed ∷ [] })).1.tables.one_time
        ≡ tables.one_time)
    × ((update_recurring_schedule
          (pos 0)
          60
          hourly
          (record { tables = tables; replies = failed ∷ [] })).1.tables.runs
        ≡ tables.runs)
    × ((delete_recurring_schedule
          (pos 0)
          60
          hourly
          (record { tables = tables; replies = failed ∷ [] })).0
        ≡ ok (record hourly { status = deleted }))
    × ((delete_recurring_schedule
          (pos 0)
          60
          hourly
          (record { tables = tables; replies = failed ∷ [] })).1.tables.one_time
        ≡ tables.one_time)
failed_read_lem_example = failed_read_lem (pos 0) 60 hourly tables

abbrev plain : Json
plain = record {
  encode = λ details. details.url;
  decode = λ text. some (record { url = text; method = codes "GET"; headers = [] });
  decode_callback = λ text. none;
  parses = λ text. true;
  says = λ problem. [];
}

abbrev ping : HttpCallback
ping = record {
  kind = codes "http";
  details = record { url = codes "http://a.b/ping"; method = codes "GET"; headers = [] };
}

-- The seconds of a time from 0 on in milliseconds.
abbrev in_seconds : ℤ → ℤ
in_seconds (pos millis) = pos (millis / 1000)
in_seconds (negsuc millis) = pos 0

in_seconds_whole : (seconds : ℕ) → in_seconds (pos (seconds * 1000)) ≡ pos seconds
in_seconds_whole seconds = ap pos (omega arith)

-- 2025-01-01, half a minute past midnight.
abbrev pinging : Schedule
pinging = record no_schedule {
  schedule_id = codes "ping";
  app_id = codes "shop";
  schedule_group = pos 1735689600;
  schedule_time = pos 1735689630;
  callback = some (as_callback plain ping);
}

get_schedule-create_schedule_example :
    (created : Schedule) × (r : Schedule) × ((create_schedule pinging
        (record { tables = tables; replies = [] })).0
      ≡ ok created)
    × ((get_schedule
          (codes "ping")
          (create_schedule pinging (record { tables = tables; replies = [] })).1).0
        ≡ ok r)
    × (create_schedule_from_cassandra_map in_seconds
          (initialize_callback_registry (http_factory plain) [] [])
          (written pinging (as_callback plain ping))
        ≡ some r)
    × Alike r pinging
    × (((is_recurring pinging ≡ true)
          × (r.cron_expression ≡ pinging.cron_expression)
          × (r.status ≡ scheduled))
        ⊎ ((is_recurring pinging ≡ false)
            × (r.schedule_time ≡ pinging.schedule_time)
            × (r.schedule_group ≡ pinging.schedule_group)))
unfolding first_with lookup
get_schedule-create_schedule_example =
    get_schedule-create_schedule in_seconds plain [] ping pinging 1735689600 1735689630 tables
      in_seconds_whole refl refl refl refl refl refl (omega arith) (omega arith) refl

create_schedule_from_cassandra_map_lem_example :
    (create_schedule_from_cassandra_map in_seconds
        (initialize_callback_registry (http_factory plain) [] [])
        (one_time_written pinging (as_callback plain ping))
      ≡ some (one_time_row pinging))
    × (create_schedule_from_cassandra_map in_seconds
          (initialize_callback_registry (http_factory plain) [] [])
          (recurring_written pinging (as_callback plain ping))
        ≡ some (recurring_row pinging scheduled).entry)
unfolding lookup
create_schedule_from_cassandra_map_lem_example =
    create_schedule_from_cassandra_map_lem in_seconds plain [] ping pinging 1735689600 1735689630
      in_seconds_whole refl refl refl refl refl refl (omega arith) (omega arith)
