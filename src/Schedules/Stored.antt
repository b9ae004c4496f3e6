-- ===== src/Schedules/Stored.antt =====
-- dao/schedule_dao_impl.go: that `GetSchedule` gives what `CreateSchedule` stored.
use goscheduler.Shared.{
  ℕ, ◌*◌, ◌^◌, ◌<◌, List, [], ◌≡◌, refl, none, some, true, false, inl, inr, ◌⊎◌, Bool-cases,
  if◌then◌else◌,
}
use goscheduler.Shared.Int.{ℤ, pos}
use goscheduler.Shared.Text.{Text}
use goscheduler.Shared.Dict.{lookup, text_eq_self}
use goscheduler.Store.Schedule.{Schedule, Callback, scheduled, is_recurring}
use goscheduler.Store.Registry.{Factory, default_callback, initialize_callback_registry}
use goscheduler.Store.Columns.{
  Columns, HttpCallback, Json, as_callback, http_factory, create_schedule_from_cassandra_map,
}
use goscheduler.Schedules.Columns.{
  one_time_written, recurring_written, create_schedule_from_cassandra_map_lem,
}
use goscheduler.Dao.Session.{ok}
use goscheduler.Schedules.Session.{Tables}
use goscheduler.Schedules.Rows.{
  first_with, create_schedule, create_recurring_schedule, create_one_time_schedule,
  insert_recurring, get_schedule, get_one_time_schedule, get_recurring_schedule, recurring_row,
  one_time_row,
}

-- What is kept of a schedule whatever its kind.
abbrev pub Alike : Schedule → Schedule → Type 0
Alike r s =
    (r.schedule_id ≡ s.schedule_id)
    × (r.app_id ≡ s.app_id)
    × (r.partition_id ≡ s.partition_id)
    × (r.payload ≡ s.payload)
    × (r.callback ≡ s.callback)

-- The columns that `CreateSchedule` writes.
abbrev pub written : Schedule → Callback → Columns
written s callback =
    if is_recurring s then recurring_written s callback else one_time_written s callback

-- A driver that gives a whole number of seconds in milliseconds back as these seconds; an
-- `HttpCallback` of the default type, which no client has taken, with details that come back from
-- their JSON; a schedule with this callback, and with a group and a time from 0 on whose milliseconds
-- are below 2 ^ 63; no row of `schedules` with its id, and queries that are served. Then
-- `CreateSchedule` succeeds, and `GetSchedule` with the id gives what `CreateScheduleFromCassandraMap`
-- reads in the columns that were written: a schedule with the same id, app, partition, payload and
-- callback; with the same cron expression and the status SCHEDULED if it is recurring, and else with
-- the same time and group.
pub get_schedule-create_schedule :
    (unix : ℤ → ℤ) (json : Json) (client : List (Text × Factory)) (h : HttpCallback) (s : Schedule)
    (group time : ℕ) (t : Tables)
    → ((seconds : ℕ) → unix (pos (seconds * 1000)) ≡ pos seconds)
    → json.decode (json.encode h.details) ≡ some h.details
    → h.kind ≡ default_callback
    → lookup default_callback client ≡ none
    → s.callback ≡ some (as_callback json h)
    → s.schedule_group ≡ pos group
    → s.schedule_time ≡ pos time
    → group * 1000 < 2 ^ 63
    → time * 1000 < 2 ^ 63
    → first_with s.schedule_id t.one_time ≡ none
    → (created : Schedule) × (r : Schedule) × ((create_schedule s
          (record { tables = t; replies = [] })).0
        ≡ ok created)
      × ((get_schedule s.schedule_id (create_schedule s (record { tables = t; replies = [] })).1).0
          ≡ ok r)
      × (create_schedule_from_cassandra_map unix
            (initialize_callback_registry (http_factory json) client [])
            (written s (as_callback json h))
          ≡ some r)
      × Alike r s
      × (((is_recurring s ≡ true)
            × (r.cron_expression ≡ s.cron_expression)
            × (r.status ≡ scheduled))
          ⊎ ((is_recurring s ≡ false)
              × (r.schedule_time ≡ s.schedule_time)
              × (r.schedule_group ≡ s.schedule_group)))
unfolding create_schedule create_recurring_schedule create_one_time_schedule get_schedule
    get_one_time_schedule get_recurring_schedule insert_recurring first_with
get_schedule-create_schedule unix json client h s group time t whole back default_ free held
      at_group at_time small small_time fresh =
    let (one_time, recurring) =
      create_schedule_from_cassandra_map_lem unix json client h s group time whole back default_
        free held at_group at_time small small_time in
    elim (Bool-cases (is_recurring s)) [
      | inl y ↦
          rw (y, fresh, text_eq_self s.schedule_id)
            (
              _,
              (recurring_row s scheduled).entry,
              refl,
              refl,
              recurring,
              (refl, refl, refl, refl, refl),
              inl (refl, refl, refl),
            )
      | inr z ↦
          rw (z, text_eq_self s.schedule_id)
            (
              _,
              one_time_row s,
              refl,
              refl,
              one_time,
              (refl, refl, refl, refl, refl),
              inr (refl, refl, refl),
            )
    ]
