-- ===== src/Schedules/Columns.antt =====
-- dao/schedule_dao_impl.go: that the columns which `CreateSchedule` writes are read back.
use mathlib.Core.Path.{subst}
use goscheduler.Shared.{ℕ, ◌*◌, ◌^◌, ◌<◌, List, [], ◌≡◌, refl, sym, ◌∙◌, none, some}
use goscheduler.Shared.Int.{ℤ, pos, mul64, mul64_pos}
use goscheduler.Shared.Text.{Text}
use goscheduler.Shared.Dict.{lookup}
use goscheduler.Store.Schedule.{Schedule, Callback, scheduled}
use goscheduler.Store.Registry.{
  Factory, Registry, default_callback, initialize_callback_registry, create_callback_from_map,
}
use goscheduler.Store.Registered.{initialize_callback_registry_lem}
use goscheduler.Store.Columns.{
  Columns, HttpCallback, Json, as_callback, marshal, http_factory,
  create_schedule_from_cassandra_map,
}
use goscheduler.Schedules.Rows.{one_time_row, recurring_row}

-- `SecondsToMillis`.
abbrev pub seconds_to_millis : ℤ
seconds_to_millis = pos 1000

-- The columns that `createOneTimeSchedule` writes, as `getOneTimeSchedule` selects them. The products
-- wrap around at 64 bits.
unfoldable pub one_time_written : Schedule → Callback → Columns
one_time_written s callback = record {
  app_id = s.app_id;
  partition_id = s.partition_id;
  callback_type = callback.kind;
  callback_details = callback.details;
  payload = s.payload;
  cron_expression = none;
  schedule_time_group = mul64 s.schedule_group seconds_to_millis;
  schedule_time = mul64 s.schedule_time seconds_to_millis;
  status = none;
  schedule_id = s.schedule_id;
  parent_schedule_id = none;
}

-- The columns that `createRecurringSchedule` writes, as `getRecurringSchedule` selects them. The table
-- has no columns for a group and a time: those here are not read.
unfoldable pub recurring_written : Schedule → Callback → Columns
recurring_written s callback = record {
  app_id = s.app_id;
  partition_id = s.partition_id;
  callback_type = callback.kind;
  callback_details = callback.details;
  payload = s.payload;
  cron_expression = some s.cron_expression;
  schedule_time_group = pos 0;
  schedule_time = pos 0;
  status = some scheduled;
  schedule_id = s.schedule_id;
  parent_schedule_id = none;
}

from_factory :
    (registry : Registry) (factory : Factory) (kind text : Text)
    → lookup kind registry ≡ some factory
    → create_callback_from_map registry kind text ≡ factory.marshal kind text
unfolding create_callback_from_map
from_factory registry factory kind text found = rw found refl

marshal_back :
    (json : Json) (h : HttpCallback)
    → json.decode (json.encode h.details) ≡ some h.details
    → (http_factory json).marshal h.kind (json.encode h.details) ≡ some (as_callback json h)
unfolding http_factory marshal
marshal_back json h back = rw back refl

-- The details of a callback of the default type come back from its columns.
http_read :
    (json : Json) (client : List (Text × Factory)) (h : HttpCallback)
    → json.decode (json.encode h.details) ≡ some h.details
    → h.kind ≡ default_callback
    → lookup default_callback client ≡ none
    → create_callback_from_map
        (initialize_callback_registry (http_factory json) client [])
        h.kind
        (json.encode h.details)
      ≡ some (as_callback json h)
unfolding lookup
http_read json client h back default_ free =
    let registry = initialize_callback_registry (http_factory json) client [] in
    let found : lookup default_callback registry ≡ some (http_factory json) =
      initialize_callback_registry_lem (http_factory json) client [] default_callback
      ∙ rw free refl in
    from_factory registry (http_factory json) h.kind (json.encode h.details)
      (subst (λ kind. lookup kind registry ≡ some (http_factory json)) (sym default_) found)
    ∙ marshal_back json h back

-- A driver that gives a whole number of seconds in milliseconds back as these seconds; an
-- `HttpCallback` of the default type, which no client has taken, with details that come back from
-- their JSON; a schedule with this callback, and with a group and a time from 0 on whose milliseconds
-- are below 2 ^ 63. Then `CreateScheduleFromCassandraMap` of the columns that `CreateSchedule` writes
-- gives the schedule that the row of the model holds, for a one-time schedule with the group and the
-- time in seconds again, and for a recurring one.
pub create_schedule_from_cassandra_map_lem :
    (unix : ℤ → ℤ) (json : Json) (client : List (Text × Factory)) (h : HttpCallback) (s : Schedule)
    (group time : ℕ)
    → ((seconds : ℕ) → unix (pos (seconds * 1000)) ≡ pos seconds)
    → json.decode (json.encode h.details) ≡ some h.details
    → h.kind ≡ default_callback
    → lookup default_callback client ≡ none
    → s.callback ≡ some (as_callback json h)
    → s.schedule_group ≡ pos group
    → s.schedule_time ≡ pos time
    → group * 1000 < 2 ^ 63
    → time * 1000 < 2 ^ 63
    → (create_schedule_from_cassandra_map unix
          (initialize_callback_registry (http_factory json) client [])
          (one_time_written s (as_callback json h))
        ≡ some (one_time_row s))
      × (create_schedule_from_cassandra_map unix
            (initialize_callback_registry (http_factory json) client [])
            (recurring_written s (as_callback json h))
          ≡ some (recurring_row s scheduled).entry)
unfolding create_schedule_from_cassandra_map one_time_written recurring_written
create_schedule_from_cassandra_map_lem unix json client h s group time whole back default_ free held
      at_group at_time small small_time =
    let read = http_read json client h back default_ free in
    rw
      (
        read,
        held,
        at_group,
        at_time,
        mul64_pos group 1000 small,
        mul64_pos time 1000 small_time,
        whole group,
        whole time,
      )
      (refl, refl)
