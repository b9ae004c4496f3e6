-- ===== src/Store/Examples.antt =====
-- The theorems on store/ at a small schedule.
use goscheduler.Shared.{◌≤◌, [], ◌≡◌, ◌≢◌, ◌↔◌, refl, arith, none, some, true, false, length}
use goscheduler.Shared.Int.{pos, ◌≤ℤ◌}
use goscheduler.Shared.Text.{codes}
use goscheduler.Cron.Outcome.{ok}
use goscheduler.Store.App.{App, empty_configuration, get_max_ttl}
use goscheduler.Store.Schedule.{Callback, Schedule, no_schedule, is_recurring}
use goscheduler.Store.Validation.{max_payload_size, validate_schedule}
use goscheduler.Store.Accepted.{validate_schedule_lem}

abbrev pub shop : App
shop = record {
  app_id = codes "shop";
  partitions = 4;
  active = true;
  configuration = empty_configuration;
}

abbrev pub callback : Callback
callback = record { kind = codes "http"; details = codes "{}"; problem = none }

abbrev pub order : Schedule
order = record no_schedule {
  app_id = codes "shop";
  payload = codes "order 7";
  schedule_time = pos 130;
  callback = some callback;
}

order_one_time : is_recurring order ≡ false
unfolding is_recurring
order_one_time = refl

validate_schedule_lem_example :
    (validate_schedule (pos 100) shop empty_configuration order ≡ ok []) ↔ (
      (order.app_id ≢ [])
      × (order.payload ≢ [])
      × (pos (length order.payload) ≤ℤ max_payload_size shop (pos 0))
      × (callback.problem ≡ none)
      × (100 ≤ 130)
      × (pos 30 ≤ℤ get_max_ttl shop (pos 0)))
validate_schedule_lem_example =
    validate_schedule_lem 100 130 shop empty_configuration order callback (omega arith)
      order_one_time refl refl
