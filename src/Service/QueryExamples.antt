-- ===== src/Service/QueryExamples.antt =====
-- The theorems on listings, bulk actions and raw callbacks on a small database.
use goscheduler.Shared.{
  ℕ, ◌+◌, ◌*◌, ◌≤◌, ◌<◌, [], ◌≡◌, ◌≢◌, ◌↔◌, refl, arith, none, some, if◌then◌else◌, ◌⊎◌, inl, Has,
  length,
}
use goscheduler.Shared.Int.{ℤ, pos, mul64, quot64, sub64, wrap64}
use goscheduler.Shared.Text.{codes, text_eq}
use goscheduler.Shared.Dict.{lookup}
use goscheduler.Store.App.{App, empty_configuration}
use goscheduler.Store.Schedule.{Schedule, scheduled, big_endian}
use goscheduler.Store.Registry.{unmarshal_schedule}
use goscheduler.Store.Partition.{set_fields, uuid_to_partition}
use goscheduler.Store.Examples.{order}
use goscheduler.Dao.Session.{Result}
use goscheduler.Dao.Apps.{check, cache_app, cache_row, load_app, app_or_load, get_app}
use goscheduler.Schedules.BulkActing.{reconciles, deletes}
use goscheduler.Schedules.Minutes.{IsMinute, time_stamps_lem}
use goscheduler.Schedules.Windows.{Range, time_stamps}
use goscheduler.Service.BulkActions.{
  action_of, push_bulk_action_queries, execute_bulk_action, bulk_action,
}
use goscheduler.Service.BulkBounds.{bulk_action_good_lem}
use goscheduler.Service.Examples.{shop, dao}
use goscheduler.Service.Lifecycle.{good, crashed, World, get_active_app, post}
use goscheduler.Service.Listings.{get_active_or_inactive_app}
use goscheduler.Service.OffMinute.{range_of-group}
use goscheduler.Service.Queries.{Parameters, Texts, parse_date, parse_dates, range_of, parse}
use goscheduler.Service.Rawless.{post-no_callback}
use goscheduler.Service.Tasks.{task_at, push_bulk_action_queries_lem}

abbrev hour : Range
hour = record { start_time = pos 3600; end_time = pos 7200 }

push_bulk_action_queries_lem_example :
    Has
      (task_at shop scheduled deletes 1 (pos 3660))
      (push_bulk_action_queries shop hour scheduled deletes)
    ↔ ((partition : ℕ) × (time : ℤ) × (partition < 2)
        × IsMinute 3600 7200 time
        × (task_at shop scheduled deletes 1 (pos 3660)
            ≡ task_at shop scheduled deletes partition time))
push_bulk_action_queries_lem_example =
    push_bulk_action_queries_lem shop scheduled deletes hour 3600 7200
      (task_at shop scheduled deletes 1 (pos 3660)) refl refl (omega arith)

abbrev texts : Texts
texts = record {
  decode = λ token. none;
  parsed = λ text. pos 0;
  parse_in_location =
      λ date. if text_eq date (codes "one") then some (pos 3600) else some (pos 3725);
}

abbrev asked : Parameters
asked = record {
  continuation_token = [];
  size = [];
  status = codes "SCHEDULED";
  start_time = codes "one";
  end_time = codes "two";
  continuation_start_time = [];
  when = [];
}

abbrev world : World
world = record {
  dao = dao;
  session = record {
    tables = record {
      one_time = [];
      by_id = λ id. none;
      by_partition = λ partition id app. none;
      runs = [];
      statuses = λ app partition id. none;
    };
    replies = [];
  };
}

abbrev minutes : Range
minutes = record { start_time = pos 3600; end_time = pos 3720 }

asked_range : range_of texts (pos 9000) (codes "one") (codes "two") ≡ some minutes
unfolding range_of parse_dates parse_date quot64 mul64 wrap64
asked_range = refl

accepted_deletion :
    (bulk_action texts (pos 9000) (codes "shop") (codes "delete") asked world).0
    ≡ good (push_bulk_action_queries shop minutes (codes "SCHEDULED") deletes)
unfolding bulk_action execute_bulk_action parse range_of parse_dates parse_date quot64 mul64 wrap64
    sub64 get_active_or_inactive_app get_app check app_or_load load_app cache_row cache_app lookup
accepted_deletion = refl

bulk_action_good_lem_example :
    (app : App) × ((get_app (codes "shop") dao).0 ≡ Result.ok app)
    × ((action_of (codes "delete") ≡ reconciles) ⊎ (action_of (codes "delete") ≡ deletes))
    × (3600 ≤ 3720)
    × (3720 ≤ 3600 + 604800)
    × (push_bulk_action_queries shop minutes (codes "SCHEDULED") deletes
        ≡ push_bulk_action_queries app minutes (codes "SCHEDULED") (action_of (codes "delete")))
    × (length (push_bulk_action_queries shop minutes (codes "SCHEDULED") deletes)
        ≤ app.partitions * 10080)
bulk_action_good_lem_example =
    bulk_action_good_lem texts (pos 9000) (codes "shop") (codes "delete") asked world
      (push_bulk_action_queries shop minutes (codes "SCHEDULED") deletes) 3600 3720 asked_range
      (omega arith) accepted_deletion

abbrev past_hour : Range
past_hour = record { start_time = pos 5407; end_time = pos 9007 }

past_range : range_of texts (pos 9007) [] [] ≡ some past_hour
unfolding range_of sub64 wrap64
past_range = refl

abbrev placed : Schedule
placed = record order { schedule_id = codes "b0c1d2e3"; partition_id = 1; schedule_group = pos 120 }

sets_them : set_fields (codes "b0c1d2e3") shop order ≡ some placed
unfolding set_fields uuid_to_partition big_endian mul64 quot64 wrap64
sets_them = refl

first_stamp : Has (pos 5407) (time_stamps (pos 5407) (pos 9007))
first_stamp = (time_stamps_lem 5407 9007 (pos 5407) (omega arith)).1 (0, refl, omega arith)

range_of-group_example : ◌≢◌ {A = ℤ} (pos 5407) (pos 120)
range_of-group_example =
    range_of-group texts 9007 past_hour shop shop scheduled deletes (codes "b0c1d2e3") order placed
      130 (pos 5407) (omega arith) (omega arith) (omega arith) past_range refl (omega arith)
      sets_them (inl first_stamp)

shop_active : (get_active_app (codes "shop") world).0 ≡ good shop
unfolding get_active_app get_app check app_or_load load_app cache_row cache_app lookup
shop_active = refl

post-no_callback_example :
    (post
      (pos 100)
      empty_configuration
      (codes "Athena")
      (codes "b0c1d2e3")
      (unmarshal_schedule [] (λ text. some (codes "http")) order [])
      world).0
    ≡ crashed
post-no_callback_example =
    post-no_callback (pos 100) empty_configuration (codes "Athena") (codes "b0c1d2e3") []
      (λ text. some (codes "http")) order shop world shop_active
