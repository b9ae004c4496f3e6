-- ===== src/Service/Listings.antt =====
-- service/get_app_schedules.go, service/get_runs.go, service/get_cron_schedules.go and
-- service/get_apps.go: the handlers that list. The queries of the schedule dao are parameters.
use goscheduler.Shared.{◌*◌, ◌==◌, not, ℕ, List, [], Option, none, some, Bool, length}
use goscheduler.Shared.Int.{ℤ, pos, sub64, ltb_ℤ}
use goscheduler.Shared.Text.{Text, text_eq}
use goscheduler.Store.App.{App}
use goscheduler.Store.Schedule.{Schedule, Status}
use goscheduler.Dao.Apps.{get_app, get_apps}
use goscheduler.Schedules.Session.{Row}
use goscheduler.Schedules.Runs.{Query, get_schedule_runs}
use goscheduler.Schedules.Enrich.{get_cron_schedules_by_app}
use goscheduler.Schedules.Windows.{Found, get_paginated_schedules}
use goscheduler.Service.Errors.{invalid_data, data_not_found, invalid_app_id, data_fetch_failure}
use goscheduler.Service.Lifecycle.{
  good, bad, hangs, H, ◌>>=◌, ◌>>◌, give, refuse, refuse_if, on_apps, or_not_found,
}
use goscheduler.Service.Queries.{Parameters, Texts, AppQuery, RunsQuery, parse, parse_query_params}

-- The data of a response: a token of no characters is that of the empty page state.
pub record PageData : Type 0 where
  pub schedules : List Schedule
  pub total_count : ℕ
  pub continuation_token : Option ℕ
  pub continuation_start_time : ℤ

abbrev pub max_range : ℤ
max_range = pos (30 * 24 * 60 * 60)

-- `getActiveOrInactiveApp`.
unfoldable pub get_active_or_inactive_app : Text → H App
get_active_or_inactive_app id = do
  app ← on_apps (or_not_found invalid_app_id data_fetch_failure) (get_app id)
  refuse_if (text_eq app.app_id []) invalid_app_id
  give app

-- A loop that is still running gives no reply.
abbrev pub or_hang : {A : Type 0} → Option A → H A
or_hang none w = (hangs, w)
or_hang (some a) w = (good a, w)

-- A request whose parameters are refused.
abbrev pub or_invalid : {A : Type 0} → Option A → H A
or_invalid none w = (bad invalid_data, w)
or_invalid (some a) w = (good a, w)

-- The query of an app by the number of its partitions and the times of a window.
module _ (enrich : Schedule → Schedule) (query : Text → ℕ → List ℤ → Query) (fuel : ℕ) where
  -- `FetchAppSchedules`.
  unfoldable pub fetch_app_schedules : Text → AppQuery → H Found
  fetch_app_schedules id q = do
    app ← get_active_or_inactive_app id
    or_hang (
        get_paginated_schedules enrich (query id app.partitions) fuel q.time_range q.size q.status
          q.page_state q.continuation)

  abbrev pub page_data : Found → PageData
  page_data found = record {
    schedules = found.schedules;
    total_count = length found.schedules;
    continuation_token = found.page_state;
    continuation_start_time = found.window_start;
  }

  -- `GetAppSchedules`, from the parameters on.
  unfoldable pub get_app_schedules : Texts → ℤ → Text → Parameters → H PageData
  get_app_schedules texts now id p = do
    q ← or_invalid (parse texts now p)
    refuse_if (ltb_ℤ q.size (pos 0)) invalid_data
    refuse_if (ltb_ℤ q.time_range.end_time q.time_range.start_time) invalid_data
    refuse_if (ltb_ℤ max_range (sub64 q.time_range.end_time q.time_range.start_time)) invalid_data
    found ← fetch_app_schedules id q
    give (page_data found)

-- `FetchCronRuns`, with the query of the runs of the schedule.
unfoldable pub fetch_cron_runs :
    (Schedule → Schedule)
    → (Text → Query)
    → ℕ
    → ℤ
    → Option Text
    → RunsQuery
    → H (List Schedule × Option ℕ)
fetch_cron_runs enrich query fuel now none q = refuse invalid_data
fetch_cron_runs enrich query fuel now (some id) q = do
  found ← or_hang (get_schedule_runs enrich (query id) q.when now fuel q.size q.page_state)
  refuse_if (length found.0 == 0) data_not_found
  give found

-- `GetRuns`, from the parameters on.
unfoldable pub get_runs :
    (Schedule → Schedule)
    → (Text → Query)
    → ℕ
    → Texts
    → ℤ
    → Option Text
    → Parameters
    → H (List Schedule × Option ℕ)
get_runs enrich query fuel texts now id p = do
  q ← or_invalid (parse_query_params texts p)
  fetch_cron_runs enrich query fuel now id q

-- `FetchCronSchedules`, with the rows that the query of recurring schedules gives.
unfoldable pub fetch_cron_schedules : List Row → Bool → Text → Status → H (List Schedule)
fetch_cron_schedules rows closes app status =
    let (fine, found) = get_cron_schedules_by_app app status rows closes in
    do
      refuse_if (not fine) data_fetch_failure
      refuse_if (length found == 0) data_not_found
      give found

-- `FetchApps`.
unfoldable pub fetch_apps : Text → H (List App)
fetch_apps id = do
  apps ← on_apps (λ e. data_fetch_failure) (get_apps id)
  refuse_if (length apps == 0) data_not_found
  give apps
