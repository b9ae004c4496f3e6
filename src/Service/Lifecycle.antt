-- ===== src/Service/Lifecycle.antt =====
-- service/post.go, service/get.go, service/delete.go, service/pause.go, service/resume.go and
-- service/update_recurring_schedule.go: the handlers of one schedule. A request comes decoded, its id
-- is `none` if `gocql.ParseUUID` refuses it, its body if the JSON does not decode.
use goscheduler.Shared.{ℕ, List, [], ◌∷◌, Option, none, some, Bool, ◌&&◌, ◌||◌, not, if◌then◌else◌}
use goscheduler.Shared.Int.{ℤ}
use goscheduler.Shared.Text.{Text, text_eq}
use goscheduler.Cron.Outcome.{Outcome, ok, fails, panics, runs_on}
use goscheduler.Store.App.{App, Configuration}
use goscheduler.Store.Schedule.{
  Callback, Schedule, zero_uuid, scheduled, deleted, paused, is_recurring,
}
use goscheduler.Store.Validation.{Problem, validate_schedule}
use goscheduler.Store.Partition.{set_fields}
use goscheduler.Dao.Session.{Dao, Result, Error, not_found}
use goscheduler.Dao.Apps.{get_app}
use goscheduler.Schedules.Session.{Session}
use goscheduler.Schedules.Rows.{create_schedule, get_schedule, get_enriched_schedule}
use goscheduler.Schedules.Recurring.{
  delete_schedule, update_recurring_schedule_status, update_recurring_schedule,
}
use goscheduler.Service.Errors.{
  invalid_data, data_not_found, conflict, unprocessable_entity, invalid_app_id, deactivated_app,
  unmarshal_error, data_persistence_failure, data_fetch_failure,
}

-- A handler that panics gives no reply, nor does one that runs on.
pub data Reply (A : Type 0) : Type 0 where
  good : A → Reply A
  bad : ℕ → Reply A
  crashed : Reply A
  hangs : Reply A

-- What the two daos work on.
pub record World : Type 0 where
  pub dao : Dao
  pub session : Session

abbrev pub H : Type 0 → Type 0
H A = World → Reply A × World

abbrev pub continue : {A B : Type 0} → (A → H B) → Reply A × World → Reply B × World
continue f (good a, w) = f a w
continue f (bad code, w) = (bad code, w)
continue f (crashed, w) = (crashed, w)
continue f (hangs, w) = (hangs, w)

infixl 5 ◌>>=◌
abbrev pub ◌>>=◌ : {A B : Type 0} → H A → (A → H B) → H B
(m >>= f) w = continue f (m w)

infixl 5 ◌>>◌
abbrev pub ◌>>◌ : {A B : Type 0} → H A → H B → H B
(m >> n) w = continue (λ _. n) (m w)

abbrev pub give : {A : Type 0} → A → H A
give a w = (good a, w)

abbrev pub refuse : {A : Type 0} → ℕ → H A
refuse code w = (bad code, w)

-- Ends the handler with a code if a test passes.
abbrev pub refuse_if : Bool → ℕ → H (Unit {0})
refuse_if b code w = (if b then bad code else good tt, w)

-- A call of a dao, with the code for each of its errors.
abbrev pub coded : {A : Type 0} → (Error → ℕ) → Result A → Reply A
coded code (Result.ok a) = good a
coded code (Result.err e) = bad (code e)

abbrev pub on_schedules : {A : Type 0} → (Error → ℕ) → (Session → Result A × Session) → H A
on_schedules code m w =
    let answer = m w.session in (coded code answer.0, record w { session = answer.1 })

abbrev pub on_apps : {A : Type 0} → (Error → ℕ) → (Dao → Result A × Dao) → H A
on_apps code m w = let answer = m w.dao in (coded code answer.0, record w { dao = answer.1 })

abbrev pub or_not_found : ℕ → ℕ → Error → ℕ
or_not_found absent code not_found = absent
or_not_found absent code e = code

-- `getApp`.
unfoldable pub get_active_app : Text → H App
get_active_app id = do
  app ← on_apps (or_not_found invalid_app_id data_fetch_failure) (get_app id)
  refuse_if (text_eq app.app_id []) invalid_app_id
  refuse_if (not app.active) deactivated_app
  give app

-- Whether the validation has no complaint.
abbrev pub accepted : ℕ → Outcome (List Problem) → H (Unit {0})
accepted code (ok []) w = (good tt, w)
accepted code (ok (p ∷ problems)) w = (bad code, w)
accepted code (fails m) w = (bad code, w)
accepted code panics w = (crashed, w)
accepted code runs_on w = (hangs, w)

abbrev pub or_crash : {A : Type 0} → Option A → H A
or_crash none w = (crashed, w)
or_crash (some a) w = (good a, w)

-- An error of `getApp` for the cron app comes as another code.
abbrev pub recode : {A : Type 0} → ℕ → Reply A → Reply A
recode code (good a) = good a
recode code (bad c) = bad code
recode code crashed = crashed
recode code hangs = hangs

abbrev pub recoded : {A : Type 0} → ℕ → H A → H A
recoded code m w = (recode code (m w).0, (m w).1)

-- The app whose partitions a new schedule is spread over.
abbrev pub home : Text → Schedule → App → H App
home cron_app s app =
    if is_recurring s then recoded data_persistence_failure (get_active_app cron_app) else give app

abbrev pub persisted : Error → ℕ
persisted e = data_persistence_failure

module _ (now : ℤ) (conf : Configuration) where
  -- `CreateSchedule`, with the time in seconds and the new UUID.
  unfoldable pub create : Text → Text → Schedule → H Schedule
  unfolding get_active_app
  create cron_app uuid input = do
    app ← get_active_app input.app_id
    accepted invalid_data (validate_schedule now app conf input)
    at ← home cron_app input app
    s ← or_crash (set_fields uuid at input)
    on_schedules persisted (create_schedule s)

-- `Post`.
unfoldable pub post : ℤ → Configuration → Text → Text → Option Schedule → H Schedule
post now conf cron_app uuid none = refuse unmarshal_error
post now conf cron_app uuid (some input) = create now conf cron_app uuid input

-- `GetSchedule`, with the time in nanoseconds.
unfoldable pub get : ℤ → ℕ → Option Text → H Schedule
get now flush_period none = refuse invalid_data
get now flush_period (some id) =
    on_schedules (or_not_found data_not_found data_fetch_failure)
      (get_enriched_schedule now flush_period id)

-- The first steps of a change: the schedule, which must be there and recurring.
abbrev pub get_recurring : Text → H Schedule
get_recurring id = do
  s ← on_schedules (or_not_found data_not_found data_persistence_failure) (get_schedule id)
  refuse_if (not (is_recurring s)) unprocessable_entity
  give s

module _ (now : ℤ) (flush_period : ℕ) where
  -- `CancelSchedule`.
  unfoldable pub cancel : Option Text → H Schedule
  cancel none = refuse invalid_data
  cancel (some id) =
      on_schedules (or_not_found data_not_found data_fetch_failure)
        (delete_schedule now flush_period id)

  abbrev pub pause_found : Schedule → H Schedule
  pause_found s = if text_eq s.status paused then give s else (do
    refuse_if (not (text_eq s.status scheduled)) unprocessable_entity
    on_schedules persisted (update_recurring_schedule_status now flush_period s paused))

  -- `PauseSchedule`.
  unfoldable pub pause : Option Text → H Schedule
  pause none = refuse invalid_data
  pause (some id) = do s ← get_recurring id; pause_found s

  -- `ResumeSchedule`.
  unfoldable pub resume : Option Text → H Schedule
  resume none = refuse invalid_data
  resume (some id) = do
    s ← get_recurring id
    refuse_if (not (text_eq s.status paused)) conflict
    on_schedules persisted (update_recurring_schedule_status now flush_period s scheduled)

-- The callback of an update: absent, not a callback, or what it decodes to.
pub data Given : Type 0 where
  absent invalid : Given
  given : Callback → Given

-- The schedule must not be deleted, and its app active.
abbrev pub with_app : Schedule → H (Schedule × App)
with_app s = do
  refuse_if (text_eq s.status deleted) unprocessable_entity
  app ← get_active_app s.app_id
  give (s, app)

-- `validateExistingScheduleAndExtractApp`.
unfoldable pub validate_existing : Text → H (Schedule × App)
unfolding get_active_app
validate_existing id = do s ← get_recurring id; with_app s

-- `validateImmutableFields`: whether it has no complaint.
unfoldable pub validate_immutable_fields : Schedule → Schedule → Bool
validate_immutable_fields input s =
    (text_eq input.app_id [] || text_eq input.app_id s.app_id)
    && (text_eq input.schedule_id zero_uuid || text_eq input.schedule_id s.schedule_id)

abbrev pub or_old : Text → Text → Text
or_old [] old = old
or_old (c ∷ new) old = c ∷ new

-- `updateScheduleFields`.
unfoldable pub update_schedule_fields : Schedule → Given → Schedule → Option Schedule
update_schedule_fields input callback s =
    let changed = record s {
      cron_expression = or_old input.cron_expression s.cron_expression;
      payload = or_old input.payload s.payload;
    } in
    elim callback [
      | absent ↦ some changed
      | invalid ↦ none
      | given c ↦ some (record changed { callback = some c })
    ]

abbrev pub or_refuse : {A : Type 0} → ℕ → Option A → H A
or_refuse code none = refuse code
or_refuse code (some a) = give a

-- `UpdateRecurringSchedule`, with the time in seconds for the validation and in nanoseconds for the
-- runs.
unfoldable pub update :
    ℤ → ℤ → ℕ → Configuration → Option Text → Option (Schedule × Given) → H Schedule
update seconds now flush_period conf none body = refuse invalid_data
update seconds now flush_period conf (some id) none = refuse unmarshal_error
update seconds now flush_period conf (some id) (some (input, callback)) = do
  (s, app) ← validate_existing id
  refuse_if (not (validate_immutable_fields input s)) invalid_data
  changed ← or_refuse invalid_data (update_schedule_fields input callback s)
  accepted unprocessable_entity (validate_schedule seconds app conf changed)
  on_schedules persisted (update_recurring_schedule now flush_period changed)
