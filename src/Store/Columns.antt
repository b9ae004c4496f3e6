-- ===== src/Store/Columns.antt =====
-- store/schedule.go and store/http_callback.go: what is stored of a schedule in the columns of a row,
-- and how `CreateScheduleFromCassandraMap` reads it. JSON of the details is a parameter.
use goscheduler.Shared.{ℕ, List, Option, none, some, Bool, if◌then◌else◌}
use goscheduler.Shared.Int.{ℤ}
use goscheduler.Shared.Text.{Text, text_eq}
use goscheduler.Store.Callbacks.{CallbackProblem, validate_http}
use goscheduler.Store.Schedule.{Schedule, Callback, Status, no_schedule, zero_uuid}
use goscheduler.Store.Registry.{Factory, Registry, ◌>>=◌, create_callback_from_map}

-- The columns that a query selects; `none` for one that it does not select. A time is in milliseconds,
-- as the driver keeps it.
pub record Columns : Type 0 where
  pub app_id : Text
  pub partition_id : ℕ
  pub callback_type : Text
  pub callback_details : Text
  pub payload : Text
  pub cron_expression : Option Text
  pub schedule_time_group : ℤ
  pub schedule_time : ℤ
  pub status : Option Status
  pub schedule_id : Text
  pub parent_schedule_id : Option Text

-- The cron expression, or the group and the time, on a schedule. `unix` is `Unix()` of the time that the
-- driver makes of a column.
abbrev pub with_times : (ℤ → ℤ) → Columns → Schedule → Schedule
with_times unix m s = elim m.cron_expression [
  | some expression ↦ record s { cron_expression = expression }
  | none ↦ record s {
    schedule_group = unix m.schedule_time_group;
    schedule_time = unix m.schedule_time;
  }
]

abbrev pub status_or : Option Status → Status → Status
status_or none old = old
status_or (some status) old = status

-- A zero UUID is no parent.
abbrev pub parent_or : Option Text → Text → Text
parent_or none old = old
parent_or (some parent) old = if text_eq parent zero_uuid then old else parent

-- `CreateScheduleFromCassandraMap` of a row, on a new schedule.
unfoldable pub create_schedule_from_cassandra_map : (ℤ → ℤ) → Registry → Columns → Option Schedule
create_schedule_from_cassandra_map unix registry m = do
  callback ← create_callback_from_map registry m.callback_type m.callback_details
  some (
      let s = with_times unix m (record no_schedule {
        app_id = m.app_id;
        partition_id = m.partition_id;
        callback = some callback;
        payload = m.payload;
      }) in
      record s {
        status = status_or m.status s.status;
        schedule_id = m.schedule_id;
        parent_schedule_id = parent_or m.parent_schedule_id s.parent_schedule_id;
      })

-- `Details`.
pub record Details : Type 0 where
  pub url : Text
  pub method : Text
  pub headers : List (Text × Text)

pub record HttpCallback : Type 0 where
  pub kind : Text
  pub details : Details

-- `json.Marshal` and `json.Unmarshal` of details, `json.Unmarshal` of a callback, whether
-- `url.ParseRequestURI` accepts a text, and the text of a problem.
pub record Json : Type 0 where
  pub encode : Details → Text
  pub decode : Text → Option Details
  pub decode_callback : Text → Option HttpCallback
  pub parses : Text → Bool
  pub says : CallbackProblem → Text

module _ (json : Json) where
  abbrev pub problem_text : Option CallbackProblem → Option Text
  problem_text none = none
  problem_text (some problem) = some (json.says problem)

  -- `GetType`, `GetDetails` and `Validate`.
  abbrev pub as_callback : HttpCallback → Callback
  as_callback h = record {
    kind = h.kind;
    details = json.encode h.details;
    problem = problem_text (validate_http json.parses h.details.url h.details.method);
  }

  -- `Marshal`.
  unfoldable pub marshal : Text → Text → Option HttpCallback
  marshal kind text = do
    details ← json.decode text
    some (record { kind = kind; details = details })

  -- The factory of `HttpCallback` in `InitializeCallbackRegistry`.
  unfoldable pub http_factory : Factory
  unfolding marshal
  http_factory = record {
    unmarshal = λ raw. (json.decode_callback raw >>= (λ h. some (as_callback h)));
    marshal = λ kind text. (marshal kind text >>= (λ h. some (as_callback h)));
  }
