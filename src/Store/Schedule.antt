-- ===== src/Store/Schedule.antt =====
-- store/schedule.go: a schedule and its operations. A UUID is its text of 36 characters, a payload
-- its bytes. The raw JSON of the callback and the deprecated fields are left out.
use goscheduler.Shared.{
  ℕ, zero, suc, ◌+◌, ◌-◌, ◌*◌, List, [], ◌∷◌, ◌++◌, Option, none, some, Bool, true, false, ◌&&◌,
  ltb, if◌then◌else◌, length, drop,
}
use goscheduler.Shared.Int.{ℤ, pos, negsuc, pos_part, neg_part, ltb_ℤ, add64, sub64}
use goscheduler.Shared.Text.{Text, codes}
use goscheduler.Store.App.{App, get_buffer_ttl}

-- `Status` is a string in the source.
abbrev pub Status : Type 0
Status = Text

abbrev pub scheduled : Status
scheduled = codes "SCHEDULED"

abbrev pub deleted : Status
deleted = codes "DELETED"

abbrev pub success : Status
success = codes "SUCCESS"

abbrev pub failure : Status
failure = codes "FAILURE"

abbrev pub miss : Status
miss = codes "MISS"

abbrev pub paused : Status
paused = codes "PAUSED"

-- The interface `Callback`, as what `GetType`, `GetDetails` and `Validate` of a value return.
pub record Callback : Type 0 where
  pub kind : Text
  pub details : Text
  pub problem : Option Text

pub record Reconciliation : Type 0 where
  pub status : Status
  pub error_message : Text
  pub callback_on : Text

pub record Schedule : Type 0 where
  pub schedule_id : Text
  pub payload : Text
  pub app_id : Text
  pub schedule_time : ℤ
  pub partition_id : ℕ
  pub schedule_group : ℤ
  pub callback : Option Callback
  pub cron_expression : Text
  pub status : Status
  pub error_message : Text
  pub parent_schedule_id : Text
  pub reconciliation_history : List Reconciliation

abbrev pub zero_uuid : Text
zero_uuid = codes "00000000-0000-0000-0000-000000000000"

abbrev pub no_schedule : Schedule
no_schedule = record {
  schedule_id = zero_uuid;
  payload = [];
  app_id = [];
  schedule_time = pos 0;
  partition_id = 0;
  schedule_group = pos 0;
  callback = none;
  cron_expression = [];
  status = [];
  error_message = [];
  parent_schedule_id = zero_uuid;
  reconciliation_history = [];
}

-- `IsRecurring`.
unfoldable pub is_recurring : Schedule → Bool
is_recurring s = ltb 0 (length s.cron_expression)

-- `CloneAsOneTime`, with the time in seconds and the new UUID.
unfoldable pub clone_as_one_time : Schedule → Text → ℤ → Schedule
clone_as_one_time s uuid at = record no_schedule {
  schedule_id = uuid;
  schedule_group = at;
  schedule_time = at;
  app_id = s.app_id;
  callback = s.callback;
  payload = s.payload;
  parent_schedule_id = s.schedule_id;
}

-- Nanoseconds in a number of seconds.
abbrev pub nanos : ℤ → ℤ
nanos (pos n) = pos (1000000000 * n)
nanos (negsuc n) = negsuc (1000000000 * suc n - 1)

-- `CheckUntriggeredCallback`, with the time in nanoseconds. The source compares the difference in
-- floating point, the model exactly.
unfoldable pub check_untriggered_callback : ℤ → ℕ → Schedule → Bool
check_untriggered_callback now flush_period s =
    ltb_ℤ (nanos s.schedule_group) now
    && ltb (pos_part (nanos s.schedule_group) + neg_part now + 1000000000 * (60 + flush_period))
        (pos_part now + neg_part (nanos s.schedule_group))

-- `GetTTL`, with the time in seconds.
unfoldable pub get_ttl : ℤ → Schedule → App → ℤ → ℤ
get_ttl now s app buffer_ttl = add64 (sub64 s.schedule_time now) (get_buffer_ttl app buffer_ttl)

-- A row of the table of statuses; `history` is its JSON as it decodes.
pub record StatusRow : Type 0 where
  pub row_status : Status
  pub row_message : Text
  pub history : Option (List Reconciliation)

-- `SetStatus`: false if the history does not decode.
unfoldable pub set_status : StatusRow → Schedule → Bool × Schedule
set_status row s = elim row.history [
  | none ↦ (false, record s { status = row.row_status; error_message = row.row_message })
  | some history ↦ (
    true,
    record s {
      status = row.row_status;
      error_message = row.row_message;
      reconciliation_history = history;
    },
  )
]

-- `SetUnknownStatus`.
unfoldable pub set_unknown_status : ℤ → ℕ → Schedule → Schedule
set_unknown_status now flush_period s =
    if check_untriggered_callback now flush_period s
    then record s { status = miss; error_message = codes "Failed to make a callback" }
    else record s { status = scheduled; error_message = [] }

abbrev pub max_history_size : ℕ
max_history_size = 5

-- The slice `history[length-size : length]` when there are more.
unfoldable pub latest : ℕ → List Reconciliation → List Reconciliation
latest size history =
    if ltb size (length history) then drop (length history - size) history else history

-- `UpdateReconciliationHistory`, with the time as it is formatted.
unfoldable pub update_reconciliation_history : Text → Status → Text → Schedule → Schedule
update_reconciliation_history on status message s = record s {
  reconciliation_history = latest max_history_size (
      s.reconciliation_history
      ++ record { status = status; error_message = message; callback_on = on } ∷ []);
}

-- The first eight bytes as a big-endian number; `none` is the panic of a shorter slice.
unfoldable pub big_endian : ℕ → ℕ → Text → Option ℕ
big_endian zero acc s = some acc
big_endian (suc n) acc [] = none
big_endian (suc n) acc (c ∷ s) = big_endian n (256 * acc + c) s
