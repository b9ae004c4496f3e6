-- ===== src/Service/Queries.antt =====
-- service/get_app_schedules.go and service/get_runs.go: the parameters of a listing. A time is in
-- seconds; a fraction of a second of the clock is left out. A page state is a number, `none` the empty
-- one.
use goscheduler.Shared.{ℕ, [], Option, none, some, Bool, true, false, not, ◌&&◌, if◌then◌else◌}
use goscheduler.Shared.Int.{ℤ, pos, add64, sub64, mul64, quot64}
use goscheduler.Shared.Text.{Text, text_eq, parse_int}
use goscheduler.Store.Schedule.{Status}
use goscheduler.Schedules.Windows.{Range}

-- The parameters of a request, each empty if it is not given.
pub record Parameters : Type 0 where
  pub continuation_token : Text
  pub size : Text
  pub status : Text
  pub start_time : Text
  pub end_time : Text
  pub continuation_start_time : Text
  pub when : Text

-- What the libraries do with texts: `hex.DecodeString`, the number that `strconv.ParseInt` gives
-- besides its error, and `time.ParseInLocation` with the layout and the zone, in seconds.
pub record Texts : Type 0 where
  pub decode : Text → Option ℕ
  pub parsed : Text → ℤ
  pub parse_in_location : Text → Option ℤ

pub record AppQuery : Type 0 where
  pub size : ℤ
  pub status : Status
  pub time_range : Range
  pub page_state : Option ℕ
  pub continuation : ℤ

pub record RunsQuery : Type 0 where
  pub size : ℤ
  pub when : Text
  pub page_state : Option ℕ

-- `defaultDuration`.
abbrev pub default_duration : ℤ
default_duration = pos 3600

infixl 5 ◌>>=◌
abbrev pub ◌>>=◌ : {A B : Type 0} → Option A → (A → Option B) → Option B
none >>= f = none
(some a) >>= f = f a

abbrev is_none : {A : Type 0} → Option A → Bool
is_none none = true
is_none (some a) = false

-- The page state of a token: `none` if the token is refused.
abbrev pub page_state_of : Texts → Text → Option (Option ℕ)
page_state_of texts token =
    if text_eq token [] then some none else (do state ← texts.decode token; some (some state))

module _ (texts : Texts) where
  -- `parseDate`: the start of the minute.
  unfoldable pub parse_date : Text → Option ℤ
  parse_date date = do
    time ← texts.parse_in_location date
    some (mul64 (quot64 time (pos 60)) (pos 60))

  -- `parseDates`.
  unfoldable pub parse_dates : Text → Text → Option Range
  parse_dates start_time end_time = do
    start ← parse_date start_time
    end ← parse_date end_time
    some (record { start_time = start; end_time = end })

  -- The range of `parse` at a time.
  unfoldable pub range_of : ℤ → Text → Text → Option Range
  range_of now start_time end_time =
      if text_eq start_time [] && text_eq end_time []
      then some (record { start_time = sub64 now default_duration; end_time = now })
      else if text_eq end_time []
      then (do
        time ← parse_date start_time
        some (record { start_time = time; end_time = add64 time default_duration }))
      else if text_eq start_time []
      then (do
        time ← parse_date end_time
        some (record { start_time = sub64 time default_duration; end_time = time }))
      else parse_dates start_time end_time

  -- `parse`.
  unfoldable pub parse : ℤ → Parameters → Option AppQuery
  parse now p = do
    state ← page_state_of texts p.continuation_token
    size ← (if text_eq p.size [] then some (pos 15) else parse_int p.size)
    range ← range_of now p.start_time p.end_time
    some (record {
      size = size;
      status = p.status;
      time_range = range;
      page_state = state;
      continuation = texts.parsed p.continuation_start_time;
    })

  -- `parseQueryParams`: the error of the size is overwritten by the decoding of a token.
  unfoldable pub parse_query_params : Parameters → Option RunsQuery
  parse_query_params p =
      let size = if text_eq p.size [] then pos 15 else texts.parsed p.size in
      let refused = not (text_eq p.size []) && is_none (parse_int p.size) in
      if text_eq p.continuation_token []
      then (if refused
          then none
          else some (record { size = size; when = p.when; page_state = none }))
      else (do
        state ← texts.decode p.continuation_token
        some (record { size = size; when = p.when; page_state = some state }))
