-- ===== src/Store/Validation.antt =====
-- store/schedule.go: `ValidateSchedule`. Its texts are one constructor for each format; a call
-- panics or runs on where `Validate` of a missing callback or `cron.Parse` does.
use goscheduler.Shared.{List, [], ◌∷◌, ◌++◌, Option, none, some, if◌then◌else◌, length, map}
use goscheduler.Shared.Int.{ℤ, pos, ltb_ℤ, eqb_ℤ, sub64}
use goscheduler.Shared.Text.{Text}
use goscheduler.Cron.Outcome.{Message, Outcome, ok, panics, ◌>>=◌}
use goscheduler.Cron.Expression.{Expression, parse}
use goscheduler.Store.App.{App, Configuration, get_max_ttl}
use goscheduler.Store.Schedule.{Callback, Schedule, is_recurring}

pub data Problem : Type 0 where
  no_app_id no_payload payload_size in_past too_far : Problem
  in_callback : Text → Problem
  in_cron : Message → Problem

-- `validateField`.
unfoldable pub validate_field : Text → Problem → List Problem
validate_field [] problem = problem ∷ []
validate_field (c ∷ s) problem = []

-- The limit of `validatePayloadSize`.
unfoldable pub max_payload_size : App → ℤ → ℤ
max_payload_size app max_payload =
    if eqb_ℤ app.configuration.payload_size (pos 0)
    then max_payload
    else app.configuration.payload_size

unfoldable pub validate_payload_size : Text → App → ℤ → List Problem
validate_payload_size payload app max_payload =
    if ltb_ℤ (max_payload_size app max_payload) (pos (length payload))
    then payload_size ∷ []
    else []

-- `validateScheduleTime`, with the time in seconds.
unfoldable pub validate_schedule_time : ℤ → ℤ → App → ℤ → List Problem
validate_schedule_time now time app max_ttl =
    if ltb_ℤ time now
    then in_past ∷ []
    else if ltb_ℤ (get_max_ttl app max_ttl) (sub64 time now)
    then too_far ∷ []
    else []

abbrev pub problem_of : Option Text → List Problem
problem_of none = []
problem_of (some text) = in_callback text ∷ []

-- `validateCallback`: a call on the nil interface panics.
unfoldable pub validate_callback : Option Callback → Outcome (List Problem)
validate_callback none = panics
validate_callback (some c) = ok (problem_of c.problem)

abbrev cron_problems : Expression × List Message → Outcome (List Problem)
cron_problems (e, messages) = ok (map in_cron messages)

-- `validateCronExpression`.
unfoldable pub validate_cron_expression : Text → Outcome (List Problem)
validate_cron_expression s = parse s >>= cron_problems

-- The branch on the kind of schedule.
unfoldable pub validate_when : ℤ → App → Configuration → Schedule → Outcome (List Problem)
validate_when now app conf s =
    if is_recurring s
    then validate_cron_expression s.cron_expression
    else ok (validate_schedule_time now s.schedule_time app conf.future_schedule_creation_period)

-- `ValidateSchedule`, with the limits of the process's configuration.
unfoldable pub validate_schedule : ℤ → App → Configuration → Schedule → Outcome (List Problem)
validate_schedule now app conf s = do
  callback ← validate_callback s.callback
  when ← validate_when now app conf s
  ok (
      validate_field s.app_id no_app_id
      ++ validate_field s.payload no_payload
      ++ validate_payload_size s.payload app conf.payload_size
      ++ callback
      ++ when)
