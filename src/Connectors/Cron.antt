-- ===== src/Connectors/Cron.antt =====
-- connectors/cron.go: the one-time schedules of a recurring one. The calendar of a time is Go's, a
-- parameter; times are in seconds.
use goscheduler.Shared.{
  ℕ, zero, suc, ◌*◌, List, [], ◌∷◌, Option, none, some, Bool, true, false, ◌&&◌, ◌||◌, not,
  if◌then◌else◌,
}
use goscheduler.Shared.Int.{ℤ, pos, eqb_ℤ, add64}
use goscheduler.Shared.Text.{Text}
use goscheduler.Cron.Outcome.{Outcome, Message}
use goscheduler.Cron.Expression.{Expression, Time, parse, matches}
use goscheduler.Store.App.{App, Configuration}
use goscheduler.Store.Schedule.{Schedule, is_recurring, clone_as_one_time}
use goscheduler.Store.Partition.{set_fields}
use goscheduler.Store.Validation.{Problem, validate_schedule}
use goscheduler.Schedules.Session.{M, pure, attempt, ◌>>=◌}
use goscheduler.Schedules.Rows.{create_run}

abbrev pub exists_at : ℤ → List Schedule → Bool
exists_at time [] = false
exists_at time (run ∷ runs) = eqb_ℤ run.schedule_group time || exists_at time runs

-- The times of the loop from the end of the window, `minutes` behind `from`, down to the minute after
-- `from`: those that match and have no run yet.
unfoldable pub due : (ℤ → Bool) → List Schedule → ℤ → ℕ → List ℤ
due fires runs from zero = []
due fires runs from (suc minutes) =
    let time = add64 from (pos (60 * suc minutes)) in
    let rest = due fires runs from minutes in
    if not (exists_at time runs) && fires time then time ∷ rest else rest

-- What is made of one time: an error is only logged, a panic ends the worker.
abbrev create_valid : Outcome (List Problem) → Schedule → M Bool
create_valid (Outcome.ok []) s = do made ← attempt (create_run s); pure true
create_valid (Outcome.ok (p ∷ problems)) s = pure true
create_valid (Outcome.fails m) s = pure true
create_valid Outcome.panics s = pure false
create_valid Outcome.runs_on s = pure false

module _ (now : ℤ) (app : App) (conf : Configuration) (parent : Schedule) where
  abbrev create_set : Option Schedule → M Bool
  create_set none = pure false
  create_set (some s) = create_valid (validate_schedule now app conf s) s

  -- The body of the inner loop at one time, with the new UUID: false if it panics.
  unfoldable pub create_at : Text → ℤ → M Bool
  create_at uuid time = create_set (set_fields uuid app (clone_as_one_time parent uuid time))

  -- The inner loop over the times that are due.
  unfoldable pub create_runs : (ℤ → Text) → List ℤ → M Bool
  unfolding create_at
  create_runs uuid [] = pure true
  create_runs uuid (time ∷ times) = do
    going ← create_at (uuid time) time
    if going then create_runs uuid times else pure false

-- What follows the parsing: a recurring schedule of an active app, whose expression has no errors,
-- gets the runs that are due.
abbrev create_parsed :
    (ℤ → Time)
    → ℤ
    → App
    → Configuration
    → Schedule
    → List Schedule
    → ℤ
    → ℕ
    → (ℤ → Text)
    → Outcome (Expression × List Message)
    → M Bool
create_parsed calendar now app conf parent runs from minutes uuid (Outcome.ok (e, [])) =
    create_runs now app conf parent uuid (due (λ time. matches e (calendar time)) runs from minutes)
create_parsed calendar now app conf parent runs from minutes uuid (Outcome.ok (e, m ∷ ms)) =
    pure true
create_parsed calendar now app conf parent runs from minutes uuid (Outcome.fails m) = pure true
create_parsed calendar now app conf parent runs from minutes uuid Outcome.panics = pure false
create_parsed calendar now app conf parent runs from minutes uuid Outcome.runs_on = pure false

-- An app that is not there or not active: nothing follows the parsing.
abbrev create_parsed_only : Outcome (Expression × List Message) → M Bool
create_parsed_only (Outcome.ok found) = pure true
create_parsed_only (Outcome.fails m) = pure true
create_parsed_only Outcome.panics = pure false
create_parsed_only Outcome.runs_on = pure false

-- `createSchedules`, one task: with what `GetApp` gives for the parent's app, and the runs that
-- `GetScheduleRuns` gives. False if the worker panics or does not end.
unfoldable pub create_schedules :
    (ℤ → Time)
    → ℤ
    → Option App
    → Configuration
    → Schedule
    → List Schedule
    → ℤ
    → ℕ
    → (ℤ → Text)
    → M Bool
create_schedules calendar now none conf parent runs from minutes uuid =
    if is_recurring parent then create_parsed_only (parse parent.cron_expression) else pure true
create_schedules calendar now (some app) conf parent runs from minutes uuid =
    if is_recurring parent
    then (if app.active
        then create_parsed calendar now app conf parent runs from minutes uuid
            (parse parent.cron_expression)
        else create_parsed_only (parse parent.cron_expression))
    else pure true
