-- ===== src/Connectors/Examples.antt =====
-- The theorems on connectors/ at small inputs.
use goscheduler.Shared.{
  ℕ, suc, ◌+◌, ◌-◌, ◌%◌, ◌≤◌, List, [], ◌∷◌, ◌≡◌, arith, none, some, true, false, ◌⊎◌, ◌==◌,
  if◌then◌else◌, All, Below,
}
use goscheduler.Shared.Int.{ℤ, pos_part}
use goscheduler.Shared.Text.{Text, codes}
use goscheduler.Store.App.{App, empty_configuration}
use goscheduler.Store.Schedule.{Schedule, no_schedule}
use goscheduler.Cron.Expression.{Expression, Time}
use goscheduler.Cron.Meaning.{any}
use goscheduler.Cron.Whole.{Spec, IsValid, print, parse-meets}
use goscheduler.Connectors.Http.{Answer, failed, responded, is_success, retry_post}
use goscheduler.Connectors.Aggregate.{Event, arrives, ticks, aggregate_all}
use goscheduler.Connectors.Retries.{retry_post_lem}
use goscheduler.Connectors.Batches.{
  count_sent, count_waiting, Sendable, Waiting, aggregate_all_lem, aggregate_all-Sendable,
}
use goscheduler.Connectors.Due.{Due}

-- Answers at the second attempt.
abbrev second_time : ℕ → Answer
second_time n = if n == 2 then responded 200 (codes "200 OK") else failed (codes "timeout")

retry_post_lem_example :
    (n : ℕ) × (retry_post none second_time ≡ some (n, second_time n))
    × (1 ≤ n)
    × (n ≤ 3)
    × ((is_success (second_time n) ≡ true) ⊎ (n ≡ 3))
    × Below (λ k. is_success (second_time (suc k)) ≡ false) (n - 1)
retry_post_lem_example = retry_post_lem second_time

abbrev app_named : Text → App
app_named name = record {
  app_id = name;
  partitions = 2;
  active = true;
  configuration = empty_configuration;
}

abbrev order : Schedule
order = record no_schedule { app_id = codes "shop" }

abbrev events : List Event
events =
    arrives order (app_named (codes "shop"))
    ∷ arrives order (app_named (codes "shop"))
    ∷ arrives order (app_named (codes "shop"))
    ∷ ticks
    ∷ []

aggregate_all_lem_example :
    count_sent (λ s. true) (aggregate_all 2 app_named events []).0
      + count_waiting (λ s. true) (aggregate_all 2 app_named events []).1
    ≡ 3
aggregate_all_lem_example = aggregate_all_lem (λ s. true) 2 app_named events []

aggregate_all-Sendable_example :
    All (Sendable 2) (aggregate_all 2 app_named events []).0
    × All (Waiting 2) (aggregate_all 2 app_named events []).1
aggregate_all-Sendable_example = aggregate_all-Sendable 2 app_named events [] (omega arith) tt

-- At every minute.
abbrev always : Spec
always = record { minutes = any; hours = any; days = any; months = any; weekdays = any }

always-IsValid : IsValid always
always-IsValid = record { minutes = tt; hours = tt; days = tt; months = tt; weekdays = tt }

abbrev minutely : Schedule
minutely = record no_schedule { app_id = codes "shop"; cron_expression = print always }

abbrev clock : ℤ → Time
clock time = record { minute = pos_part time % 60; hour = 0; day = 1; month = 1; weekday = 0 }

abbrev every_minute : Expression
every_minute = (parse-meets always always-IsValid).0
