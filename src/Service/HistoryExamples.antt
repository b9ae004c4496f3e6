-- ===== src/Service/HistoryExamples.antt =====
-- The theorems on sequences of requests at a small table.
use goscheduler.Shared.{ℕ, List, [], ◌∷◌, ◌≡◌, refl, none, some}
use goscheduler.Shared.Int.{pos}
use goscheduler.Shared.Text.{codes}
use goscheduler.Store.App.{empty_configuration}
use goscheduler.Store.Schedule.{Schedule, Status, scheduled, deleted}
use goscheduler.Store.Examples.{order}
use goscheduler.Schedules.Session.{Tables}
use goscheduler.Schedules.Rows.{insert_recurring}
use goscheduler.Schedules.Steps.{inserting}
use goscheduler.Schedules.Sync.{InSync, Step-InSync}
use goscheduler.Schedules.Statuses.{status_at, Leaves}
use goscheduler.Service.Lifecycle.{World}
use goscheduler.Service.Histories.{
  Request, cancelling, pausing, resuming, Moment, handle, handle_all, AllFresh, handle_all-InSync,
  handle-status, handle_all-deleted,
}

abbrev no_tables : Tables
no_tables = record {
  one_time = [];
  by_id = λ id. none;
  by_partition = λ partition id app. none;
  runs = [];
  statuses = λ app partition id. none;
}

abbrev nightly : Schedule
nightly = record order {
  schedule_id = codes "night";
  partition_id = 1;
  cron_expression = codes "0 3 * * *";
}

abbrev world : Status → World
world status = record {
  dao = record { cache = []; db = record { apps = []; entities = []; replies = [] } };
  session = record { tables = insert_recurring nightly status no_tables; replies = [] };
}

abbrev requests : List (Moment × Request)
requests =
    (record { seconds = pos 5; nanoseconds = pos 5000000000 }, pausing (some (codes "night")))
    ∷ (record { seconds = pos 6; nanoseconds = pos 6000000000 }, resuming (some (codes "night")))
    ∷ (record { seconds = pos 7; nanoseconds = pos 7000000000 }, cancelling (some (codes "night")))
    ∷ []

abbrev limits : ℕ
limits = 60

requests-AllFresh :
    (status : Status) → AllFresh empty_configuration (codes "Athena") limits requests (world status)
requests-AllFresh status = (tt, (tt, (tt, tt)))

nightly-InSync : InSync (world scheduled).session.tables
nightly-InSync =
    Step-InSync no_tables (world scheduled).session.tables (inserting nightly refl (refl, refl))
      (λ partition id app. refl)

nightly-status :
    (status : Status) → status_at (codes "night") (world status).session.tables ≡ some status
unfolding insert_recurring
nightly-status status = refl

handle_all-InSync_example :
    InSync
      (handle_all empty_configuration
        (codes "Athena")
        limits
        requests
        (world scheduled)).session.tables
handle_all-InSync_example =
    handle_all-InSync empty_configuration (codes "Athena") limits requests (world scheduled)
      (requests-AllFresh scheduled) nightly-InSync

handle-status_example :
    Leaves scheduled
      (codes "night")
      (handle empty_configuration
        (codes "Athena")
        limits
        (record { seconds = pos 5; nanoseconds = pos 5000000000 })
        (pausing (some (codes "night")))
        (world scheduled)).session.tables
handle-status_example =
    handle-status empty_configuration (codes "Athena") limits
      (record { seconds = pos 5; nanoseconds = pos 5000000000 }) (pausing (some (codes "night")))
      (world scheduled) (codes "night") scheduled tt (nightly-status scheduled)

handle_all-deleted_example :
    status_at
      (codes "night")
      (handle_all empty_configuration
        (codes "Athena")
        limits
        requests
        (world deleted)).session.tables
    ≡ some deleted
handle_all-deleted_example =
    handle_all-deleted empty_configuration (codes "Athena") limits requests (world deleted)
      (codes "night") (requests-AllFresh deleted) (nightly-status deleted)
