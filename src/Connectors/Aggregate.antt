-- ===== src/Connectors/Aggregate.antt =====
-- connectors/aggregate.go: the statuses that wait for a batch, and connectors/status.go, which writes
-- the batches. The lock makes a turn of either loop one event.
use goscheduler.Shared.{ℕ, List, [], ◌∷◌, ◌++◌, Bool, ◌&&◌, ◌==◌, if◌then◌else◌, length, map}
use goscheduler.Shared.Text.{Text, text_eq}
use goscheduler.Store.App.{App}
use goscheduler.Store.Schedule.{Schedule}

-- What waits for one app and partition.
pub record Group : Type 0 where
  pub app_id : Text
  pub partition_id : ℕ
  pub batch : List Schedule

pub record StatusTask : Type 0 where
  pub schedules : List Schedule
  pub app : App

-- A schedule comes from the queue with its app, or the flush period is over.
pub data Event : Type 0 where
  arrives : Schedule → App → Event
  ticks : Event

abbrev pub belongs : Group → Schedule → Bool
belongs g s = text_eq g.app_id s.app_id && g.partition_id == s.partition_id

-- The flush, with what `GetApp` gives for each app; every group has a schedule.
unfoldable pub flush : (Text → App) → List Group → List StatusTask
flush get_app groups = map (λ g. record { schedules = g.batch; app = get_app g.app_id }) groups

module _ (batch_size : ℕ) where
  -- A full batch goes to the queue of statuses, and its key out of the map.
  abbrev pub settle : Group → App → List Group → List StatusTask × List Group
  settle g app groups =
      if length g.batch == batch_size
      then (record { schedules = g.batch; app = app } ∷ [], groups)
      else ([], g ∷ groups)

  unfoldable pub add : Schedule → App → List Group → List StatusTask × List Group
  add s app [] =
      settle (record { app_id = s.app_id; partition_id = s.partition_id; batch = s ∷ [] }) app []
  add s app (g ∷ groups) =
      let rest = add s app groups in
      if belongs g s
      then settle (record g { batch = g.batch ++ s ∷ [] }) app groups
      else (rest.0, g ∷ rest.1)

  -- `aggregateSchedules`, one turn.
  unfoldable pub aggregate : (Text → App) → Event → List Group → List StatusTask × List Group
  unfolding add flush
  aggregate get_app (arrives s app) groups = add s app groups
  aggregate get_app ticks groups = (flush get_app groups, [])

  -- The tasks of a run of events, and what waits after it.
  unfoldable pub aggregate_all :
      (Text → App) → List Event → List Group → List StatusTask × List Group
  unfolding aggregate
  aggregate_all get_app [] groups = ([], groups)
  aggregate_all get_app (event ∷ events) groups =
      let now : List StatusTask × List Group = aggregate get_app event groups in
      let rest : List StatusTask × List Group = aggregate_all get_app events now.1 in
      (now.0 ++ rest.0, rest.1)
