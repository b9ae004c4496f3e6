-- ===== src/Retrievers/Fetching.antt =====
-- retrievers/retrievers.go, retrievers/schedule_retriver.go and retrievers/cron_retriever.go. The query
-- `GetSchedulesForEntity` is a parameter, from a page state to a page; a callback that is invoked and a
-- batch that is acted on are outputs.
use goscheduler.Shared.{
  ℕ, zero, suc, List, [], ◌∷◌, ◌++◌, Option, none, some, Bool, true, false, ◌||◌, ltb,
  if◌then◌else◌,
}
use goscheduler.Shared.Text.{Text, text_eq}
use goscheduler.Shared.Dict.{lookup}
use goscheduler.Store.Schedule.{Schedule, scheduled}
use goscheduler.Schedules.Session.{Row}
use goscheduler.Schedules.Runs.{Page, is_empty_state}
use goscheduler.Schedules.Batching.{Progress, act_rows, act_last}
use goscheduler.Schedules.Enrich.{get_recurring_by_partition}

-- `Retrievers.Get`, with the name that stands for the default.
unfoldable pub get_retriever {ℓ} : {A : Type ℓ} → List (Text × A) → Text → Text → Option A
get_retriever retrievers default_ app = elim (lookup app retrievers) [
  | none ↦ lookup default_ retrievers
  | some r ↦ some r
]

-- The schedules of one page, up to a row that does not decode.
unfoldable pub read_rows : List Row → Bool × List Schedule
read_rows [] = (true, [])
read_rows (row ∷ rows) =
    let rest = read_rows rows in if row.decodes then (rest.0, row.entry ∷ rest.1) else (false, [])

-- What the later pages give, behind what the earlier ones gave.
abbrev pub before {ℓ} : {A : Type ℓ} → List A → Option (Bool × List A) → Option (Bool × List A)
before xs none = none
before xs (some (fine, more)) = some (fine, xs ++ more)

module _ (query : Option ℕ → Page) where
  -- The loop of `ScheduleRetriever.GetSchedules`, on fuel, with the number of queries so far: whether
  -- it gives no error, and the schedules whose callbacks it invokes.
  unfoldable pub fetch_loop : ℕ → ℕ → ℕ → Option ℕ → Option (Bool × List Schedule)
  unfolding read_rows
  fetch_loop zero max_queries queries state = none
  fetch_loop (suc fuel) max_queries queries state =
      let page : Page = query state in
      let (whole, schedules) = read_rows page.rows in
      let rest = fetch_loop fuel max_queries (suc queries) page.next in
      if whole
      then (if page.closes
          then (if is_empty_state page.next || ltb max_queries (suc queries)
              then some (true, schedules)
              else before schedules rest)
          else some (false, schedules))
      else some (false, schedules)

-- Whether `actionIfRequired` gives no error.
module _ (acts : List Schedule → Bool) (query : Option ℕ → Page) where
  -- `ScheduleRetriever.BulkAction`, on fuel: whether it gives no error, and the batches acted on.
  unfoldable pub bulk_action : ℕ → Option ℕ → List Schedule → Option (Bool × List (List Schedule))
  bulk_action zero state batch = none
  bulk_action (suc fuel) state batch =
      let page : Page = query state in
      let progress : Progress = act_rows acts page.rows batch in
      let rest = bulk_action fuel page.next progress.batch in
      let last = act_last acts progress.batch in
      if progress.going
      then (if page.closes
          then (if is_empty_state page.next
              then some (last.0, progress.acted ++ last.1)
              else before progress.acted rest)
          else some (false, progress.acted))
      else some (false, progress.acted)

-- The loop of `CronRetriever.GetSchedules` over the schedules of a partition: those that become tasks.
unfoldable pub cron_tasks : List Schedule → List Schedule
cron_tasks [] = []
cron_tasks (s ∷ rest) =
    let more = cron_tasks rest in if text_eq s.status scheduled then s ∷ more else more

-- `CronRetriever.GetSchedules`: an error of the query is only logged.
unfoldable pub get_cron_tasks : List Row → Bool → List Schedule
unfolding cron_tasks
get_cron_tasks rows closes = cron_tasks (get_recurring_by_partition rows closes).1
