-- ===== src/Schedules/Batching.antt =====
-- dao/schedule_dao_impl.go: `BulkAction`, which the workers of connectors/bulkAction.go call, and the
-- batches of one page that it shares with `ScheduleRetriever.BulkAction` of
-- retrievers/schedule_retriver.go, which repeats its loop over the rows.
use goscheduler.Shared.{
  ℕ, List, [], ◌∷◌, ◌++◌, Bool, true, false, ◌==◌, ◌&&◌, if◌then◌else◌, length,
}
use goscheduler.Store.Schedule.{Schedule}
use goscheduler.Schedules.Session.{Row}
use goscheduler.Schedules.Runs.{Page}

abbrev pub batch_size : ℕ
batch_size = 50

-- Whether the run goes on, the batches acted on, and the batch that waits.
pub record Progress : Type 0 where
  pub going : Bool
  pub acted : List (List Schedule)
  pub batch : List Schedule

-- Whether `actionIfRequired` gives no error.
module _ (acts : List Schedule → Bool) where
  -- The rows of one page.
  unfoldable pub act_rows : List Row → List Schedule → Progress
  act_rows [] batch = record { going = true; acted = []; batch = batch }
  act_rows (row ∷ rows) batch =
      let grown = batch ++ row.entry ∷ [] in
      let full = length grown == batch_size in
      let rest : Progress = act_rows rows (if full then [] else grown) in
      if row.decodes
      then (if full
          then (if acts grown
              then record { going = rest.going; acted = grown ∷ rest.acted; batch = rest.batch }
              else record { going = false; acted = grown ∷ []; batch = grown })
          else rest)
      else record { going = false; acted = []; batch = batch }

  -- The batch that remains.
  abbrev pub act_last : List Schedule → Bool × List (List Schedule)
  act_last [] = (true, [])
  act_last (s ∷ batch) = (acts (s ∷ batch), (s ∷ batch) ∷ [])

  -- `ScheduleDaoImpl.BulkAction` at the page that the query gives for no page state: whether it gives no
  -- error, and the batches acted on. A query with a page state, an empty one too, reads one page.
  unfoldable pub bulk_action : Page → Bool × List (List Schedule)
  bulk_action page =
      let progress : Progress = act_rows page.rows [] in
      let last = act_last progress.batch in
      if progress.going
      then (last.0 && page.closes, progress.acted ++ last.1)
      else (false, progress.acted)
