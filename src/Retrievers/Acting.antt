-- ===== src/Retrievers/Acting.antt =====
-- retrievers/schedule_retriver.go: `actionIfRequired`, the bulk action on one batch, with the
-- enrichment and the deletion of the dao. The schedules whose callbacks are invoked are an output.
use goscheduler.Shared.{ℕ, List, [], ◌∷◌, Bool, if◌then◌else◌, keep}
use goscheduler.Shared.Int.{ℤ}
use goscheduler.Shared.Text.{Text}
use goscheduler.Store.Schedule.{Schedule, Status, StatusRow}
use goscheduler.Dao.Session.{err, query_failed}
use goscheduler.Schedules.Session.{M, pure, lift, attempt, ◌>>=◌}
use goscheduler.Schedules.Recurring.{delete_schedule}
use goscheduler.Schedules.BulkActing.{ActionType, reconciles, deletes, other}
use goscheduler.Schedules.Enrich.{optimized_enrich_schedule, contains}

module _ (now : ℤ) (flush_period : ℕ) where
  -- The loop over the schedules chosen; what becomes of a callback or of a deletion is dropped.
  unfoldable pub act_on : ActionType → List Schedule → M (List Schedule)
  act_on action [] = pure []
  act_on reconciles (s ∷ rest) = do more ← act_on reconciles rest; pure (s ∷ more)
  act_on deletes (s ∷ rest) = do
    gone ← attempt (delete_schedule now flush_period s.schedule_id)
    act_on deletes rest
  act_on other (s ∷ rest) = act_on other rest

  -- `actionIfRequired`, with the rows of the statuses that the query gives, and whether its iterator
  -- closes without an error.
  unfoldable pub action_if_required :
      List (Text × StatusRow) → Bool → List Status → ActionType → List Schedule → M (List Schedule)
  unfolding act_on
  action_if_required rows closes statuses action [] = pure []
  action_if_required rows closes statuses action (s ∷ rest) =
      let (whole, enriched) = optimized_enrich_schedule now flush_period rows closes (s ∷ rest) in
      if whole then act_on action (keep (contains statuses) enriched) else lift (err query_failed)
