-- ===== src/Schedules/BulkActing.antt =====
-- dao/schedule_dao_impl.go: `actionIfRequired`, the bulk action on one batch.
use goscheduler.Shared.{ℕ, List, [], ◌∷◌, Bool, true, false, if◌then◌else◌, keep}
use goscheduler.Shared.Int.{ℤ}
use goscheduler.Shared.Text.{Text}
use goscheduler.Store.Schedule.{Schedule, Status, StatusRow}
use goscheduler.Dao.Session.{err, query_failed}
use goscheduler.Schedules.Session.{M, pure, lift, attempt, ◌>>=◌}
use goscheduler.Schedules.Recurring.{delete_schedule}
use goscheduler.Schedules.Enrich.{optimized_enrich_schedule, contains}

-- `ActionType`; any other text does nothing.
pub data ActionType : Type 0 where
  reconciles deletes other : ActionType

-- What became of a batch: whether each callback was invoked without an error, and those invoked.
pub record Acted : Type 0 where
  pub fine : Bool
  pub invoked : List Schedule

-- Whether `Callback.Invoke` gives no error.
module _ (invoke : Schedule → Bool) (now : ℤ) (flush_period : ℕ) where
  -- The loop over the schedules chosen; what becomes of a deletion is dropped.
  unfoldable pub act_on : ActionType → List Schedule → M Acted
  act_on action [] = pure (record { fine = true; invoked = [] })
  act_on reconciles (s ∷ rest) =
      if invoke s
      then (do
        more ← act_on reconciles rest
        pure (record { fine = more.fine; invoked = s ∷ more.invoked }))
      else pure (record { fine = false; invoked = s ∷ [] })
  act_on deletes (s ∷ rest) = do
    gone ← attempt (delete_schedule now flush_period s.schedule_id)
    act_on deletes rest
  act_on other (s ∷ rest) = act_on other rest

  -- `actionIfRequired`, with the rows of the statuses that the query gives, and whether its iterator
  -- closes without an error.
  unfoldable pub action_if_required :
      List (Text × StatusRow) → Bool → List Status → ActionType → List Schedule → M Acted
  action_if_required rows closes statuses action [] = pure (record { fine = true; invoked = [] })
  action_if_required rows closes statuses action (s ∷ rest) =
      let (whole, enriched) = optimized_enrich_schedule now flush_period rows closes (s ∷ rest) in
      if whole then act_on action (keep (contains statuses) enriched) else lift (err query_failed)
