-- ===== src/Connectors/Due.antt =====
-- The times that connectors/cron.go chooses for runs.
use goscheduler.Shared.{ℕ, ◌*◌, ◌≤◌, List, ◌≡◌, Bool, true, false}
use goscheduler.Shared.Int.{ℤ, pos, add64}
use goscheduler.Store.Schedule.{Schedule}
use goscheduler.Shared.Text.{Text}
use goscheduler.Store.App.{App}
use goscheduler.Cron.Expression.{Expression}
use goscheduler.Connectors.Cron.{exists_at}

module _ (fires : ℤ → Bool) (runs : List Schedule) (from : ℤ) where
  -- A minute of the window at which the expression fires and no run exists.
  abbrev pub Due : ℕ → ℤ → Type 0
  Due minutes t =
      (i : ℕ) × (1 ≤ i)
      × (i ≤ minutes)
      × (t ≡ add64 from (pos (60 * i)))
      × (fires t ≡ true)
      × (exists_at t runs ≡ false)
