-- ===== src/Supervisor/Apps.antt =====
-- cluster/supervisor.go: activating and deactivating an app, and telling the nodes.
use goscheduler.Shared.{ℕ, zero, suc, List, [], ◌∷◌, none, some, Bool, if◌then◌else◌}
use goscheduler.Shared.Text.{Text, text_eq}
use goscheduler.Entity.{entity_id}
use goscheduler.Store.App.{App}
use goscheduler.Dao.Session.{Conf, Result, ok, err}
use goscheduler.Dao.Apps.{invalidate_single_app_cache}
use goscheduler.Supervisor.Cluster.{Ring, S, give, panic, ◌>>=◌, ◌>>◌, on_dao}
use goscheduler.Supervisor.Entities.{
  start_method, stop_method, update_method, start_entity, stop_entity, send,
}

-- `AppDetailsUpdateHandler`.
unfoldable pub app_details_update : Text → Text → S (Unit {0})
app_details_update at name = on_dao at (invalidate_single_app_cache name) >> give tt

-- The loop of `appDetailsUpdateBroadcast` over the reachable nodes.
unfoldable pub broadcast_to : Ring → Conf → ℕ → Text → Text → List Text → S (Unit {0})
broadcast_to ring conf n at name [] = give tt
broadcast_to ring conf n at name (node ∷ nodes) =
    (if text_eq node at
      then app_details_update at name
      else send ring conf n update_method node (name ∷ []))
    >> broadcast_to ring conf n at name nodes

-- `appDetailsUpdateBroadcast`: nothing if the members are not known.
unfoldable pub broadcast : Ring → Conf → ℕ → Text → Text → S (Unit {0})
broadcast ring conf n at name = elim (ring.members at) [
  | none ↦ give tt
  | some nodes ↦ broadcast_to ring conf n at name nodes
]

abbrev pub started_or_panic : Result (Unit {0}) → S (Unit {0})
started_or_panic (ok u) = give tt
started_or_panic (err e) = panic

abbrev pub stopped_or_panic : Bool × Result (Unit {0}) → S (Unit {0})
stopped_or_panic (existed, ok u) = give tt
stopped_or_panic (existed, err e) = panic

-- One round of the loop of `ActivateApp`.
unfoldable pub enable : Ring → Conf → ℕ → Text → Text → S (Unit {0})
enable ring conf n at id = elim (ring.owner at id) [
  | none ↦ panic
  | some node ↦
      if text_eq node at
      then (start_entity conf at id >>= started_or_panic)
      else send ring conf n start_method node (id ∷ [])
]

-- One round of the loop of `DeactivateApp`.
unfoldable pub disable : Ring → Conf → ℕ → Text → Text → S (Unit {0})
disable ring conf n at id = elim (ring.owner at id) [
  | none ↦ panic
  | some node ↦
      if text_eq node at
      then (stop_entity conf at id >>= stopped_or_panic)
      else send ring conf n stop_method node (id ∷ [])
]

-- The round for the partitions `from`, …, `from + count - 1`.
unfoldable pub each_partition : (Text → S (Unit {0})) → Text → ℕ → ℕ → S (Unit {0})
each_partition round app from zero = give tt
each_partition round app from (suc count) =
    round (entity_id app from) >> each_partition round app (suc from) count

-- `ActivateApp` and `DeactivateApp` of the supervisor at `at`.
unfoldable pub activate_app : Ring → Conf → ℕ → Text → App → S (Unit {0})
activate_app ring conf n at app =
    each_partition (enable ring conf n at) app.app_id 0 app.partitions
    >> broadcast ring conf n at app.app_id

unfoldable pub deactivate_app : Ring → Conf → ℕ → Text → App → S (Unit {0})
deactivate_app ring conf n at app =
    each_partition (disable ring conf n at) app.app_id 0 app.partitions
    >> broadcast ring conf n at app.app_id
