-- ===== src/Supervisor/Boot.antt =====
-- cluster/supervisor.go: booting entities, taking over those of a node that is gone, and stopping
-- a node. What `fetchAndRetrySchedule` takes again is in Entity/Polling and not part of this state.
use goscheduler.Shared.{
  ℕ, List, [], ◌∷◌, none, some, Bool, true, false, not, ◌&&◌, ◌==◌, if◌then◌else◌,
}
use goscheduler.Shared.Text.{Text, text_eq}
use goscheduler.Entity.{EntityInfo, get_app_name, running}
use goscheduler.Store.App.{App}
use goscheduler.Dao.Session.{Conf, Result, ok, err}
use goscheduler.Dao.Apps.{get_app}
use goscheduler.Dao.Entities.{get_all_entities_info, get_all_entities_info_of_node}
use goscheduler.Supervisor.Cluster.{
  Ring, S, give, panic, ◌>>=◌, ◌>>◌, rescued, member, running_at, on_dao,
}
use goscheduler.Supervisor.Entities.{start_method, stop_method, start_entity, stop_entity, send}
use goscheduler.Supervisor.Apps.{started_or_panic, stopped_or_panic}

-- The entity runs, as far as the database says, on another node that is reachable.
unfoldable pub runs_elsewhere : Text → EntityInfo → List Text → Bool
runs_elsewhere at entity members =
    entity.status == running && (not (text_eq entity.node at) && member entity.node members)

-- The part of `BootEntity` behind `Lookup`. A forwarded entity goes to the node in its own record.
unfoldable pub boot_at :
    Ring → Conf → ℕ → Text → EntityInfo → Bool → List Text → Text → S (Unit {0})
boot_at ring conf n at entity forward members node =
    if text_eq node at
    then ((if runs_elsewhere at entity members
          then send ring conf n stop_method entity.node (entity.id ∷ [])
          else give tt)
        >> (start_entity conf at entity.id >>= started_or_panic))
    else if forward
    then send ring conf n start_method entity.node (entity.id ∷ [])
    else give tt

unfoldable pub boot_active : Ring → Conf → ℕ → Text → EntityInfo → Bool → S (Unit {0})
boot_active ring conf n at entity forward = elim (ring.members at) [
  | none ↦ panic
  | some members ↦ elim (ring.owner at entity.id) [
    | none ↦ panic
    | some node ↦ boot_at ring conf n at entity forward members node
  ]
]

abbrev if_active : S (Unit {0}) → Result App → S (Unit {0})
if_active m (err e) = panic
if_active m (ok app) = if app.active then m else give tt

unfoldable pub boot_or_panic : Ring → Conf → ℕ → Text → EntityInfo → Bool → S (Unit {0})
boot_or_panic ring conf n at entity forward = elim (get_app_name entity.id) [
  | none ↦ panic
  | some name ↦ on_dao at (get_app name) >>= if_active (boot_active ring conf n at entity forward)
]

-- `BootEntity`, which recovers: true if there is no error.
unfoldable pub boot_entity : Ring → Conf → ℕ → Text → EntityInfo → Bool → S Bool
boot_entity ring conf n at entity forward c =
    rescued false ((boot_or_panic ring conf n at entity forward >> give true) c)

abbrev booted_or_panic : Bool → S (Unit {0})
booted_or_panic b = if b then give tt else panic

unfoldable pub boot_all : Ring → Conf → ℕ → Text → List EntityInfo → S (Unit {0})
boot_all ring conf n at [] = give tt
boot_all ring conf n at (entity ∷ entities) =
    (boot_entity ring conf n at entity false >>= booted_or_panic)
    >> boot_all ring conf n at entities

abbrev with_infos : (List EntityInfo → S (Unit {0})) → Result (List EntityInfo) → S (Unit {0})
with_infos f (ok entities) = f entities
with_infos f (err e) = panic

-- `Boot`.
unfoldable pub boot : Ring → Conf → ℕ → Text → S (Unit {0})
boot ring conf n at = on_dao at get_all_entities_info >>= with_infos (boot_all ring conf n at)

unfoldable pub stop_all : Conf → Text → List Text → S (Unit {0})
stop_all conf at [] = give tt
stop_all conf at (id ∷ ids) = (stop_entity conf at id >>= stopped_or_panic) >> stop_all conf at ids

-- `StopNode`, with the keys of the map in the order of the list.
unfoldable pub stop_node : Conf → Text → S (Unit {0})
stop_node conf at c = stop_all conf at (running_at at c) c

-- One entity of the loop of `OffloadOrPanic`.
abbrev take_over : Ring → Conf → Text → EntityInfo → S (Unit {0})
take_over ring conf at entity = elim (ring.owner at entity.id) [
  | none ↦ panic
  | some node ↦
      if text_eq node at then (start_entity conf at entity.id >>= started_or_panic) else give tt
]

unfoldable pub offload_entity : Ring → Conf → Text → EntityInfo → S (Unit {0})
offload_entity ring conf at entity = elim (get_app_name entity.id) [
  | none ↦ panic
  | some name ↦ on_dao at (get_app name) >>= if_active (take_over ring conf at entity)
]

unfoldable pub offload_all : Ring → Conf → Text → List EntityInfo → S (Unit {0})
offload_all ring conf at [] = give tt
offload_all ring conf at (entity ∷ entities) =
    offload_entity ring conf at entity >> offload_all ring conf at entities

-- `OffloadOrPanic` of the entities of a node.
unfoldable pub offload : Ring → Conf → Text → Text → S (Unit {0})
offload ring conf at node =
    on_dao at (get_all_entities_info_of_node node) >>= with_infos (offload_all ring conf at)

-- `HandleEvent` on a change of the ring, with the servers that were removed; the other events
-- change nothing.
unfoldable pub ring_changed : Ring → Conf → Text → List Text → S (Unit {0})
ring_changed ring conf at [] = give tt
ring_changed ring conf at (server ∷ servers) =
    if text_eq at server
    then panic
    else (offload ring conf at server >> ring_changed ring conf at servers)
