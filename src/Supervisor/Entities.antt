-- ===== src/Supervisor/Entities.antt =====
-- cluster/supervisor.go: starting and stopping entities, here or by a request to their node.
use goscheduler.Shared.{
  ℕ, zero, suc, List, [], ◌∷◌, Option, none, some, Bool, true, false, if◌then◌else◌,
}
use goscheduler.Shared.Text.{Text, text_eq}
use goscheduler.Entity.{running, stopped, create_entity}
use goscheduler.Dao.Session.{Conf, Result, ok, err}
use goscheduler.Dao.Entities.{update_entity_status}
use goscheduler.Dao.Apps.{invalidate_single_app_cache}
use goscheduler.Supervisor.Cluster.{
  Wire, delivered, dropped, Cluster, Ring, Flow, returns, panics, too_deep, S, give, panic, ◌>>=◌,
  ◌>>◌, rescued, member, leave, running_at, set_running, on_dao,
}

-- The methods that `RegisterHandler` registers.
pub data Method : Type 0 where
  start_method stop_method update_method : Method

-- What a handler answers: a response with its status, or an error.
pub data Answer : Type 0 where
  success failure error : Answer

unfoldable pub add_entity : Text → Text → S (Unit {0})
add_entity at id c =
    if member id (running_at at c) then (returns tt, c) else elim (create_entity id) [
      | none ↦ (panics, c)
      | some poller ↦ (returns tt, set_running at (id ∷ running_at at c) c)
    ]

-- `StartEntity`. A panic of the factory leaves the map as it was.
unfoldable pub start_entity : Conf → Text → Text → S (Result (Unit {0}))
start_entity conf at id = add_entity at id >> on_dao at (update_entity_status conf id at running)

unfoldable pub remove_entity : Text → Text → S (Unit {0})
remove_entity at id c = (returns tt, set_running at (leave id (running_at at c)) c)

-- `StopEntity`: if the entity was here, and what became of the write.
abbrev pub with_existence : Result (Unit {0}) → S (Bool × Result (Unit {0}))
with_existence r c = (returns (true, r), c)

unfoldable pub stop_entity : Conf → Text → Text → S (Bool × Result (Unit {0}))
stop_entity conf at id c =
    if member id (running_at at c)
    then ((remove_entity at id >> on_dao at (update_entity_status conf id at stopped))
          >>= with_existence)
        c
    else (returns (false, ok tt), c)

abbrev Send : Type 0
Send = Method → Text → List Text → S (Unit {0})

-- One round of the loop of `StartEntities`; an error ends the loop.
abbrev start_round : Send → Conf → Text → Text → Option Text → S (Result (Unit {0}))
start_round send conf at id none = panic
start_round send conf at id (some node) =
    if text_eq node at
    then start_entity conf at id
    else (send start_method node (id ∷ []) >> give (ok tt))

abbrev answer_or : S Answer → Result (Unit {0}) → S Answer
answer_or m (ok u) = m
answer_or m (err e) = give error

unfoldable pub start_loop : Send → Ring → Conf → Text → List Text → S Answer
start_loop send ring conf at [] = give success
start_loop send ring conf at (id ∷ ids) =
    start_round send conf at id (ring.owner at id) >>= answer_or (start_loop send ring conf at ids)

abbrev or_panic : Result (Unit {0}) → S (Unit {0})
or_panic (ok u) = give tt
or_panic (err e) = panic

-- One round of the loop of `StopEntities`, after `StopEntity`.
abbrev stop_round : Send → Text → Text → Option Text → Bool × Result (Unit {0}) → S (Unit {0})
stop_round send at id _ (existed, err e) = panic
stop_round send at id none (existed, ok u) = panic
stop_round send at id (some owner) (existed, ok u) =
    if existed
    then give tt
    else if text_eq at owner
    then give tt
    else send stop_method owner (id ∷ [])

unfoldable pub stop_loop : Send → Ring → Conf → Text → List Text → S Answer
stop_loop send ring conf at [] = give success
stop_loop send ring conf at (id ∷ ids) =
    (stop_entity conf at id >>= stop_round send at id (ring.owner at id))
    >> stop_loop send ring conf at ids

-- The loop of `AppDetailsUpdateEventHandler`.
unfoldable pub update_loop : Text → List Text → S Answer
update_loop at [] = give success
update_loop at (name ∷ names) = on_dao at (invalidate_single_app_cache name) >> update_loop at names

unfoldable pub run_method : Send → Ring → Conf → Method → Text → List Text → S Answer
run_method send ring conf start_method at ids = start_loop send ring conf at ids
run_method send ring conf stop_method at ids = stop_loop send ring conf at ids
run_method send ring conf update_method at ids = update_loop at ids

-- A response is taken whatever its status.
abbrev heed : Ring → Answer → S (Unit {0})
heed ring error = if ring.surfaces then panic else give tt
heed ring _ = give tt

unfoldable pub next_wire : Cluster → Wire × Cluster
next_wire c = elim c.wires [
  | [] ↦ (delivered, c)
  | wire ∷ rest ↦ (wire, record { running = c.running; caches = c.caches; db = c.db; wires = rest })
]

abbrev over : Wire × Cluster → S (Unit {0}) → Flow (Unit {0}) × Cluster
over (delivered, c) m = m c
over (dropped, c) m = (panics, c)

-- `forwardOrPanicIfRequired` with what serves the request at the other node.
unfoldable pub forward_or_panic : Ring → (Method → Text → List Text → S Answer) → Send
forward_or_panic ring serve method node ids c =
    over (next_wire c) (serve method node ids >>= heed ring)

-- The handlers with their `recover`; the number bounds the requests on the way.
unfoldable pub serve : Ring → Conf → ℕ → Method → Text → List Text → S Answer
serve ring conf zero method at ids c = (too_deep, c)
serve ring conf (suc n) method at ids c =
    rescued failure
      (run_method (forward_or_panic ring (serve ring conf n)) ring conf method at ids c)

unfoldable pub send : Ring → Conf → ℕ → Send
send ring conf n = forward_or_panic ring (serve ring conf n)
