-- ===== src/Supervisor/Starting.antt =====
-- Starting entities in cluster/supervisor.go when the nodes agree on the ring and the network and
-- the database work: one entity, and then the partitions of an app.
use mathlib.Core.Path.{subst}
use goscheduler.Shared.{
  ℕ, zero, suc, ◌+◌, ◌<◌, ◌≤◌, ◌^◌, ◌==◌, ==_iff, List, [], ◌∷◌, ◌≡◌, refl, arith, Option, none,
  some, true, false, if◌then◌else◌, Bool-cases, inl, inr,
}
use goscheduler.Shared.Int.{ℤ, pos}
use goscheduler.Shared.Text.{Text, text_eq, parse_int}
use goscheduler.Shared.Dict.{
  lookup, insert, lookup-insert, lookup-insert_self, text_eq_ne, text_eq_self, text_eq_sound,
}
use goscheduler.Entity.{entity_id, create_entity, partition_text, running}
use goscheduler.Entity.Naming.{get_app_name-entity_id}
use goscheduler.Dao.Session.{EntityRow, Conf, ok, set_entities}
use goscheduler.Dao.Entities.{update_entity_status, get_entity_info, info_or_none}
use goscheduler.Dao.Statuses.{new_row}
use goscheduler.Supervisor.Cluster.{Cluster, Ring, returns, member, running_at, value_or}
use goscheduler.Supervisor.Entities.{
  add_entity, start_entity, start_loop, run_method, forward_or_panic, next_wire, serve, send,
}
use goscheduler.Supervisor.Apps.{enable, each_partition}

-- No query and no request fails.
pub record Calm (c : Cluster) : Type 0 where
  pub replies : c.db.replies ≡ []
  pub wires : c.wires ≡ []

abbrev pub status_of : Option EntityRow → ℕ
status_of none = 0
status_of (some row) = row.status

abbrev pub node_of : Option EntityRow → Text
node_of none = []
node_of (some row) = row.node

-- The entity is in the node's map, and its row says that it runs there.
pub record Runs (node id : Text) (c : Cluster) : Type 0 where
  pub here : member id (running_at node c) ≡ true
  pub status : status_of (lookup id c.db.entities) ≡ running
  pub place : node_of (lookup id c.db.entities) ≡ node

unfoldable pub add_running : Text → Text → List (Text × List Text) → List (Text × List Text)
add_running node id m =
    if member id (value_or [] (lookup node m))
    then m
    else insert node (id ∷ value_or [] (lookup node m)) m

-- What a start does to the cluster.
abbrev pub started : Conf → Text → Text → Cluster → Cluster
started conf node id c = record {
  running = add_running node id c.running;
  caches = insert node (value_or [] (lookup node c.caches)) c.caches;
  db =
      set_entities
        (insert id (new_row conf node running (info_or_none id (ok (lookup id c.db.entities)))))
        c.db;
  wires = c.wires;
}

abbrev added : Text → Text → Cluster → Cluster
added node id c = record {
  running = add_running node id c.running;
  caches = c.caches;
  db = c.db;
  wires = c.wires;
}

-- The id names a partition to the factory.
abbrev pub IsPoller : Text → Type 0
IsPoller id = (app : Text) × (partition : ℤ) × (create_entity id ≡ some (app, partition))

add_entity_lem :
    (node id : Text) (c : Cluster)
    → IsPoller id
    → add_entity node id c ≡ (returns tt, added node id c)
unfolding add_entity add_running
add_entity_lem node id c (app, partition, e) = elim (Bool-cases (member id (running_at node c))) [
  | inl t ↦ rw t refl
  | inr t ↦ rw (t, e) refl
]

start_entity_lem :
    (conf : Conf) (node id : Text) (c : Cluster)
    → IsPoller id
    → Calm c
    → start_entity conf node id c ≡ (returns (ok tt), started conf node id c)
unfolding start_entity update_entity_status get_entity_info
start_entity_lem conf node id c e h = rw (add_entity_lem node id c e, h.replies) refl

started-Calm : (conf : Conf) (node id : Text) (c : Cluster) → Calm c → Calm (started conf node id c)
started-Calm conf node id c h = record { replies = h.replies; wires = h.wires }

member-add_running :
    (node id : Text) (m : List (Text × List Text))
    → member id (value_or [] (lookup node (add_running node id m))) ≡ true
unfolding add_running member
member-add_running node id m = elim (Bool-cases (member id (value_or [] (lookup node m)))) [
  | inl t ↦ rw (t) t
  | inr t ↦ rw (t, lookup-insert_self, member, text_eq_self) refl
]

member-add_running_other :
    (node id place other : Text) (m : List (Text × List Text))
    → member other (value_or [] (lookup place m)) ≡ true
    → member other (value_or [] (lookup place (add_running node id m))) ≡ true
unfolding add_running member
member-add_running_other node id place other m h =
    elim (Bool-cases (member id (value_or [] (lookup node m)))) [
      | inl t ↦ rw t h
      | inr t ↦ elim (Bool-cases (text_eq node place)) [
        | inl u ↦
            let same : node ≡ place = text_eq_sound node place u in
            rw (t, lookup-insert, u, member, same, h) (ground arith)
        | inr u ↦ rw (t, lookup-insert, u) h
      ]
    ]

started-Runs : (conf : Conf) (node id : Text) (c : Cluster) → Runs node id (started conf node id c)
started-Runs conf node id c = record {
  here = member-add_running node id c.running;
  status = rw lookup-insert_self refl;
  place = rw lookup-insert_self refl;
}

-- Starting an entity leaves another one where it runs.
started-Runs_other :
    (conf : Conf) (node id place other : Text) (c : Cluster)
    → text_eq id other ≡ false
    → Runs place other c
    → Runs place other (started conf node id c)
started-Runs_other conf node id place other c t r = record {
  here = member-add_running_other node id place other c.running r.here;
  status = rw (lookup-insert, t) r.status;
  place = rw (lookup-insert, t) r.place;
}

-- All nodes look up the owner of an id alike.
abbrev pub Agree : Ring → (Text → Text) → Type 0
Agree ring owner = (at id : Text) → ring.owner at id ≡ some (owner id)

-- A round of `ActivateApp` starts the entity on its owner, be it here or by one request.
enable_lem :
    (ring : Ring) (owner : Text → Text) (conf : Conf) (n : ℕ) (at id : Text) (c : Cluster)
    → Agree ring owner
    → IsPoller id
    → Calm c
    → enable ring conf (suc n) at id c ≡ (returns tt, started conf (owner id) id c)
unfolding enable send forward_or_panic next_wire serve run_method start_loop
enable_lem ring owner conf n at id c g e h = elim (Bool-cases (text_eq (owner id) at)) [
  | inl t ↦
      let same : owner id ≡ at = text_eq_sound (owner id) at t in
      rw (enable, g at id, t, start_entity_lem conf at id c e h, same) refl
  | inr t ↦
      rw
        (
          enable,
          g at id,
          t,
          send,
          forward_or_panic,
          next_wire,
          h.wires,
          serve,
          run_method,
          start_loop,
          g (owner id) id,
          text_eq_self (owner id),
          start_entity_lem conf (owner id) id c e h,
        )
        (rw h.wires refl)
]

-- The cluster after the rounds for the partitions.
unfoldable pub started_all : Conf → (Text → Text) → Text → ℕ → ℕ → Cluster → Cluster
started_all conf owner app from zero c = c
started_all conf owner app from (suc count) c =
    started_all conf owner app (suc from) count
      (started conf (owner (entity_id app from)) (entity_id app from) c)

pub each_partition_lem :
    (ring : Ring) (owner : Text → Text) (conf : Conf) (n : ℕ) (at app : Text) (from count : ℕ)
    (c : Cluster)
    → Agree ring owner
    → ((i : ℕ) → i < from + count → IsPoller (entity_id app i))
    → Calm c
    → each_partition (enable ring conf (suc n) at) app from count c
      ≡ (returns tt, started_all conf owner app from count c)
unfolding each_partition started_all
each_partition_lem ring owner conf n at app from zero c g e h = refl
each_partition_lem ring owner conf n at app from (suc count) c g e h =
    rw (enable_lem ring owner conf n at (entity_id app from) c g (e from (omega arith)) h) (
      each_partition_lem ring owner conf n at app (suc from) count _ g (λ i k. e i (omega arith))
        (started-Calm conf (owner (entity_id app from)) (entity_id app from) c h))

pub started_all-Calm :
    (conf : Conf) (owner : Text → Text) (app : Text) (from count : ℕ) (c : Cluster)
    → Calm c
    → Calm (started_all conf owner app from count c)
unfolding started_all
started_all-Calm conf owner app from zero c h = h
started_all-Calm conf owner app from (suc count) c h =
    started_all-Calm conf owner app (suc from) count _
      (started-Calm conf (owner (entity_id app from)) (entity_id app from) c h)

entity_id-ne :
    (app : Text) (i j : ℕ)
    → i < 2 ^ 63
    → j < 2 ^ 63
    → i < j
    → text_eq (entity_id app j) (entity_id app i) ≡ false
entity_id-ne app i j hi hj h = text_eq_ne (entity_id app j) (entity_id app i) (λ e.
    let read_i : parse_int (partition_text (entity_id app i)) ≡ some (pos i) =
      (get_app_name-entity_id app i hi).1 in
    let read_j : parse_int (partition_text (entity_id app j)) ≡ some (pos j) =
      (get_app_name-entity_id app j hj).1 in
    let same : i ≡ j = cc in omega arith)

-- An entity that runs stays so while partitions with other numbers are started.
started_all-Runs_other :
    (conf : Conf) (owner : Text → Text) (app : Text) (from count i : ℕ) (place : Text) (c : Cluster)
    → from + count ≤ 2 ^ 63
    → i < from
    → Runs place (entity_id app i) c
    → Runs place (entity_id app i) (started_all conf owner app from count c)
unfolding started_all
started_all-Runs_other conf owner app from zero i place c b k r = r
started_all-Runs_other conf owner app from (suc count) i place c b k r =
    started_all-Runs_other conf owner app (suc from) count i place _ (omega arith) (omega arith) (
      started-Runs_other conf (owner (entity_id app from)) (entity_id app from) place
        (entity_id app i) c (entity_id-ne app i from (omega arith) (omega arith) k) r)

pub started_all-Runs :
    (conf : Conf) (owner : Text → Text) (app : Text) (from count i : ℕ) (c : Cluster)
    → from + count ≤ 2 ^ 63
    → from ≤ i
    → i < from + count
    → Runs (owner (entity_id app i)) (entity_id app i) (started_all conf owner app from count c)
unfolding started_all
started_all-Runs conf owner app from zero i c b k l = absurd (omega arith)
started_all-Runs conf owner app from (suc count) i c b k l = elim (Bool-cases (from == i)) [
  | inl t ↦
      let same : from ≡ i = (==_iff from i).0 t in
      subst
        (λ j.
          Runs (owner (entity_id app j)) (entity_id app j)
            (started_all conf owner app from (suc count) c))
        same
        (started_all-Runs_other conf owner app (suc from) count from _ _ (omega arith) (omega arith)
          (started-Runs conf (owner (entity_id app from)) (entity_id app from) c))
  | inr t ↦
      let other : suc from ≤ i = ground (arith) in
      started_all-Runs conf owner app (suc from) count i _ (omega arith) other (omega arith)
]
