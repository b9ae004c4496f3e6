-- ===== src/Supervisor/Stopping.antt =====
-- Stopping entities in cluster/supervisor.go when the nodes agree on the ring and the network and
-- the database work: one entity, and then the partitions of an app.
use goscheduler.Shared.{
  ℕ, zero, suc, ◌+◌, ◌<◌, List, [], ◌∷◌, ◌≡◌, refl, arith, false, if◌then◌else◌, Bool-cases, inl,
  inr, ◌==◌, ==_iff, ◌≤◌,
}
use goscheduler.Shared.Text.{Text, text_eq}
use goscheduler.Shared.Dict.{
  lookup, insert, lookup-insert, lookup-insert_self, text_eq_self, text_eq_sound,
}
use goscheduler.Entity.{entity_id, stopped}
use goscheduler.Dao.Session.{Conf, ok, set_entities}
use goscheduler.Dao.Entities.{update_entity_status, get_entity_info, info_or_none}
use goscheduler.Dao.Statuses.{new_row}
use goscheduler.Supervisor.Cluster.{
  Cluster, Ring, delivered, returns, member, leave, running_at, value_or,
}
use goscheduler.Supervisor.Entities.{
  remove_entity, stop_entity, stop_loop, run_method, forward_or_panic, next_wire, serve, send,
}
use goscheduler.Supervisor.Apps.{disable, each_partition}
use goscheduler.Supervisor.Starting.{Calm, Agree}

-- What a stop does to the cluster.
unfoldable pub halted : Conf → Text → Text → Cluster → Cluster
halted conf node id c =
    if member id (running_at node c)
    then (record {
      running = insert node (leave id (running_at node c)) c.running;
      caches = insert node (value_or [] (lookup node c.caches)) c.caches;
      db =
          set_entities
            (insert id (new_row conf node stopped (info_or_none id (ok (lookup id c.db.entities)))))
            c.db;
      wires = c.wires;
    })
    else c

-- The entity is not in the node's map.
abbrev pub Gone : Text → Text → Cluster → Type 0
Gone node id c = member id (running_at node c) ≡ false

pub stop_entity_lem :
    (conf : Conf) (node id : Text) (c : Cluster)
    → Calm c
    → stop_entity conf node id c
      ≡ (returns (member id (running_at node c), ok tt), halted conf node id c)
unfolding stop_entity halted remove_entity update_entity_status get_entity_info
stop_entity_lem conf node id c h = elim (Bool-cases (member id (running_at node c))) [
  | inl t ↦ rw (t, h.replies) refl
  | inr t ↦ rw (t) refl
]

pub halted-Calm :
    (conf : Conf) (node id : Text) (c : Cluster) → Calm c → Calm (halted conf node id c)
unfolding halted
halted-Calm conf node id c h = elim (Bool-cases (member id (running_at node c))) [
  | inl t ↦ rw t (record { replies = h.replies; wires = h.wires })
  | inr t ↦ rw t h
]

member-leave : (id : Text) (ids : List Text) → member id (leave id ids) ≡ false
unfolding member leave
member-leave id [] = refl
member-leave id (t ∷ ts) = elim (Bool-cases (text_eq t id)) [
  | inl e ↦ rw e (member-leave id ts)
  | inr e ↦ rw (e, member, e) (member-leave id ts)
]

member-leave_other :
    (id other : Text) (ids : List Text)
    → member other ids ≡ false
    → member other (leave id ids) ≡ false
unfolding member leave
member-leave_other id other [] h = refl
member-leave_other id other (t ∷ ts) h = elim (Bool-cases (text_eq t other)) [
  | inl e ↦ absurd (ground (arith, e, h))
  | inr e ↦
      let rest : member other ts ≡ false = ground (arith, e, h) in
      elim (Bool-cases (text_eq t id)) [
        | inl f ↦ rw f (member-leave_other id other ts rest)
        | inr f ↦ rw (f, member, e) (member-leave_other id other ts rest)
      ]
]

pub halted-Gone :
    (conf : Conf) (node id : Text) (c : Cluster) → Gone node id (halted conf node id c)
unfolding halted
halted-Gone conf node id c = elim (Bool-cases (member id (running_at node c))) [
  | inl t ↦ rw (t, lookup-insert_self) (member-leave id (running_at node c))
  | inr t ↦ rw t t
]

-- An entity that is gone stays gone when another is stopped.
pub halted-Gone_other :
    (conf : Conf) (node id place other : Text) (c : Cluster)
    → Gone place other c
    → Gone place other (halted conf node id c)
unfolding halted
halted-Gone_other conf node id place other c h = elim (Bool-cases (member id (running_at node c))) [
  | inr t ↦ rw t h
  | inl t ↦ elim (Bool-cases (text_eq node place)) [
    | inr u ↦ rw (t, lookup-insert, u) h
    | inl u ↦
        let same : node ≡ place = text_eq_sound node place u in
        rw (t, lookup-insert, u, same) (member-leave_other id other (running_at place c) h)
  ]
]

next_wire_lem : (c : Cluster) → c.wires ≡ [] → next_wire c ≡ (delivered, c)
unfolding next_wire
next_wire_lem c h = rw h refl

disable_lem :
    (ring : Ring) (owner : Text → Text) (conf : Conf) (n : ℕ) (at id : Text) (c : Cluster)
    → Agree ring owner
    → Calm c
    → disable ring conf (suc n) at id c ≡ (returns tt, halted conf (owner id) id c)
unfolding disable send forward_or_panic serve run_method stop_loop
disable_lem ring owner conf n at id c g h = elim (Bool-cases (text_eq (owner id) at)) [
  | inl t ↦
      let same : owner id ≡ at = text_eq_sound (owner id) at t in
      rw (disable, g at id, t, stop_entity_lem conf at id c h, same) refl
  | inr t ↦ elim (Bool-cases (member id (running_at (owner id) c))) [
    | inl u ↦
        rw
          (
            disable,
            g at id,
            t,
            send,
            forward_or_panic,
            next_wire_lem c h.wires,
            serve,
            run_method,
            stop_loop,
            stop_entity_lem conf (owner id) id c h,
            g (owner id) id,
            u,
          )
          refl
    | inr u ↦
        rw
          (
            disable,
            g at id,
            t,
            send,
            forward_or_panic,
            next_wire_lem c h.wires,
            serve,
            run_method,
            stop_loop,
            stop_entity_lem conf (owner id) id c h,
            g (owner id) id,
            u,
            text_eq_self (owner id),
          )
          refl
  ]
]

-- The cluster after the rounds for the partitions.
unfoldable pub halted_all : Conf → (Text → Text) → Text → ℕ → ℕ → Cluster → Cluster
halted_all conf owner app from zero c = c
halted_all conf owner app from (suc count) c =
    halted_all conf owner app (suc from) count
      (halted conf (owner (entity_id app from)) (entity_id app from) c)

pub each_partition-halted :
    (ring : Ring) (owner : Text → Text) (conf : Conf) (n : ℕ) (at app : Text) (from count : ℕ)
    (c : Cluster)
    → Agree ring owner
    → Calm c
    → each_partition (disable ring conf (suc n) at) app from count c
      ≡ (returns tt, halted_all conf owner app from count c)
unfolding each_partition halted_all
each_partition-halted ring owner conf n at app from zero c g h = refl
each_partition-halted ring owner conf n at app from (suc count) c g h =
    rw (disable_lem ring owner conf n at (entity_id app from) c g h) (
      each_partition-halted ring owner conf n at app (suc from) count _ g
        (halted-Calm conf (owner (entity_id app from)) (entity_id app from) c h))

pub halted_all-Calm :
    (conf : Conf) (owner : Text → Text) (app : Text) (from count : ℕ) (c : Cluster)
    → Calm c
    → Calm (halted_all conf owner app from count c)
unfolding halted_all
halted_all-Calm conf owner app from zero c h = h
halted_all-Calm conf owner app from (suc count) c h =
    halted_all-Calm conf owner app (suc from) count _
      (halted-Calm conf (owner (entity_id app from)) (entity_id app from) c h)

halted_all-Gone_other :
    (conf : Conf) (owner : Text → Text) (app : Text) (from count : ℕ) (place id : Text)
    (c : Cluster)
    → Gone place id c
    → Gone place id (halted_all conf owner app from count c)
unfolding halted_all
halted_all-Gone_other conf owner app from zero place id c h = h
halted_all-Gone_other conf owner app from (suc count) place id c h =
    halted_all-Gone_other conf owner app (suc from) count place id _
      (halted-Gone_other conf (owner (entity_id app from)) (entity_id app from) place id c h)

pub halted_all-Gone :
    (conf : Conf) (owner : Text → Text) (app : Text) (from count i : ℕ) (c : Cluster)
    → from ≤ i
    → i < from + count
    → Gone (owner (entity_id app i)) (entity_id app i) (halted_all conf owner app from count c)
unfolding halted_all
halted_all-Gone conf owner app from zero i c k l = absurd (omega arith)
halted_all-Gone conf owner app from (suc count) i c k l = elim (Bool-cases (from == i)) [
  | inl t ↦
      let same : from ≡ i = (==_iff from i).0 t in
      rw⁻¹ same (
        halted_all-Gone_other conf owner app (suc from) count (owner (entity_id app from))
          (entity_id app from) _
          (halted-Gone conf (owner (entity_id app from)) (entity_id app from) c))
  | inr t ↦
      let other : suc from ≤ i = ground arith in
      halted_all-Gone conf owner app (suc from) count i _ other (omega arith)
]
