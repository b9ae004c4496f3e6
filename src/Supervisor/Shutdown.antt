-- ===== src/Supervisor/Shutdown.antt =====
-- What `StopNode` of cluster/supervisor.go bring about when the database works.
use goscheduler.Shared.{List, [], ◌∷◌, ◌≡◌, refl, arith, true, Bool-cases, inl, inr}
use goscheduler.Shared.Text.{Text, text_eq}
use goscheduler.Shared.Dict.{text_eq_sound}
use goscheduler.Dao.Session.{Conf}
use goscheduler.Supervisor.Cluster.{Cluster, Flow, returns, member, running_at}
use goscheduler.Supervisor.Boot.{stop_all, stop_node}
use goscheduler.Supervisor.Starting.{Calm}
use goscheduler.Supervisor.Stopping.{
  halted, Gone, stop_entity_lem, halted-Calm, halted-Gone, halted-Gone_other,
}

unfoldable pub halted_ids : Conf → Text → List Text → Cluster → Cluster
halted_ids conf node [] c = c
halted_ids conf node (id ∷ ids) c = halted_ids conf node ids (halted conf node id c)

stop_all_lem :
    (conf : Conf) (node : Text) (ids : List Text) (c : Cluster)
    → Calm c
    → stop_all conf node ids c ≡ (returns tt, halted_ids conf node ids c)
unfolding stop_all halted_ids
stop_all_lem conf node [] c h = refl
stop_all_lem conf node (id ∷ ids) c h =
    rw (stop_entity_lem conf node id c h)
      (stop_all_lem conf node ids _ (halted-Calm conf node id c h))

halted_ids-Gone_other :
    (conf : Conf) (node : Text) (ids : List Text) (id : Text) (c : Cluster)
    → Gone node id c
    → Gone node id (halted_ids conf node ids c)
unfolding halted_ids
halted_ids-Gone_other conf node [] id c h = h
halted_ids-Gone_other conf node (other ∷ ids) id c h =
    halted_ids-Gone_other conf node ids id _ (halted-Gone_other conf node other node id c h)

halted_ids-Gone :
    (conf : Conf) (node : Text) (ids : List Text) (id : Text) (c : Cluster)
    → member id ids ≡ true
    → Gone node id (halted_ids conf node ids c)
unfolding halted_ids member
halted_ids-Gone conf node [] id c m = absurd cc
halted_ids-Gone conf node (other ∷ ids) id c m = elim (Bool-cases (text_eq other id)) [
  | inl t ↦
      let same : other ≡ id = text_eq_sound other id t in
      halted_ids-Gone_other conf node ids id _ (rw same (halted-Gone conf node id c))
  | inr t ↦ halted_ids-Gone conf node ids id _ (ground (arith, t, m))
]

-- With a working database `StopNode` returns, and then no entity is in the node's map.
pub stop_node_lem :
    (conf : Conf) (node : Text) (c : Cluster)
    → Calm c
    → let after : Flow (Unit {0}) × Cluster = stop_node conf node c in
      (after.0 ≡ returns tt) × ((id : Text) → Gone node id after.1)
unfolding stop_node
stop_node_lem conf node c h = rw (stop_all_lem conf node (running_at node c) c h) (
  refl,
  λ id. elim (Bool-cases (member id (running_at node c))) [
    | inl t ↦ halted_ids-Gone conf node (running_at node c) id c t
    | inr t ↦ halted_ids-Gone_other conf node (running_at node c) id c t
  ],
)
