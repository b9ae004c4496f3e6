-- ===== src/Supervisor/Deactivation.antt =====
-- What `DeactivateApp` of cluster/supervisor.go bring about in a cluster whose nodes
-- agree on the ring and whose network and database work.
use goscheduler.Shared.{Below, Below-all, All, ℕ, suc, List, [], ◌≡◌, refl, arith, none}
use goscheduler.Shared.Text.{Text}
use goscheduler.Shared.Dict.{lookup}
use goscheduler.Entity.{entity_id}
use goscheduler.Store.App.{App}
use goscheduler.Dao.Session.{Conf}
use goscheduler.Supervisor.Cluster.{Cluster, Ring, Flow, returns, value_or, member-All}
use goscheduler.Supervisor.Apps.{deactivate_app}
use goscheduler.Supervisor.Broadcast.{cache_at, told_all-rest, told_all-forgets}
use goscheduler.Supervisor.Starting.{Calm, Agree}
use goscheduler.Supervisor.Broadcast.{told_all, broadcast_lem}
use goscheduler.Supervisor.Stopping.{
  Gone, halted_all, each_partition-halted, halted_all-Calm, halted_all-Gone,
}

-- In a cluster whose nodes agree on the owners, with queries and requests that are served,
-- `DeactivateApp` on any node returns, no partition's entity is then in the map of its owner, and
-- no node that was told has the app in its cache.
pub deactivate_app_lem :
    (ring : Ring) (owner : Text → Text) (conf : Conf) (n : ℕ) (at : Text) (app : App) (c : Cluster)
    → Agree ring owner
    → Calm c
    → let after : Flow (Unit {0}) × Cluster = deactivate_app ring conf (suc n) at app c in
      (after.0 ≡ returns tt)
      × Below
          (λ i. Gone (owner (entity_id app.app_id i)) (entity_id app.app_id i) after.1)
          app.partitions
      × All
          (λ node. lookup app.app_id (cache_at node after.1) ≡ none)
          (value_or [] (ring.members at))
unfolding deactivate_app
deactivate_app_lem ring owner conf n at app c g h =
    let c1 : Cluster = halted_all conf owner app.app_id 0 app.partitions c in
    let calm : Calm c1 = halted_all-Calm conf owner app.app_id 0 app.partitions c h in
    let nodes : List Text = value_or [] (ring.members at) in
    rw
      (
        each_partition-halted ring owner conf n at app.app_id 0 app.partitions c g h,
        broadcast_lem ring conf n at app.app_id c1 calm.wires,
      )
      (
        refl,
        Below-all
            (λ i.
              Gone (owner (entity_id app.app_id i)) (entity_id app.app_id i)
                (told_all app.app_id nodes c1))
            app.partitions
            (λ i k. rw ((told_all-rest app.app_id nodes c1).0) (
              halted_all-Gone conf owner app.app_id 0 app.partitions i c (omega arith)
                (omega arith))),
        member-All (λ node. lookup app.app_id (cache_at node (told_all app.app_id nodes c1)) ≡ none)
            nodes (λ node m. told_all-forgets app.app_id nodes node c1 m),
      )
