-- ===== src/Supervisor/Activation.antt =====
-- What `ActivateApp` of cluster/supervisor.go brings about in a cluster whose nodes agree on the
-- ring and whose network and database work.
use goscheduler.Shared.{Below, Below-all, All, ℕ, suc, ◌≤◌, ◌^◌, List, [], ◌≡◌, refl, arith, none}
use goscheduler.Shared.Int.{pos}
use goscheduler.Shared.Text.{Text, Lacks}
use goscheduler.Shared.Dict.{lookup}
use goscheduler.Entity.{entity_id}
use goscheduler.Entity.Naming.{create_entity-entity_id}
use goscheduler.Store.App.{App}
use goscheduler.Dao.Session.{Conf}
use goscheduler.Supervisor.Cluster.{Cluster, Ring, Flow, returns, value_or}
use goscheduler.Supervisor.Apps.{activate_app}
use goscheduler.Supervisor.Broadcast.{told_all, told_all-rest, told_all-forgets, cache_at}
use goscheduler.Supervisor.Cluster.{member-All}
use goscheduler.Supervisor.Starting.{
  Calm, Runs, Agree, started_all, each_partition_lem, started_all-Calm, started_all-Runs,
}
use goscheduler.Supervisor.Broadcast.{broadcast_lem}

told_all-Runs :
    (name : Text) (nodes : List Text) (place id : Text) (c : Cluster)
    → Runs place id c
    → Runs place id (told_all name nodes c)
told_all-Runs name nodes place id c r =
    let (same_running, same_db) = told_all-rest name nodes c in
    record {
      here = rw same_running r.here;
      status = rw same_db r.status;
      place = rw same_db r.place;
    }

-- In a cluster whose nodes agree on the owners, with queries and requests that are served, for an
-- app with no dot in its name and at most 2 ^ 63 partitions, `ActivateApp` on any node returns, each
-- partition's entity then runs on its owner and its row says so, and no node that was told has the
-- app in its cache.
pub activate_app_lem :
    (ring : Ring) (owner : Text → Text) (conf : Conf) (n : ℕ) (at : Text) (app : App) (c : Cluster)
    → Agree ring owner
    → Lacks b'.' app.app_id
    → app.partitions ≤ 2 ^ 63
    → Calm c
    → let after : Flow (Unit {0}) × Cluster = activate_app ring conf (suc n) at app c in
      (after.0 ≡ returns tt)
      × Below
          (λ i. Runs (owner (entity_id app.app_id i)) (entity_id app.app_id i) after.1)
          app.partitions
      × All
          (λ node. lookup app.app_id (cache_at node after.1) ≡ none)
          (value_or [] (ring.members at))
unfolding activate_app
activate_app_lem ring owner conf n at app c g e b h =
    let c1 : Cluster = started_all conf owner app.app_id 0 app.partitions c in
    let nodes : List Text = value_or [] (ring.members at) in
    let calm : Calm c1 = started_all-Calm conf owner app.app_id 0 app.partitions c h in
    rw
      (
        each_partition_lem ring owner conf n at app.app_id 0 app.partitions c g
            (λ i k. (app.app_id, pos i, create_entity-entity_id app.app_id i e (omega arith))) h,
        broadcast_lem ring conf n at app.app_id c1 calm.wires,
      )
      (
        refl,
        Below-all
            (λ i.
              Runs (owner (entity_id app.app_id i)) (entity_id app.app_id i)
                (told_all app.app_id nodes c1))
            app.partitions
            (λ i k.
              told_all-Runs app.app_id nodes (owner (entity_id app.app_id i))
                (entity_id app.app_id i) c1
                (started_all-Runs conf owner app.app_id 0 app.partitions i c (omega arith)
                  (omega arith) (omega arith))),
        member-All (λ node. lookup app.app_id (cache_at node (told_all app.app_id nodes c1)) ≡ none)
            nodes (λ node m. told_all-forgets app.app_id nodes node c1 m),
      )
