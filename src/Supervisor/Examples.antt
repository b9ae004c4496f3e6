-- ===== src/Supervisor/Examples.antt =====
-- The theorems on cluster/supervisor.go in a cluster of two nodes.
use goscheduler.Shared.{Below, All, [], ◌∷◌, ◌≡◌, refl, arith, none, some, true, if◌then◌else◌}
use goscheduler.Shared.Text.{Text, codes, text_eq, Lacks}
use goscheduler.Shared.Dict.{lookup}
use goscheduler.Entity.{entity_id}
use goscheduler.Store.App.{App, empty_configuration}
use goscheduler.Dao.Session.{Conf}
use goscheduler.Supervisor.Cluster.{Cluster, Ring, Flow, returns}
use goscheduler.Supervisor.Apps.{activate_app, deactivate_app}
use goscheduler.Supervisor.Broadcast.{cache_at}
use goscheduler.Supervisor.Boot.{stop_node}
use goscheduler.Supervisor.Starting.{Calm, Agree, Runs}
use goscheduler.Supervisor.Activation.{activate_app_lem}
use goscheduler.Supervisor.Stopping.{Gone}
use goscheduler.Supervisor.Deactivation.{deactivate_app_lem}
use goscheduler.Supervisor.Shutdown.{stop_node_lem}

-- The first partition of the shop is on one node, all else on the other.
owner : Text → Text
owner id = if text_eq id (codes "shop.0") then codes "a:1" else codes "b:1"

abbrev ring : Ring
ring = record {
  owner = λ at id. some (owner id);
  members = λ at. some (codes "a:1" ∷ codes "b:1" ∷ []);
  surfaces = true;
}

abbrev conf : Conf
conf = record {
  address = codes "a:1";
  prefix = codes "dc";
  history_size = 100;
  cron_app = codes "Athena";
  default_count = 2;
  app_level = empty_configuration;
}

abbrev shop : App
shop = record {
  app_id = codes "shop";
  partitions = 2;
  active = true;
  configuration = empty_configuration;
}

abbrev pair_of_nodes : Cluster
pair_of_nodes = record {
  running = (codes "b:1", codes "shop.0" ∷ codes "shop.1" ∷ []) ∷ [];
  caches = (codes "b:1", (codes "shop", shop) ∷ []) ∷ [];
  db = record { apps = []; entities = []; replies = [] };
  wires = [];
}

pair_of_nodes-Calm : Calm pair_of_nodes
pair_of_nodes-Calm = record { replies = refl; wires = refl }

ring-Agree : Agree ring owner
ring-Agree at id = refl

shop-Lacks : Lacks b'.' (codes "shop")
shop-Lacks = ground arith

activate_app_lem_example :
    let after : Flow (Unit {0}) × Cluster =
      activate_app ring conf 1 (codes "a:1") shop pair_of_nodes in
    (after.0 ≡ returns tt)
    × Below (λ i. Runs (owner (entity_id (codes "shop") i)) (entity_id (codes "shop") i) after.1) 2
    × All
        (λ node. lookup (codes "shop") (cache_at node after.1) ≡ none)
        (codes "a:1" ∷ codes "b:1" ∷ [])
activate_app_lem_example =
    activate_app_lem ring owner conf 0 (codes "a:1") shop pair_of_nodes ring-Agree shop-Lacks
      (omega arith) pair_of_nodes-Calm

deactivate_app_lem_example :
    let after : Flow (Unit {0}) × Cluster =
      deactivate_app ring conf 1 (codes "a:1") shop pair_of_nodes in
    (after.0 ≡ returns tt)
    × Below (λ i. Gone (owner (entity_id (codes "shop") i)) (entity_id (codes "shop") i) after.1) 2
    × All
        (λ node. lookup (codes "shop") (cache_at node after.1) ≡ none)
        (codes "a:1" ∷ codes "b:1" ∷ [])
deactivate_app_lem_example =
    deactivate_app_lem ring owner conf 0 (codes "a:1") shop pair_of_nodes ring-Agree
      pair_of_nodes-Calm

stop_node_lem_example :
    let after : Flow (Unit {0}) × Cluster = stop_node conf (codes "b:1") pair_of_nodes in
    (after.0 ≡ returns tt) × ((id : Text) → Gone (codes "b:1") id after.1)
stop_node_lem_example = stop_node_lem conf (codes "b:1") pair_of_nodes pair_of_nodes-Calm
