-- ===== src/Dao/Examples.antt =====
-- The theorems on dao/cluster_dao_impl.go on a small database.
use goscheduler.Shared.{
  List, [], ◌∷◌, ◌++◌, ◌≤◌, length, ◌≡◌, ◌↔◌, ◌⊎◌, refl, none, some, true, false,
}
use goscheduler.Shared.Int.{pos}
use goscheduler.Shared.Text.{Text, codes}
use goscheduler.Shared.Dict.{lookup}
use goscheduler.Store.App.{App, Configuration, empty_configuration, is_empty}
use goscheduler.Dao.Session.{
  AppRow, EntityRow, Db, Dao, Conf, Reply, served, failed, Result, ok, err, query_failed,
}
use goscheduler.Dao.Apps.{
  app_of, get_app, max_config_app, validate_configurations, get_dc_aware_app,
}
use goscheduler.Dao.Entities.{update_entity_status}
use goscheduler.Dao.Freshness.{Coherent, found_app, get_app_lem}
use goscheduler.Dao.DataCentre.{get_dc_aware_app_again}
use goscheduler.Dao.Limits.{Within, validate_configurations_lem}
use goscheduler.Dao.Statuses.{whole_history, update_entity_status_lem, update_entity_status_forgets}

abbrev limits : Configuration
limits = record {
  future_schedule_creation_period = pos 90;
  fired_schedule_retention_period = pos 30;
  payload_size = pos 1024;
  http_retries = pos 3;
  http_timeout = pos 1000;
}

abbrev modest : Configuration
modest = record {
  future_schedule_creation_period = pos 10;
  fired_schedule_retention_period = pos 5;
  payload_size = pos 512;
  http_retries = pos 1;
  http_timeout = pos 100;
}

abbrev limits_row : AppRow
limits_row = record { partitions = 0; active = false; configuration = some limits }

abbrev shop_row : AppRow
shop_row = record { partitions = 2; active = false; configuration = some empty_configuration }

abbrev poller_row : EntityRow
poller_row = record { node = codes "a:1"; status = 1; history = codes "->{b:1:0}" }

abbrev tables : List Reply → Db
tables replies = record {
  apps = (max_config_app, limits_row) ∷ (codes "shop", shop_row) ∷ (codes "dc_shop", shop_row) ∷ [];
  entities = (codes "shop.0", poller_row) ∷ (codes "shop.1", poller_row) ∷ [];
  replies = replies;
}

abbrev shop : App
shop = app_of (codes "shop") shop_row

abbrev fresh : List Reply → Dao
fresh replies = record { cache = (codes "shop", shop) ∷ []; db = tables replies }

abbrev no_cache : List Reply → Dao
no_cache replies = record { cache = []; db = tables replies }

abbrev conf : Conf
conf = record {
  address = codes "a:1";
  prefix = codes "dc";
  history_size = 12;
  cron_app = codes "Athena";
  default_count = 2;
  app_level = limits;
}

fresh-Coherent : (replies : List Reply) → Coherent (fresh replies)
unfolding lookup
fresh-Coherent replies = ((shop_row, refl, refl), tt)

shop_found : (replies : List Reply) → lookup (codes "shop") (fresh replies).db.apps ≡ some shop_row
unfolding lookup
shop_found replies = refl

limits_found : lookup max_config_app (fresh []).db.apps ≡ some limits_row
unfolding lookup
limits_found = refl

dc_found : lookup (codes "dc_shop") (fresh []).db.apps ≡ some shop_row
unfolding lookup
dc_found = refl

empty_cache : (name : Text) → lookup {V = App} name [] ≡ none
unfolding lookup
empty_cache name = refl

get_app_lem_example :
    (get_app (codes "shop") (fresh [])).0
    ≡ found_app (codes "shop") (lookup (codes "shop") (fresh []).db.apps)
get_app_lem_example = get_app_lem (codes "shop") (fresh []) (fresh-Coherent []) refl

get_dc_aware_app_again_example :
    (lookup
        (codes "dc_shop")
        (get_dc_aware_app conf (codes "shop") (no_cache (served ∷ failed ∷ []))).1.cache
      ≡ some (app_of (codes "dc_shop") shop_row))
    × ((get_dc_aware_app conf
          (codes "shop")
          (get_dc_aware_app conf (codes "shop") (no_cache (served ∷ failed ∷ []))).1).0
        ≡ err query_failed)
get_dc_aware_app_again_example =
    get_dc_aware_app_again conf (codes "shop") (no_cache (served ∷ failed ∷ [])) shop_row []
      (empty_cache _) (empty_cache _) dc_found refl

validate_configurations_lem_example :
    ((validate_configurations modest (fresh [])).0 ≡ ok tt)
    ↔ ((is_empty modest ≡ true) ⊎ Within modest limits)
validate_configurations_lem_example =
    validate_configurations_lem modest (fresh []) limits_row (fresh-Coherent []) refl limits_found

update_entity_status_lem_example :
    (row : EntityRow) × (cut : Text) × ((update_entity_status conf
        (codes "shop.0")
        (codes "c:1")
        1
        (fresh [])).0
      ≡ ok tt)
    × (lookup
          (codes "shop.0")
          (update_entity_status conf (codes "shop.0") (codes "c:1") 1 (fresh [])).1.db.entities
        ≡ some row)
    × (row.node ≡ codes "c:1")
    × (row.status ≡ 1)
    × (cut ++ row.history ≡ whole_history (lookup (codes "shop.0") (fresh []).db.entities))
    × (length row.history ≤ conf.history_size)
    × ((cut ≡ []) ⊎ (length row.history ≡ conf.history_size))
    × (lookup
          (codes "shop.1")
          (update_entity_status conf (codes "shop.0") (codes "c:1") 1 (fresh [])).1.db.entities
        ≡ lookup (codes "shop.1") (fresh []).db.entities)
    × ((update_entity_status conf (codes "shop.0") (codes "c:1") 1 (fresh [])).1.db.apps
        ≡ (fresh []).db.apps)
    × ((update_entity_status conf (codes "shop.0") (codes "c:1") 1 (fresh [])).1.cache
        ≡ (fresh []).cache)
update_entity_status_lem_example =
    update_entity_status_lem conf (codes "shop.0") (codes "c:1") 1 (codes "shop.1") (fresh []) refl
      refl

update_entity_status_forgets_example :
    let after : Result (Unit {0}) × Dao =
      update_entity_status conf (codes "shop.0") (codes "c:1") 1 (fresh (failed ∷ served ∷ [])) in
    (after.0 ≡ ok tt)
    × (lookup (codes "shop.0") after.1.db.entities
        ≡ some (record { node = codes "c:1"; status = 1; history = [] }))
update_entity_status_forgets_example =
    update_entity_status_forgets conf (codes "shop.0") (codes "c:1") 1
      (fresh (failed ∷ served ∷ [])) [] refl
