-- ===== src/Service/Examples.antt =====
-- The theorems on the handlers of service/ on a small database.
use goscheduler.Shared.{[], ◌∷◌, ◌≡◌, refl, some, true}
use goscheduler.Shared.Int.{pos}
use goscheduler.Shared.Text.{codes}
use goscheduler.Shared.Dict.{lookup}
use goscheduler.Store.App.{App, Configuration, empty_configuration}
use goscheduler.Dao.Session.{AppRow, Dao, ok}
use goscheduler.Dao.Apps.{app_of, check, cache_app, cache_row, load_app, app_or_load, get_app}
use goscheduler.Service.AppRegistration.{
  handle_create_configuration, handle_update_configuration, handle_delete_configuration,
}
use goscheduler.Service.Registration.{get_app-handlers}

abbrev pub shop_row : AppRow
shop_row = record { partitions = 2; active = true; configuration = some empty_configuration }

abbrev pub shop : App
shop = app_of (codes "shop") shop_row

abbrev pub dao : Dao
dao = record {
  cache = [];
  db = record { apps = (codes "shop", shop_row) ∷ []; entities = []; replies = [] };
}

abbrev retrying : Configuration
retrying = record {
  future_schedule_creation_period = pos 0;
  fired_schedule_retention_period = pos 0;
  payload_size = pos 0;
  http_retries = pos 2;
  http_timeout = pos 0;
}

shop_found : (get_app (codes "shop") dao).0 ≡ ok shop
unfolding get_app check app_or_load load_app cache_row cache_app lookup
shop_found = refl

get_app-handlers_example :
    ((get_app (codes "shop") (handle_create_configuration (codes "shop") retrying dao).1).0
      ≡ ok shop)
    × ((get_app
          (codes "shop")
          (handle_update_configuration (λ new old. some new) (codes "shop") retrying dao).1).0
        ≡ ok shop)
    × ((get_app (codes "shop") (handle_delete_configuration (codes "shop") dao).1).0 ≡ ok shop)
get_app-handlers_example =
    get_app-handlers (λ new old. some new) (codes "shop") retrying shop dao shop_found
