-- ===== src/Service/Registration.antt =====
-- What the handlers of service/ that write configurations leave for later calls of `GetApp`.
use goscheduler.Shared.{ℕ, ◌≡◌, refl, Option, some}
use goscheduler.Shared.Text.{Text}
use goscheduler.Shared.Dict.{lookup}
use goscheduler.Store.App.{App, Configuration, empty_configuration}
use goscheduler.Dao.Session.{Dao, Result, ok, err, M}
use goscheduler.Dao.Apps.{get_app}
use goscheduler.Dao.Configurations.{delete_configuration}
use goscheduler.Dao.Staleness.{
  Keeps, get_app-kept, get_app-caches, create_configurations-Keeps, update_configuration-Keeps,
  write_configuration-Keeps,
}
use goscheduler.Service.AppRegistration.{
  reply_or, with_app, handle_create_configuration, handle_update_configuration,
  handle_delete_configuration,
}

reply_or-state : (code : ℕ) (r : Result Configuration × Dao) → (reply_or code r).1 ≡ r.1
reply_or-state code (ok c, d) = refl
reply_or-state code (err e, d) = refl

with_app-Keeps :
    (code : ℕ) (call : Text → M Configuration) (name : Text) (app : App)
    → ((id : Text) → Keeps name app (call id))
    → (r : Result App × Dao) → r.0 ≡ ok app
    → lookup name r.1.cache ≡ some app
    → lookup name (with_app code call r).1.cache ≡ some app
unfolding Keeps
with_app-Keeps code call name app k (ok found, d) h e =
    rw (reply_or-state code (call found.app_id d)) (k found.app_id d e)
with_app-Keeps code call name app k (err x, d) h e = absurd cc

-- After a request that creates, updates or deletes the configuration of an app, `GetApp` still gives
-- the app as it gave it before the request, whatever the reply and however the queries end.
pub get_app-handlers :
    (merge : Configuration → Configuration → Option Configuration) (name : Text) (c : Configuration)
    (app : App) (d : Dao)
    → (get_app name d).0 ≡ ok app
    → ((get_app name (handle_create_configuration name c d).1).0 ≡ ok app)
      × ((get_app name (handle_update_configuration merge name c d).1).0 ≡ ok app)
      × ((get_app name (handle_delete_configuration name d).1).0 ≡ ok app)
unfolding handle_create_configuration handle_update_configuration handle_delete_configuration
    delete_configuration
get_app-handlers merge name c app d h =
    let cached : lookup name (get_app name d).1.cache ≡ some app = get_app-caches name app d h in
    (
      get_app-kept name app _ (
          with_app-Keeps _ _ name app (λ id. create_configurations-Keeps name app id c)
            (get_app name d) h cached),
      get_app-kept name app _ (
          with_app-Keeps _ _ name app (λ id. update_configuration-Keeps merge name app id c)
            (get_app name d) h cached),
      get_app-kept name app _ (
          with_app-Keeps _ _ name app
            (λ id. write_configuration-Keeps name app id empty_configuration) (get_app name d) h
            cached),
    )
