-- ===== src/Service/AppRegistration.antt =====
-- service/app_registration.go and the four handlers of configurations, on the node at `at`, behind
-- the decoding of the request: a reply is the data or the code of an error.
use goscheduler.Shared.{
  ℕ, zero, suc, [], ◌∷◌, Option, none, some, Bool, true, false, ◌==◌, if◌then◌else◌,
}
use goscheduler.Shared.Text.{Text}
use goscheduler.Entity.{EntityInfo, entity_id}
use goscheduler.Store.App.{App, Configuration}
use goscheduler.Dao.Session.{Dao, Conf, not_found, Result, ok, err, M}
use goscheduler.Dao.Apps.{get_app, insert_app, update_app_active_status}
use goscheduler.Dao.Entities.{create_entity_row}
use goscheduler.Dao.Configurations.{
  create_configurations, get_configuration, update_configuration, delete_configuration,
}
use goscheduler.Supervisor.Cluster.{Ring, S, give, ◌>>=◌, ◌>>◌, on_dao}
use goscheduler.Supervisor.Apps.{activate_app, deactivate_app}
use goscheduler.Supervisor.Boot.{boot_entity}
use goscheduler.Service.Errors.{
  invalid_data, data_not_found, invalid_app_id, deactivated_app, activated_app,
  data_persistence_failure, data_fetch_failure, entity_boot_failed,
}

pub data Reply (A : Type 0) : Type 0 where
  good : A → Reply A
  bad : ℕ → Reply A

-- `validateAppId`.
unfoldable pub validate_app_id : Text → Option ℕ
validate_app_id [] = some invalid_data
validate_app_id (c ∷ name) = none

abbrev and_then : {A B : Type 0} → (A → S (Reply B)) → Reply A → S (Reply B)
and_then f (good a) = f a
and_then f (bad code) = give (bad code)

abbrev persisted : {A B : Type 0} → S (Reply B) → Result A → S (Reply B)
persisted m (ok a) = m
persisted m (err e) = give (bad data_persistence_failure)

abbrev booted : S (Reply (Unit {0})) → Bool → S (Reply (Unit {0}))
booted m b = if b then m else give (bad entity_boot_failed)

-- The entity of partition `partition` that `createEntities` makes.
abbrev pub new_entity : Conf → Text → ℕ → EntityInfo
new_entity conf app partition = record {
  id = entity_id app partition;
  node = conf.address;
  status = 0;
  history = [];
}

-- The loop of `createEntities`.
unfoldable pub create_entities : Ring → Conf → ℕ → Text → Text → ℕ → ℕ → S (Reply (Unit {0}))
create_entities ring conf n at app from zero = give (good tt)
create_entities ring conf n at app from (suc count) =
    on_dao at (create_entity_row conf (new_entity conf app from))
    >>= persisted (
        boot_entity ring conf n at (new_entity conf app from) true
        >>= booted (create_entities ring conf n at app (suc from) count))

abbrev with_default : Conf → App → App
with_default conf app = record {
  app_id = app.app_id;
  partitions = (if app.partitions == 0 then conf.default_count else app.partitions);
  active = app.active;
  configuration = app.configuration;
}

abbrev give_app : App → Unit {0} → S (Reply App)
give_app app u = give (good app)

-- `RegisterApp`.
unfoldable pub register_app : Ring → Conf → ℕ → Text → App → S (Reply App)
register_app ring conf n at app = elim (validate_app_id app.app_id) [
  | some code ↦ give (bad code)
  | none ↦
      let made : App = with_default conf app in
      on_dao at (insert_app made)
      >>= persisted (
          create_entities ring conf n at made.app_id 0 made.partitions >>= and_then (give_app made))
]

abbrev switch_off : Ring → Conf → ℕ → Text → Text → Result App → S (Reply (Unit {0}))
switch_off ring conf n at name (err e) = give (bad invalid_app_id)
switch_off ring conf n at name (ok app) =
    if app.active
    then (on_dao at (update_app_active_status name false)
        >>= persisted (deactivate_app ring conf n at app >> give (good tt)))
    else give (bad deactivated_app)

-- `DeactivateApp` of the service.
unfoldable pub deactivate : Ring → Conf → ℕ → Text → Text → S (Reply (Unit {0}))
deactivate ring conf n at name = elim (validate_app_id name) [
  | some code ↦ give (bad code)
  | none ↦ on_dao at (get_app name) >>= switch_off ring conf n at name
]

abbrev switch_on : Ring → Conf → ℕ → Text → Text → Result App → S (Reply (Unit {0}))
switch_on ring conf n at name (err e) = give (bad invalid_app_id)
switch_on ring conf n at name (ok app) =
    if app.active
    then give (bad activated_app)
    else (on_dao at (update_app_active_status name true)
        >>= persisted (activate_app ring conf n at app >> give (good tt)))

-- `ActivateApp` of the service.
unfoldable pub activate : Ring → Conf → ℕ → Text → Text → S (Reply (Unit {0}))
activate ring conf n at name = elim (validate_app_id name) [
  | some code ↦ give (bad code)
  | none ↦ on_dao at (get_app name) >>= switch_on ring conf n at name
]

-- The reply to a call of the dao, with the code for its error.
abbrev pub reply_or : ℕ → Result Configuration × Dao → Reply Configuration × Dao
reply_or code (ok c, d) = (good c, d)
reply_or code (err e, d) = (bad code, d)

-- The switch on the error of `GetApp` in the four handlers.
abbrev pub with_app : ℕ → (Text → M Configuration) → Result App × Dao → Reply Configuration × Dao
with_app code call (ok app, d) = reply_or code (call app.app_id d)
with_app code call (err not_found, d) = (bad invalid_app_id, d)
with_app code call (err _, d) = (bad data_fetch_failure, d)

-- `CreateConfiguration`, `GetConfiguration`, `UpdateConfiguration` and `DeleteConfiguration`.
unfoldable pub handle_create_configuration : Text → Configuration → Dao → Reply Configuration × Dao
handle_create_configuration name c d =
    with_app data_persistence_failure (λ id. create_configurations id c) (get_app name d)

unfoldable pub handle_get_configuration : Text → Dao → Reply Configuration × Dao
handle_get_configuration name d = with_app data_not_found get_configuration (get_app name d)

unfoldable pub handle_update_configuration :
    (Configuration → Configuration → Option Configuration)
    → Text
    → Configuration
    → Dao
    → Reply Configuration × Dao
handle_update_configuration merge name c d =
    with_app data_persistence_failure (λ id. update_configuration merge id c) (get_app name d)

unfoldable pub handle_delete_configuration : Text → Dao → Reply Configuration × Dao
handle_delete_configuration name d =
    with_app data_persistence_failure delete_configuration (get_app name d)
