-- ===== src/Dao/Apps.antt =====
-- dao/cluster_dao_impl.go: apps, their cache and the limits of their configurations.
use goscheduler.Shared.{List, [], ◌∷◌, ◌++◌, Option, none, some, Bool, false, if◌then◌else◌, map}
use goscheduler.Shared.Int.{ltb_ℤ}
use goscheduler.Shared.Text.{Text, codes, text_eq}
use goscheduler.Shared.Dict.{lookup, insert, remove}
use goscheduler.Store.App.{App, Configuration, empty_configuration, is_empty}
use goscheduler.Dao.Session.{
  AppRow, Db, Conf, Limit, payload_limit, retries_limit, timeout_limit, retention_limit,
  creation_limit, not_found, exceeds, M, pure, fail, ◌>>=◌, ◌>>◌, read, write, get_cache, set_cache,
  set_apps,
}

abbrev pub max_config_app : Text
max_config_app = codes "maxConfig"

-- A configuration that does not decode is taken as the empty one. (`GetApps` and `getDCAwareApp`
-- keep what was decoded before the error, which is nothing for a text that is no JSON.)
abbrev pub decoded : Option Configuration → Configuration
decoded none = empty_configuration
decoded (some c) = c

abbrev pub app_of : Text → AppRow → App
app_of name row = record {
  app_id = name;
  partitions = row.partitions;
  active = row.active;
  configuration = decoded row.configuration;
}

-- `check`.
unfoldable pub check : Text → M (Option App)
check name = do m ← get_cache; pure (lookup name m)

-- `cache`.
unfoldable pub cache_app : App → M App
cache_app app = do m ← get_cache; set_cache (insert app.app_id app m); pure app

-- `getApp`, on the row that the query found.
unfoldable pub cache_row : Text → Option AppRow → M App
cache_row name none = fail not_found
cache_row name (some row) = cache_app (app_of name row)

unfoldable pub load_app : Text → M App
load_app name = do row ← read (λ db. lookup name db.apps); cache_row name row

unfoldable pub app_or_load : Text → Option App → M App
app_or_load name (some app) = pure app
app_or_load name none = load_app name

-- `GetApp`.
unfoldable pub get_app : Text → M App
get_app name = do found ← check name; app_or_load name found

-- `InvalidateSingleAppCache`.
unfoldable pub invalidate_single_app_cache : Text → M (Unit {0})
invalidate_single_app_cache name = do m ← get_cache; set_cache (remove name m)

-- The first limit that a configuration passes, in the order of the tests.
unfoldable pub limit_passed : Configuration → Configuration → Option Limit
limit_passed c max =
    if ltb_ℤ max.payload_size c.payload_size
    then some payload_limit
    else if ltb_ℤ max.http_retries c.http_retries
    then some retries_limit
    else if ltb_ℤ max.http_timeout c.http_timeout
    then some timeout_limit
    else if ltb_ℤ max.fired_schedule_retention_period c.fired_schedule_retention_period
    then some retention_limit
    else if ltb_ℤ max.future_schedule_creation_period c.future_schedule_creation_period
    then some creation_limit
    else none

abbrev pub refuse : Option Limit → M (Unit {0})
refuse none = pure tt
refuse (some l) = fail (exceeds l)

-- `ValidateConfigurations`.
unfoldable pub validate_configurations : Configuration → M (Unit {0})
validate_configurations c =
    if is_empty c
    then pure tt
    else (do app ← get_app max_config_app; refuse (limit_passed c app.configuration))

-- The check that `InsertApp` and the writes of configurations make first.
unfoldable pub validate_for : Text → Configuration → M (Unit {0})
validate_for name c = if text_eq name max_config_app then pure tt else validate_configurations c

-- `InsertApp`: every column is written.
unfoldable pub insert_app : App → M (Unit {0})
insert_app app = do
  validate_for app.app_id app.configuration
  write (
      set_apps (
        insert app.app_id (record {
          partitions = app.partitions;
          active = app.active;
          configuration = some app.configuration;
        })))

-- The row that a write of some columns starts from, with the zero values that reads show.
abbrev pub row_or_blank : Option AppRow → AppRow
row_or_blank none = record { partitions = 0; active = false; configuration = none }
row_or_blank (some row) = row

unfoldable pub set_active : Text → Bool → List (Text × AppRow) → List (Text × AppRow)
set_active name active rows =
    insert name
      (record {
        partitions = (row_or_blank (lookup name rows)).partitions;
        active = active;
        configuration = (row_or_blank (lookup name rows)).configuration;
      })
      rows

-- `UpdateAppActiveStatus`.
unfoldable pub update_app_active_status : Text → Bool → M (Unit {0})
update_app_active_status name active = write (set_apps (set_active name active))

-- `GetApps`: of one app, or of all with the empty name.
unfoldable pub get_apps : Text → M (List App)
get_apps [] = read (λ db. map (λ row. app_of row.0 row.1) db.apps)
get_apps (c ∷ name) = do app ← load_app (c ∷ name); pure (app ∷ [])

-- `getDCAwareApp`: the rows found under the name with the prefix and under the name.
unfoldable pub choose_row : Text → Text → Option AppRow → Option AppRow → M App
choose_row prefixed name (some row) _ = cache_app (app_of prefixed row)
choose_row prefixed name none (some row) = cache_app (app_of name row)
choose_row prefixed name none none =
    pure
      (record { app_id = []; partitions = 0; active = false; configuration = empty_configuration })

-- The query for two names.
unfoldable pub rows_of : Text → Text → Db → Option AppRow × Option AppRow
rows_of name other db = (lookup name db.apps, lookup other db.apps)

unfoldable pub load_dc_aware_app : Conf → Text → M App
load_dc_aware_app conf name = do
  rows ← read (rows_of (conf.prefix ++ b'_' ∷ name) name)
  choose_row (conf.prefix ++ b'_' ∷ name) name rows.0 rows.1

unfoldable pub dc_app_or_load : Conf → Text → Option App → Option App → M App
dc_app_or_load conf name (some app) _ = pure app
dc_app_or_load conf name none (some app) = pure app
dc_app_or_load conf name none none = load_dc_aware_app conf name

-- `GetDCAwareApp`.
unfoldable pub get_dc_aware_app : Conf → Text → M App
get_dc_aware_app conf name = do
  prefixed ← check (conf.prefix ++ name)
  plain ← check name
  dc_app_or_load conf name prefixed plain
