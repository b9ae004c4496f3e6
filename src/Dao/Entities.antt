-- ===== src/Dao/Entities.antt =====
-- dao/cluster_dao_impl.go: the rows of entities, and the apps that the first start makes.
use goscheduler.Shared.{
  ℕ, zero, suc, ◌-◌, List, [], ◌∷◌, ◌++◌, Option, none, some, Bool, true, false, ◌&&◌, ltb,
  if◌then◌else◌, length, drop,
}
use goscheduler.Shared.Text.{Text, codes, text_eq, itoa}
use goscheduler.Shared.Dict.{lookup, insert}
use goscheduler.Store.App.{empty_configuration}
use goscheduler.Entity.{EntityInfo, entity_id}
use goscheduler.Dao.Session.{
  EntityRow, Conf, fatal, Result, ok, err, M, pure, fail, ◌>>=◌, ◌>>◌, attempt, read, write,
  set_entities,
}
use goscheduler.Dao.Apps.{get_app, insert_app, max_config_app, rows_of}

abbrev pub info_of : Text → EntityRow → EntityInfo
info_of id row = record { id = id; node = row.node; status = row.status; history = row.history }

abbrev pub no_info : EntityInfo
no_info = record { id = []; node = []; status = 0; history = [] }

abbrev pub info_or_none : Text → Result (Option EntityRow) → EntityInfo
info_or_none id (ok (some row)) = info_of id row
info_or_none id _ = no_info

-- `GetEntityInfo`: an error gives the empty `EntityInfo`.
unfoldable pub get_entity_info : Text → M EntityInfo
get_entity_info id = do
  row ← attempt (read (λ db. lookup id db.entities))
  pure (info_or_none id row)

-- What `UpdateEntityStatus` adds to the history: `->{node:status}`.
unfoldable pub longer_history : EntityInfo → Text
longer_history entity =
    if text_eq entity.history [] && text_eq entity.node []
    then []
    else entity.history ++ codes "->{" ++ entity.node ++ b':' ∷ itoa entity.status ++ codes "}"

-- `history[historyLen-size : historyLen]`.
unfoldable pub last_part : ℕ → Text → Text
last_part size s = if ltb size (length s) then drop (length s - size) s else s

-- `UpdateEntityStatus`.
unfoldable pub update_entity_status : Conf → Text → Text → ℕ → M (Unit {0})
update_entity_status conf id node status = do
  entity ← get_entity_info id
  write (
      set_entities (
        insert id (record {
          node = node;
          status = status;
          history = last_part conf.history_size (longer_history entity);
        })))

abbrev pub history_of : Option EntityRow → Text
history_of none = []
history_of (some row) = row.history

-- `CreateEntity`: the entity's own node and status are not used, and a history stays.
unfoldable pub create_entity_row : Conf → EntityInfo → M (Unit {0})
create_entity_row conf entity = write (
    set_entities (λ rows.
      insert entity.id
        (record { node = conf.address; status = 0; history = history_of (lookup entity.id rows) })
        rows))

-- The loop of `GetAllEntitiesInfo` and of `GetAllEntitiesInfoOfNode` over the rows.
unfoldable pub infos : List (Text × EntityRow) → List EntityInfo
infos [] = []
infos ((id, row) ∷ rows) = info_of id row ∷ infos rows

unfoldable pub infos_of_node : Text → List (Text × EntityRow) → List EntityInfo
infos_of_node node [] = []
infos_of_node node ((id, row) ∷ rows) =
    let rest = infos_of_node node rows in
    if text_eq row.node node
    then record { id = id; node = node; status = row.status; history = [] } ∷ rest
    else rest

abbrev pub or_fatal : {A : Type 0} → Result A → M A
or_fatal (ok a) = pure a
or_fatal (err e) = fail fatal

-- `GetAllEntitiesInfo`.
unfoldable pub get_all_entities_info : M (List EntityInfo)
get_all_entities_info = do rows ← attempt (read (λ db. infos db.entities)); or_fatal rows

-- `GetAllEntitiesInfoOfNode`: the table `nodes` is a view of the entities by node.
unfoldable pub get_all_entities_info_of_node : Text → M (List EntityInfo)
get_all_entities_info_of_node node = do
  rows ← attempt (read (λ db. infos_of_node node db.entities))
  or_fatal rows

-- The rows of the partitions `from`, …, `from + count - 1` that the table has.
unfoldable pub partition_infos : Text → ℕ → ℕ → List (Text × EntityRow) → List EntityInfo
partition_infos app from zero rows = []
partition_infos app from (suc count) rows =
    let rest = partition_infos app (suc from) count rows in
    elim (lookup (entity_id app from) rows) [
      | none ↦ rest
      | some row ↦ info_of (entity_id app from) row ∷ rest
    ]

-- `GetAllEntitiesForApp`.
unfoldable pub get_all_entities_for_app : Text → M (List EntityInfo)
get_all_entities_for_app name = do
  app ← get_app name
  read (λ db. partition_infos app.app_id 0 app.partitions db.entities)

-- The loop of `createDefaultAppsIfRequired` over the partitions of the cron app.
unfoldable pub create_cron_entities : Conf → ℕ → ℕ → M (Unit {0})
create_cron_entities conf from zero = pure tt
create_cron_entities conf from (suc count) = do
  create_entity_row conf
      (record { id = entity_id conf.cron_app from; node = conf.address; status = 0; history = [] })
  create_cron_entities conf (suc from) count

unfoldable pub is_some : {A : Type 0} → Option A → Bool
is_some none = false
is_some (some a) = true

unfoldable pub make_max_config : Conf → Bool → M (Unit {0})
make_max_config conf true = pure tt
make_max_config conf false = insert_app (record {
  app_id = max_config_app;
  partitions = 0;
  active = false;
  configuration = conf.app_level;
})

unfoldable pub make_cron_app : Conf → Bool → M (Unit {0})
make_cron_app conf true = pure tt
make_cron_app conf false = do
  insert_app (record {
    app_id = conf.cron_app;
    partitions = conf.default_count;
    active = true;
    configuration = empty_configuration;
  })
  create_cron_entities conf 0 conf.default_count

-- `createDefaultAppsIfRequired`; every error in it is fatal.
unfoldable pub create_default_apps : Conf → M (Unit {0})
create_default_apps conf = do
  made ← attempt (do
    found ← read (rows_of max_config_app conf.cron_app)
    make_max_config conf (is_some found.0)
    make_cron_app conf (is_some found.1))
  or_fatal made
