-- ===== src/Dao/Configurations.antt =====
-- dao/cluster_dao_impl.go: the configurations of apps.
use goscheduler.Shared.{List, Option, none, some}
use goscheduler.Shared.Text.{Text}
use goscheduler.Shared.Dict.{lookup, insert}
use goscheduler.Store.App.{Configuration, empty_configuration}
use goscheduler.Dao.Session.{
  AppRow, not_found, no_json, no_merge, M, pure, fail, ◌>>=◌, ◌>>◌, read, write, set_apps,
}
use goscheduler.Dao.Apps.{row_or_blank, validate_for}

unfoldable pub set_configuration :
    Text → Configuration → List (Text × AppRow) → List (Text × AppRow)
set_configuration name c rows =
    insert name
      (record {
        partitions = (row_or_blank (lookup name rows)).partitions;
        active = (row_or_blank (lookup name rows)).active;
        configuration = some c;
      })
      rows

unfoldable pub write_configuration : Text → Configuration → M Configuration
write_configuration name c = do write (set_apps (set_configuration name c)); pure c

-- `CreateConfigurations`.
unfoldable pub create_configurations : Text → Configuration → M Configuration
create_configurations name c = do validate_for name c; write_configuration name c

abbrev pub stored : Option AppRow → M Configuration
stored none = fail not_found
stored (some row) = elim row.configuration [ none ↦ fail no_json | some c ↦ pure c ]

-- `GetConfiguration`.
unfoldable pub get_configuration : Text → M Configuration
get_configuration name = do row ← read (λ db. lookup name db.apps); stored row

-- `mergo.Merge` of the new configuration with the stored one is a parameter.
unfoldable pub write_merged : Text → Option Configuration → M Configuration
write_merged name none = fail no_merge
write_merged name (some c) = write_configuration name c

-- `UpdateConfiguration`.
unfoldable pub update_configuration :
    (Configuration → Configuration → Option Configuration) → Text → Configuration → M Configuration
update_configuration merge name c = do
  validate_for name c
  existing ← get_configuration name
  write_merged name (merge c existing)

-- `DeleteConfiguration`.
unfoldable pub delete_configuration : Text → M Configuration
delete_configuration name = write_configuration name empty_configuration
