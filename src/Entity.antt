-- ===== src/Entity.antt =====
-- The packages cluster_entity (EntityInfo, the id of a poller) and poller (the factory): how an
-- entity's id is taken apart. An id is the app's name, a dot and the partition's number.
pub mod Naming
pub mod Polling
mod Examples
use goscheduler.Shared.{
  ℕ, ◌+◌, ◌-◌, ◌*◌, ◌^◌, List, [], ◌∷◌, ◌++◌, Option, none, some, Bool, true, false, ◌==◌, leb, ltb,
  if◌then◌else◌, ◌&&◌,
}
use goscheduler.Shared.Int.{ℤ, pos, negsuc}
use goscheduler.Shared.Text.{Text, split, itoa, parse_int}

pub record EntityInfo : Type 0 where
  pub id : Text
  pub node : Text
  pub status : ℕ
  pub history : Text

-- `STOPPED` and `RUNNING` of the supervisor.
abbrev pub stopped : ℕ
stopped = 0

abbrev pub running : ℕ
running = 1

-- The text before and behind the last `sep`: what `strings.LastIndex` is used for.
unfoldable pub split_last : ℕ → Text → Option (Text × Text)
split_last sep [] = none
split_last sep (c ∷ s) = elim (split_last sep s) [
  | some (before, behind) ↦ some (c ∷ before, behind)
  | none ↦ if c == sep then some ([], s) else none
]

-- The text that names partition `partition` of an app.
abbrev pub entity_id : Text → ℕ → Text
entity_id app partition = app ++ b'.' ∷ itoa partition

-- `GetAppName`; with no dot in the id the slice bound is -1 and Go panics: `none`.
unfoldable pub get_app_name : Text → Option Text
get_app_name id = elim (split_last b'.' id) [ none ↦ none | some (app, partition) ↦ some app ]

-- The text behind the last dot, or all of it.
unfoldable pub partition_text : Text → Text
partition_text id = elim (split_last b'.' id) [ none ↦ id | some (app, partition) ↦ partition ]

-- `CreateEntity` of the factory: the app's name and the partition's number of the new poller, from
-- the parts between the dots. `none` is a panic, of the index 1 where there is no dot or of the
-- factory itself.
unfoldable pub poller_of_parts : List Text → Option (Text × ℤ)
poller_of_parts [] = none
poller_of_parts (app ∷ []) = none
poller_of_parts (app ∷ partition ∷ rest) = elim (parse_int partition) [
  | none ↦ none
  | some n ↦ some (app, n)
]

unfoldable pub create_entity : Text → Option (Text × ℤ)
unfolding poller_of_parts
create_entity id = poller_of_parts (split b'.' id)
