-- ===== src/Schedules/Enrich.antt =====
-- dao/schedule_dao_impl.go: the statuses of many schedules at once, `OptimizedEnrichSchedule`, and the
-- choice of a bulk action, `contains`; the scans of the recurring schedules. The rows that a query
-- gives, and whether its iterator closes without an error, are arguments.
use goscheduler.Shared.{
  ℕ, List, [], ◌∷◌, ◌++◌, Option, none, some, Bool, true, false, ◌&&◌, ◌||◌, not, if◌then◌else◌,
}
use goscheduler.Shared.Int.{ℤ}
use goscheduler.Shared.Text.{Text, text_eq}
use goscheduler.Shared.Dict.{lookup, insert}
use goscheduler.Store.Schedule.{
  Schedule, Status, StatusRow, no_schedule, scheduled, deleted, success, failure, miss, set_status,
  set_unknown_status,
}
use goscheduler.Schedules.Session.{Row}

-- `idToSchedule`.
unfoldable pub id_to_schedule : List Schedule → List (Text × Schedule) → List (Text × Schedule)
id_to_schedule [] known = known
id_to_schedule (s ∷ rest) known = id_to_schedule rest (insert s.schedule_id s known)

abbrev pub or_zero : Option Schedule → Schedule
or_zero none = no_schedule
or_zero (some s) = s

-- The loop over the rows: false if a history does not decode.
unfoldable pub enrich_found :
    List (Text × Schedule) → List (Text × StatusRow) → Bool × List Schedule
enrich_found known [] = (true, [])
enrich_found known ((id, row) ∷ rows) =
    let (whole, s) = set_status row (or_zero (lookup id known)) in
    let rest = enrich_found known rows in if whole then (rest.0, s ∷ rest.1) else (false, [])

unfoldable pub has_row : List (Text × StatusRow) → Text → Bool
has_row [] id = false
has_row ((key, row) ∷ rows) id = text_eq key id || has_row rows id

-- The schedules without a row, in the order of the map's iteration.
unfoldable pub enrich_missing :
    ℤ → ℕ → List (Text × StatusRow) → List (Text × Schedule) → List Schedule
unfolding has_row
enrich_missing now flush_period rows [] = []
enrich_missing now flush_period rows ((id, s) ∷ known) =
    let rest = enrich_missing now flush_period rows known in
    if has_row rows id then rest else set_unknown_status now flush_period s ∷ rest

-- `OptimizedEnrichSchedule`: false if it gives an error.
unfoldable pub optimized_enrich_schedule :
    ℤ → ℕ → List (Text × StatusRow) → Bool → List Schedule → Bool × List Schedule
unfolding id_to_schedule enrich_found enrich_missing
optimized_enrich_schedule now flush_period rows closes [] = (true, [])
optimized_enrich_schedule now flush_period rows closes (s ∷ rest) =
    let known = id_to_schedule (s ∷ rest) [] in
    let (whole, enriched) = enrich_found known rows in
    if whole && closes
    then (true, enriched ++ enrich_missing now flush_period rows known)
    else (false, enriched)

abbrev is_known : Status → Bool
is_known v = text_eq v success || text_eq v failure || text_eq v miss || text_eq v scheduled

-- `contains`.
unfoldable pub contains : List Status → Schedule → Bool
contains [] s = false
contains (v ∷ statuses) s =
    let rest = contains statuses s in
    if is_known v then (if text_eq v s.status then true else rest) else true

-- `GetRecurringScheduleByPartition`: the schedules, and whether there is no error.
unfoldable pub get_recurring_by_partition : List Row → Bool → Bool × List Schedule
get_recurring_by_partition [] closes = (closes, [])
get_recurring_by_partition (row ∷ rows) closes =
    let rest = get_recurring_by_partition rows closes in
    if row.decodes then (rest.0, row.entry ∷ rest.1) else (false, rest.1)

-- The test of `GetCronSchedulesByApp`.
unfoldable pub wanted : Text → Status → Schedule → Bool
wanted app status s =
    (text_eq s.app_id app || text_eq app [])
    && (text_eq s.status status || (not (text_eq status scheduled) && not (text_eq status deleted)))

-- `GetCronSchedulesByApp`.
unfoldable pub get_cron_schedules_by_app : Text → Status → List Row → Bool → Bool × List Schedule
get_cron_schedules_by_app app status [] closes = (closes, [])
get_cron_schedules_by_app app status (row ∷ rows) closes =
    let rest = get_cron_schedules_by_app app status rows closes in
    if row.decodes
    then (rest.0, (if wanted app status row.entry then row.entry ∷ rest.1 else rest.1))
    else (false, rest.1)
