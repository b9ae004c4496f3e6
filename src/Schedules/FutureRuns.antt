-- ===== src/Schedules/FutureRuns.antt =====
-- dao/schedule_dao_impl.go: what becomes of the future runs of a recurring schedule when it is paused,
-- updated or deleted.
use goscheduler.Shared.{
  ℕ, suc, List, [], ◌∷◌, ◌++◌, ◌≡◌, refl, ap, Option, none, some, Bool, true, false, inl, inr,
  Bool-cases, if◌then◌else◌, append_assoc, append-nil, keep, All, Has, Has-keep, Has-map, Has-right,
  Has-reverse, arith,
}
use mathlib.Core.Path.{subst}
use goscheduler.Shared.Int.{ℤ, negsuc, ltb_ℤ}
use goscheduler.Shared.Text.{Text, text_eq}
use goscheduler.Store.Schedule.{
  Schedule, StatusRow, nanos, zero_uuid, set_status, set_unknown_status, check_untriggered_callback,
}
use goscheduler.Dao.Session.{Result, ok, err}
use goscheduler.Schedules.Session.{Row, Tables}
use goscheduler.Schedules.Rows.{set_status_from, status_row}
use goscheduler.Schedules.Runs.{full, scan, up_to, get_filtered_runs, get_future_runs}
use goscheduler.Schedules.RunsPages.{Decodes, passing}
use goscheduler.Schedules.Recurring.{runs_of, enriched, all_future_runs}

-- Two schedules with the same keys.
abbrev pub SameKeys : Schedule → Schedule → Type 0
SameKeys a b =
    (a.schedule_id ≡ b.schedule_id)
    × (a.app_id ≡ b.app_id)
    × (a.partition_id ≡ b.partition_id)
    × (a.schedule_group ≡ b.schedule_group)

set_status-keys : (row : StatusRow) (s : Schedule) → SameKeys (set_status row s).1 s
unfolding set_status
set_status-keys row s =
    elim row.history
      as (λ h.
        SameKeys
          (elim h as (λ x. Bool × Schedule) [
            | none ↦ (false, record s { status = row.row_status; error_message = row.row_message })
            | some history ↦ (
              true,
              record s {
                status = row.row_status;
                error_message = row.row_message;
                reconciliation_history = history;
              },
            )
          ]).1
          s) [ none ↦ (refl, refl, refl, refl) | some history ↦ (refl, refl, refl, refl) ]

set_unknown_status-keys :
    (now : ℤ) (flush_period : ℕ) (s : Schedule) → SameKeys (set_unknown_status now flush_period s) s
unfolding set_unknown_status
set_unknown_status-keys now flush_period s =
    elim (Bool-cases (check_untriggered_callback now flush_period s)) [
      | inl y ↦ rw y (refl, refl, refl, refl)
      | inr z ↦ rw z (refl, refl, refl, refl)
    ]

set_status_from-keys :
    (now : ℤ) (flush_period : ℕ) (row : Option StatusRow) (s : Schedule)
    → SameKeys (set_status_from now flush_period row s).1 s
unfolding set_status_from
set_status_from-keys now flush_period none s = set_unknown_status-keys now flush_period s
set_status_from-keys now flush_period (some row) s = set_status-keys row s

enriched-keys :
    (now : ℤ) (flush_period : ℕ) (answer : Result Tables) (s : Schedule)
    → SameKeys (enriched now flush_period answer s) s
enriched-keys now flush_period (ok t) s = set_status_from-keys now flush_period (status_row t s) s
enriched-keys now flush_period (err e) s = (refl, refl, refl, refl)

-- With no limit the whole page is read.
scan_whole :
    (enrich : Schedule → Schedule) (filter : Schedule → Bool) (out : List Schedule)
    (rows : List Row)
    → All Decodes rows
    → scan enrich filter (negsuc 0) out rows ≡ (true, out ++ passing enrich filter rows)
unfolding scan
scan_whole enrich filter out [] h = rw (append-nil out) refl
scan_whole enrich filter out (row ∷ rows) (d, h) =
    let more : full (negsuc 0) out ≡ false = ground arith in
    let one : List Schedule = if filter (enrich row.entry) then enrich row.entry ∷ [] else [] in
    rw (more, d, scan_whole enrich filter (out ++ one) rows h, append_assoc) refl

up_to_all : (taken : ℕ) (xs : List Schedule) → up_to (negsuc 0) taken xs ≡ xs
up_to_all taken [] = refl
up_to_all taken (x ∷ xs) = rw (up_to_all (suc taken) xs) (ground arith)

Has-passing :
    (enrich : Schedule → Schedule) (filter : Schedule → Bool) (row : Row) (rows : List Row)
    → filter (enrich row.entry) ≡ true
    → Has row rows
    → Has (enrich row.entry) (passing enrich filter rows)
Has-passing enrich filter row [] pass h = elim h [ ]
Has-passing enrich filter row (r ∷ rows) pass (inl e) =
    let also : filter (enrich r.entry) ≡ true =
      subst (λ (k : Row). filter (enrich k.entry) ≡ true) e pass in
    rw also (inl (ap (λ (k : Row). enrich k.entry) e))
Has-passing enrich filter row (r ∷ rows) pass (inr h) =
    Has-right (enrich row.entry) (if filter (enrich r.entry) then enrich r.entry ∷ [] else [])
      (passing enrich filter rows) (Has-passing enrich filter row rows pass h)

runs_decode : (id : Text) (rows : List Row) → All Decodes rows → All Decodes (runs_of id rows)
runs_decode id [] h = tt
runs_decode id (row ∷ rows) (d, h) = elim (Bool-cases (text_eq row.entry.parent_schedule_id id)) [
  | inl y ↦ rw y (d, runs_decode id rows h)
  | inr z ↦ rw z (runs_decode id rows h)
]

module _ (now : ℤ) (flush_period : ℕ) where
  abbrev pub Later : Schedule → Type 0
  Later s = ltb_ℤ now (nanos s.schedule_group) ≡ true

  -- A run of the schedule that lies in the future is found under its keys.
  pub finds_run :
      (t : Tables) (id : Text) (row : Row)
      → All Decodes t.runs
      → Has row t.runs
      → text_eq row.entry.parent_schedule_id id ≡ true
      → Later row.entry
      → (runs : List Schedule) × (run : Schedule) × (all_future_runs now flush_period id
            (record { tables = t; replies = [] })
          ≡ (ok runs, record { tables = t; replies = [] }))
        × Has run runs
        × SameKeys run row.entry
  unfolding all_future_runs get_future_runs get_filtered_runs
  finds_run t id row h there mine late =
      let entry = record row.entry { parent_schedule_id = zero_uuid } in
      let run = enriched now flush_period (ok t) entry in
      let keys : SameKeys run entry = enriched-keys now flush_period (ok t) entry in
      let filter = λ (s : Schedule). ltb_ℤ now (nanos s.schedule_group) in
      let listed : Has run (passing (enriched now flush_period (ok t)) filter (runs_of id t.runs)) =
        Has-passing (enriched now flush_period (ok t)) filter (record row { entry = entry })
          (runs_of id t.runs) (rw (keys.3) late)
          (Has-map
            (λ (row : Row). record row {
              entry = record row.entry { parent_schedule_id = zero_uuid };
            })
            row (keep (λ (row : Row). text_eq row.entry.parent_schedule_id id) t.runs)
            (Has-keep (λ (row : Row). text_eq row.entry.parent_schedule_id id) row t.runs mine
              there)) in
      let whole =
        scan_whole (enriched now flush_period (ok t)) filter [] (runs_of id t.runs)
          (runs_decode id t.runs h) in
      (_, run, rw (whole, up_to_all 0) refl, Has-reverse run _ listed, keys)
