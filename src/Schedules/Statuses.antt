-- ===== src/Schedules/Statuses.antt =====
-- What a step of the tables of recurring schedules does to the status of one.
use goscheduler.Shared.{◌≡◌, refl, Option, none, some, true, ◌⊎◌, inl, inr, Bool-cases}
use mathlib.Core.Path.{subst}
use goscheduler.Shared.Text.{Text, text_eq}
use goscheduler.Shared.Dict.{text_eq_sound}
use goscheduler.Store.Schedule.{Schedule, Status, scheduled, deleted, paused}
use goscheduler.Schedules.Session.{Row, Tables}
use goscheduler.Schedules.Rows.{insert_recurring}
use goscheduler.Schedules.Recurring.{set_recurring_status, with_status}
use goscheduler.Schedules.Sync.{held-status, held-there}
use goscheduler.Schedules.Steps.{
  Holds, Moves, pausing, resuming, deleting, Step, quiet, inserting, marking, replacing,
}

abbrev status_of : Option Row → Option Status
status_of none = none
status_of (some row) = some row.entry.status

-- The status of the row of an id.
abbrev pub status_at : Text → Tables → Option Status
status_at id t = status_of (t.by_id id)

-- What a change leaves of a status.
abbrev pub Leaves : Status → Text → Tables → Type 0
Leaves a id u = (b : Status) × (status_at id u ≡ some b) × ((b ≡ a) ⊎ Moves a b)

held-status_at :
    {t : Tables} {key : Text} {s : Schedule} (h : Holds key s t) (id : Text) (a : Status)
    → text_eq s.schedule_id id ≡ true
    → status_at id t ≡ some a
    → a ≡ s.status
held-status_at {t} {key} {s} h id a same e =
    let here = text_eq_sound s.schedule_id id same in
    let there : t.by_id id ≡ some h.row = subst (λ k. t.by_id k ≡ some h.row) here (held-there h) in
    let found : status_at id t ≡ some h.row.entry.status = rw there refl in
    let status = held-status h in cc

pub Step-Leaves :
    (t u : Tables) (id : Text) (a : Status) → Step t u → status_at id t ≡ some a → Leaves a id u
unfolding insert_recurring set_recurring_status with_status
Step-Leaves t u id a (quiet same) e = (a, rw same.0 e, inl refl)
Step-Leaves t u id a (inserting s fresh same) e = elim (Bool-cases (text_eq s.schedule_id id)) [
  | inl y ↦
      let here : t.by_id id ≡ none =
        subst (λ k. t.by_id k ≡ none) (text_eq_sound s.schedule_id id y) fresh in
      let none_there : status_at id t ≡ none = rw here refl in absurd cc
  | inr n ↦ (a, rw (same.0, n) e, inl refl)
]
Step-Leaves t u id a (marking key s status holds move same) e =
    elim (Bool-cases (text_eq s.schedule_id id)) [
      | inl y ↦ (
        status,
        rw (same.0, y, held-there holds) refl,
        inr (rw (held-status_at holds id a y e) move),
      )
      | inr n ↦ (a, rw (same.0, n) e, inl refl)
    ]
Step-Leaves t u id a (replacing key s new holds k partition app status same) e =
    elim (Bool-cases (text_eq s.schedule_id id)) [
      | inl y ↦ (
        new.status,
        rw (same.0, k, y) refl,
        inl (rw (status, held-status_at holds id a y e) refl),
      )
      | inr n ↦ (a, rw (same.0, k, n) e, inl refl)
    ]

pub Moves-deleted : (b : Status) → Moves deleted b → b ≡ deleted
Moves-deleted b (pausing e f) =
    absurd (
      let c : text_eq deleted scheduled ≡ true = subst (λ s. text_eq deleted s ≡ true) e refl in cc)
Moves-deleted b (resuming e f) =
    absurd
      (let c : text_eq deleted paused ≡ true = subst (λ s. text_eq deleted s ≡ true) e refl in cc)
Moves-deleted b (deleting e) = e
