-- ===== src/Schedules/Sync.antt =====
-- What steps of the tables of recurring schedules keep.
use goscheduler.Shared.{
  ℕ, ◌≡◌, refl, sym, ap, Option, none, some, false, ◌&&◌, ◌==◌, ==_self, if◌then◌else◌, inl, inr,
  Bool-cases,
}
use goscheduler.Shared.Text.{Text, text_eq}
use goscheduler.Shared.Dict.{text_eq_self, text_eq_sound}
use goscheduler.Store.Schedule.{Schedule, Status, scheduled}
use goscheduler.Schedules.Session.{Row, Tables, set_by_id, set_by_partition}
use goscheduler.Schedules.Rows.{recurring_row, insert_recurring}
use goscheduler.Schedules.Recurring.{set_recurring_status, with_status}
use goscheduler.Schedules.Steps.{Holds, Same, Step, quiet, inserting, marking, replacing}

-- The row of the table by partition that a row by id should have.
abbrev pub placed : ℕ → Text → Option Row → Option Row
placed p app none = none
placed p app (some row) =
    if row.entry.partition_id == p && text_eq row.entry.app_id app then some row else none

-- The table by partition has exactly the rows of the table by id.
abbrev pub InSync : Tables → Type 0
InSync t = (p : ℕ) (id app : Text) → t.by_partition p id app ≡ placed p app (t.by_id id)

-- The row goes to its own place in both tables.
set-InSync :
    (t : Tables) (id : Text) (row : Row)
    → InSync t
    → ((p : ℕ) (app : Text)
        → (row.entry.partition_id == p && text_eq row.entry.app_id app) ≡ false
        → placed p app (t.by_id id) ≡ none)
    → (p : ℕ) (k app : Text)
    → set_by_partition row.entry.partition_id id row.entry.app_id (some row) t.by_partition p k app
      ≡ placed p app (set_by_id id (some row) t.by_id k)
set-InSync t id row sync elsewhere p k app =
    let before = sync p k app in
    let none_there = elsewhere p app in
    let key = text_eq_sound id k in
    elim (Bool-cases (text_eq id k)) [
      | inl same ↦
          let e = key same in
          elim (Bool-cases (row.entry.partition_id == p)) [
            | inl y ↦ elim (Bool-cases (text_eq row.entry.app_id app)) [
              | inl z ↦ rw (same, y, z) refl
              | inr z ↦ let h = none_there (rw (y, z) refl) in rw (same, y, z) cc
            ]
            | inr y ↦ let h = none_there (rw y refl) in rw (same, y) cc
          ]
      | inr other ↦ elim (Bool-cases (row.entry.partition_id == p)) [
        | inl y ↦ rw (other, y) before
        | inr y ↦ rw (other, y) before
      ]
    ]

module _ {t : Tables} {id : Text} {s : Schedule} (h : Holds id s t) where
  pub held-id : s.schedule_id ≡ id
  held-id = ap (λ r. r.schedule_id) h.read_as

  held-partition : s.partition_id ≡ h.row.entry.partition_id
  held-partition = ap (λ r. r.partition_id) h.read_as

  held-app : s.app_id ≡ h.row.entry.app_id
  held-app = ap (λ r. r.app_id) h.read_as

  pub held-status : s.status ≡ h.row.entry.status
  held-status = ap (λ r. r.status) h.read_as

  pub held-there : t.by_id s.schedule_id ≡ some h.row
  held-there = rw held-id h.there

  -- The row is in no other place.
  held-elsewhere :
      (p : ℕ) (app : Text)
      → (h.row.entry.partition_id == p && text_eq h.row.entry.app_id app) ≡ false
      → placed p app (t.by_id s.schedule_id) ≡ none
  held-elsewhere p app apart = rw (held-there, apart) refl

  held-placed : InSync t → t.by_partition s.partition_id s.schedule_id s.app_id ≡ some h.row
  held-placed sync =
      rw (sync s.partition_id s.schedule_id s.app_id, held-there)
        (rw
          (
            held-partition,
            held-app,
            ==_self h.row.entry.partition_id,
            text_eq_self h.row.entry.app_id,
          )
          refl)

  marked-InSync : (status : Status) → InSync t → InSync (set_recurring_status s status t)
  unfolding set_recurring_status with_status
  marked-InSync status sync p k app =
      rw (held-placed sync, held-there)
        (rw (held-partition, held-app)
          (set-InSync t s.schedule_id
            (record h.row { entry = record h.row.entry { status = status } }) sync held-elsewhere p
            k app))

Same-InSync : (t u : Tables) → Same t u → InSync t → InSync u
Same-InSync t u (e, f) sync p id app = rw (e, f) (sync p id app)

-- A step keeps the two tables of recurring schedules in step: the table by partition has exactly the
-- rows of the table by id, each under its own partition and app.
pub Step-InSync : (t u : Tables) → Step t u → InSync t → InSync u
unfolding insert_recurring
Step-InSync t u (quiet same) sync = Same-InSync t u same sync
Step-InSync t u (inserting s fresh same) sync =
    Same-InSync (insert_recurring s scheduled t) u same
      (set-InSync t s.schedule_id (recurring_row s scheduled) sync (λ p app _. rw fresh refl))
Step-InSync t u (marking id s status holds move same) sync =
    Same-InSync (set_recurring_status s status t) u same (marked-InSync holds status sync)
Step-InSync t u (replacing id s new holds key partition app status same) sync =
    Same-InSync (insert_recurring new new.status t) u same (
      set-InSync t new.schedule_id (recurring_row new new.status) sync (λ p a apart. rw key (
        held-elsewhere holds p a
          (rw (sym (held-partition holds), sym (held-app holds), sym partition, sym app) apart))))
