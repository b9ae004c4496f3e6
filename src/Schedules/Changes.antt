-- ===== src/Schedules/Changes.antt =====
-- dao/schedule_dao_impl.go: the changes of a recurring schedule, as steps.
use goscheduler.Shared.{
  ℕ, List, [], ◌∷◌, ◌≡◌, refl, sym, if◌then◌else◌, none, true, inl, inr, Bool-cases,
}
use mathlib.Core.Path.{subst}
use goscheduler.Shared.Int.{ℤ}
use goscheduler.Shared.Text.{Text, text_eq}
use goscheduler.Store.Schedule.{Schedule, Status, scheduled, deleted, paused, is_recurring}
use goscheduler.Dao.Session.{Result, ok, err}
use goscheduler.Schedules.Session.{Tables, Session, M, continue, ◌>>=◌, put_row, same_schedule}
use goscheduler.Schedules.Rows.{
  insert_recurring, get_schedule, create_schedule, create_recurring_schedule,
  create_one_time_schedule, one_time_row,
}
use goscheduler.Schedules.Recurring.{
  set_recurring_status, delete_from_schedules, all_future_runs, delete_recurring_schedule,
  delete_one_time_schedule, delete_schedule, update_recurring_schedule_status,
  update_recurring_schedule,
}
use goscheduler.Schedules.Steps.{
  Holds, Moves, deleting, Step, quiet, inserting, marking, replacing, then_pure-Step,
  delete_from_schedules-Same, both-Same, all_future_runs_lem, get_schedule-Holds,
}

pub create_schedule-Step :
    (s : Schedule) (d : Session)
    → d.tables.by_id s.schedule_id ≡ none
    → Step d.tables (create_schedule s d).1.tables
unfolding create_schedule create_recurring_schedule create_one_time_schedule
create_schedule-Step s d fresh = elim (Bool-cases (is_recurring s)) [
  | inl r ↦ rw r (
      then_pure-Step (insert_recurring s scheduled) (record s { status = scheduled }) d
        (inserting s fresh (refl, refl)))
  | inr o ↦ rw o (
      then_pure-Step
        (λ t. record t { one_time = put_row same_schedule (one_time_row s) t.one_time }) s d
        (quiet (refl, refl)))
]

module _ (now : ℤ) (flush_period : ℕ) where
  after_runs :
      {B : Type 0} (id key : Text) (s : Schedule) (m : List Schedule → M B) (d : Session)
      → Holds id s d.tables
      → ((runs : List Schedule) (e : Session)
          → Holds id s e.tables
          → Step e.tables (m runs e).1.tables)
      → Step d.tables ((all_future_runs now flush_period key >>= m) d).1.tables
  after_runs id key s m d holds step =
      let (runs, e, eq, same) = all_future_runs_lem now flush_period key d in
      rw eq (
        subst (λ t. Step t (m runs e).1.tables) same
          (step runs e (subst (Holds id s) (sym same) holds)))

  delete_recurring-Step :
      (id : Text) (s : Schedule) (d : Session)
      → Holds id s d.tables
      → Step d.tables (delete_recurring_schedule now flush_period s d).1.tables
  unfolding delete_recurring_schedule
  delete_recurring-Step id s d holds = after_runs id s.schedule_id s _ d holds (λ runs e h.
      then_pure-Step (λ t. delete_from_schedules runs (set_recurring_status s deleted t))
        (record s { status = deleted }) e
        (marking id s deleted h (deleting refl)
          (delete_from_schedules-Same runs (set_recurring_status s deleted e.tables))))

  delete_one_time-Step :
      (s : Schedule) (d : Session) → Step d.tables (delete_one_time_schedule s d).1.tables
  unfolding delete_one_time_schedule
  delete_one_time-Step s d =
      then_pure-Step (delete_from_schedules (s ∷ [])) s d
        (quiet (delete_from_schedules-Same (s ∷ []) d.tables))

  delete_found :
      (id : Text) (t : Tables) (r : Result Schedule × Session)
      → r.1.tables ≡ t
      → ((s : Schedule) → r.0 ≡ ok s → is_recurring s ≡ true → Holds id s t)
      → Step t
          (continue
            (λ s.
              if is_recurring s
              then delete_recurring_schedule now flush_period s
              else delete_one_time_schedule s)
            r).1.tables
  delete_found id t (err e, d) same h = subst (λ t. Step t d.tables) same (quiet (refl, refl))
  delete_found id t (ok s, d) same h = elim (Bool-cases (is_recurring s)) [
    | inl y ↦ rw y (
        subst (λ t. Step t (delete_recurring_schedule now flush_period s d).1.tables) same
          (delete_recurring-Step id s d (subst (Holds id s) (sym same) (h s refl y))))
    | inr n ↦ rw n (
        subst (λ t. Step t (delete_one_time_schedule s d).1.tables) same (delete_one_time-Step s d))
  ]

  pub delete_schedule-Step :
      (id : Text) (d : Session) → Step d.tables (delete_schedule now flush_period id d).1.tables
  unfolding delete_schedule
  delete_schedule-Step id d =
      let (same, holds) = get_schedule-Holds id d in
      delete_found id d.tables (get_schedule id d) same holds

  pub update_status-Step :
      (id : Text) (s : Schedule) (status : Status) (d : Session)
      → Holds id s d.tables
      → Moves s.status status
      → Step d.tables (update_recurring_schedule_status now flush_period s status d).1.tables
  unfolding update_recurring_schedule_status
  update_status-Step id s status d holds move = elim (Bool-cases (text_eq status paused)) [
    | inl y ↦ rw y (
        after_runs id s.schedule_id s _ d holds (λ runs e h.
          then_pure-Step _ (record s { status = status }) e
            (marking id s status h move
              (both-Same s.schedule_id runs (set_recurring_status s status e.tables)))))
    | inr n ↦ rw n (
        then_pure-Step _ (record s { status = status }) d
          (marking id s status holds move
            (both-Same s.schedule_id [] (set_recurring_status s status d.tables))))
  ]

  pub update_recurring-Step :
      (id : Text) (s new : Schedule) (d : Session)
      → Holds id s d.tables
      → new.schedule_id ≡ s.schedule_id
      → new.partition_id ≡ s.partition_id
      → new.app_id ≡ s.app_id
      → new.status ≡ s.status
      → Step d.tables (update_recurring_schedule now flush_period new d).1.tables
  unfolding update_recurring_schedule
  update_recurring-Step id s new d holds key partition app status =
      after_runs id new.schedule_id s _ d holds (λ runs e h. then_pure-Step _ new e (
        replacing id s new h key partition app status
          (both-Same new.schedule_id runs (insert_recurring new new.status e.tables))))
