-- ===== src/Schedules/Cleared.antt =====
-- dao/schedule_dao_impl.go: that no future run is left when a recurring schedule is paused or updated.
use goscheduler.Shared.{
  ℕ, List, [], ◌∷◌, ◌≡◌, refl, sym, Bool, true, false, not, inl, inr, All, All-keep, All-mono,
  keep-All, Has,
}
use mathlib.Core.Path.{subst}
use goscheduler.Shared.Int.{ℤ}
use goscheduler.Shared.Text.{Text}
use goscheduler.Shared.Dict.{text_eq_self}
use goscheduler.Store.Schedule.{Schedule, paused, deleted}
use goscheduler.Dao.Session.{ok, failed}
use goscheduler.Schedules.Session.{Row, Tables, same_schedule, same_run, remove_row}
use goscheduler.Schedules.Rows.{insert_recurring}
use goscheduler.Schedules.Runs.{scan, get_filtered_runs, get_future_runs}
use goscheduler.Schedules.RunsPages.{Decodes}
use goscheduler.Schedules.Recurring.{
  set_recurring_status, delete_from_schedules, delete_from_runs, delete_recurring_schedule,
  update_recurring_schedule_status, update_recurring_schedule, all_future_runs,
}
use goscheduler.Schedules.FutureRuns.{SameKeys, Later, finds_run}

not-true : (b : Bool) → not b ≡ true → b ≡ false
not-true true e = absurd cc
not-true false e = refl

removed :
    (same : Schedule → Schedule → Bool) (s : Schedule) (rows : List Row)
    → All (λ (o : Row). same s o.entry ≡ false) (remove_row same s rows)
removed same s rows =
    All-mono (λ (o : Row). not (same s o.entry) ≡ true) (λ (o : Row). same s o.entry ≡ false)
      (λ o e. not-true (same s o.entry) e) (remove_row same s rows)
      (keep-All (λ (o : Row). not (same s o.entry)) rows)

module _ (P : Row → Type 0) where
  kept_in_schedules :
      (runs : List Schedule) (t : Tables)
      → All P t.one_time
      → All P (delete_from_schedules runs t).one_time
  unfolding delete_from_schedules
  kept_in_schedules [] t h = h
  kept_in_schedules (run ∷ runs) t h =
      kept_in_schedules runs (record t { one_time = remove_row same_schedule run t.one_time })
        (All-keep P (λ (o : Row). not (same_schedule run o.entry)) t.one_time h)

  kept_in_runs :
      (id : Text) (runs : List Schedule) (t : Tables)
      → All P t.runs
      → All P (delete_from_runs id runs t).runs
  unfolding delete_from_runs
  kept_in_runs id [] t h = h
  kept_in_runs id (run ∷ runs) t h =
      kept_in_runs id runs
        (record t { runs = remove_row same_run (record run { parent_schedule_id = id }) t.runs })
        (All-keep P (λ (o : Row). not (same_run (record run { parent_schedule_id = id }) o.entry))
          t.runs h)

gone_from_schedules :
    (run : Schedule) (runs : List Schedule) (t : Tables)
    → Has run runs
    → All (λ (o : Row). same_schedule run o.entry ≡ false) (delete_from_schedules runs t).one_time
unfolding delete_from_schedules
gone_from_schedules run [] t h = elim h [ ]
gone_from_schedules run (r ∷ runs) t (inl e) =
    kept_in_schedules (λ (o : Row). same_schedule run o.entry ≡ false) runs
      (record t { one_time = remove_row same_schedule r t.one_time })
      (subst
        (λ q.
          All (λ (o : Row). same_schedule run o.entry ≡ false)
            (remove_row same_schedule q t.one_time))
        e (removed same_schedule run t.one_time))
gone_from_schedules run (r ∷ runs) t (inr h) =
    gone_from_schedules run runs (record t { one_time = remove_row same_schedule r t.one_time }) h

gone_from_runs :
    (id : Text) (run : Schedule) (runs : List Schedule) (t : Tables)
    → Has run runs
    → All
        (λ (o : Row). same_run (record run { parent_schedule_id = id }) o.entry ≡ false)
        (delete_from_runs id runs t).runs
unfolding delete_from_runs
gone_from_runs id run [] t h = elim h [ ]
gone_from_runs id run (r ∷ runs) t (inl e) =
    kept_in_runs (λ (o : Row). same_run (record run { parent_schedule_id = id }) o.entry ≡ false) id
      runs (record t { runs = remove_row same_run (record r { parent_schedule_id = id }) t.runs })
      (subst
        (λ (q : Schedule).
          All (λ (o : Row). same_run (record run { parent_schedule_id = id }) o.entry ≡ false)
            (remove_row same_run (record q { parent_schedule_id = id }) t.runs))
        e (removed same_run (record run { parent_schedule_id = id }) t.runs))
gone_from_runs id run (r ∷ runs) t (inr h) =
    gone_from_runs id run runs
      (record t { runs = remove_row same_run (record r { parent_schedule_id = id }) t.runs }) h

delete_from_schedules-runs :
    (runs : List Schedule) (t : Tables) → (delete_from_schedules runs t).runs ≡ t.runs
unfolding delete_from_schedules
delete_from_schedules-runs [] t = refl
delete_from_schedules-runs (r ∷ runs) t =
    delete_from_schedules-runs runs (record t { one_time = remove_row same_schedule r t.one_time })

same_schedule-keys :
    (a b o : Schedule) → SameKeys a b → same_schedule a o ≡ false → same_schedule b o ≡ false
same_schedule-keys a b o (id, app, partition, group) e =
    rw (sym id, sym app, sym partition, sym group) e

same_run-keys :
    (id : Text) (run s o : Schedule)
    → SameKeys run s
    → s.parent_schedule_id ≡ id
    → same_run (record run { parent_schedule_id = id }) o ≡ false
    → same_run s o ≡ false
same_run-keys id run s o (key, app, partition, group) mine e = rw (mine, sym group) e

-- No row of `schedules` and none of the runs has the key of a run.
abbrev pub Cleared : Schedule → Tables → Type 0
Cleared run t =
    All (λ (o : Row). same_schedule run o.entry ≡ false) t.one_time
    × All (λ (o : Row). same_run run o.entry ≡ false) t.runs

module _ (now : ℤ) (flush_period : ℕ) where
  cleared :
      (id : Text) (run s : Schedule) (runs : List Schedule) (t : Tables)
      → Has run runs
      → SameKeys run s
      → s.parent_schedule_id ≡ id
      → Cleared s (delete_from_schedules runs (delete_from_runs id runs t))
  cleared id run s runs t there keys mine =
      let u = delete_from_runs id runs t in
      (
        All-mono (λ (o : Row). same_schedule run o.entry ≡ false)
            (λ (o : Row). same_schedule s o.entry ≡ false)
            (λ o e. same_schedule-keys run s o.entry keys e) (delete_from_schedules runs u).one_time
            (gone_from_schedules run runs u there),
        rw (delete_from_schedules-runs runs u) (
            All-mono
              (λ (o : Row). same_run (record run { parent_schedule_id = id }) o.entry ≡ false)
              (λ (o : Row). same_run s o.entry ≡ false)
              (λ o e. same_run-keys id run s o.entry keys mine e) u.runs
              (gone_from_runs id run runs t there)),
      )

  -- A row of the runs of a recurring schedule that lies in the future, where all rows of the runs
  -- decode and every query is served: pausing the schedule, or updating it, succeeds and leaves no row
  -- with the key of the run in `schedules` or in the runs; deleting it succeeds and leaves none in
  -- `schedules`.
  pub future_runs_lem :
      (s : Schedule) (t : Tables) (row : Row)
      → All Decodes t.runs
      → Has row t.runs
      → row.entry.parent_schedule_id ≡ s.schedule_id
      → Later now flush_period row.entry
      → ((update_recurring_schedule_status now flush_period s paused
            (record { tables = t; replies = [] })).0
          ≡ ok (record s { status = paused }))
        × Cleared row.entry
            (update_recurring_schedule_status now flush_period s paused
              (record { tables = t; replies = [] })).1.tables
        × ((update_recurring_schedule now flush_period s (record { tables = t; replies = [] })).0
            ≡ ok s)
        × Cleared row.entry
            (update_recurring_schedule now flush_period s
              (record { tables = t; replies = [] })).1.tables
        × ((delete_recurring_schedule now flush_period s (record { tables = t; replies = [] })).0
            ≡ ok (record s { status = deleted }))
        × All
            (λ (o : Row). same_schedule row.entry o.entry ≡ false)
            (delete_recurring_schedule now flush_period s
              (record { tables = t; replies = [] })).1.tables.one_time
  unfolding update_recurring_schedule_status update_recurring_schedule delete_recurring_schedule
  future_runs_lem s t row h there mine late =
      let (runs, run, read_all, listed, keys) =
        finds_run now flush_period t s.schedule_id row h there
          (rw mine (text_eq_self s.schedule_id)) late in
      rw read_all (
        refl,
        cleared s.schedule_id run row.entry runs _ listed keys mine,
        refl,
        cleared s.schedule_id run row.entry runs _ listed keys mine,
        refl,
        All-mono (λ (o : Row). same_schedule run o.entry ≡ false)
            (λ (o : Row). same_schedule row.entry o.entry ≡ false)
            (λ o e. same_schedule-keys run row.entry o.entry keys e)
            (delete_from_schedules runs (set_recurring_status s deleted t)).one_time
            (gone_from_schedules run runs (set_recurring_status s deleted t) listed),
      )

  -- If the query of the runs fails and the write is served, pausing a schedule, updating it and deleting
  -- it all succeed, and the rows of `schedules` and of the runs stay as they are.
  pub failed_read_lem :
      (s : Schedule) (t : Tables)
      → ((update_recurring_schedule_status now flush_period s paused
            (record { tables = t; replies = failed ∷ [] })).0
          ≡ ok (record s { status = paused }))
        × ((update_recurring_schedule_status now flush_period s paused
              (record { tables = t; replies = failed ∷ [] })).1.tables.one_time
            ≡ t.one_time)
        × ((update_recurring_schedule_status now flush_period s paused
              (record { tables = t; replies = failed ∷ [] })).1.tables.runs
            ≡ t.runs)
        × ((update_recurring_schedule now flush_period s
              (record { tables = t; replies = failed ∷ [] })).0
            ≡ ok s)
        × ((update_recurring_schedule now flush_period s
              (record { tables = t; replies = failed ∷ [] })).1.tables.one_time
            ≡ t.one_time)
        × ((update_recurring_schedule now flush_period s
              (record { tables = t; replies = failed ∷ [] })).1.tables.runs
            ≡ t.runs)
        × ((delete_recurring_schedule now flush_period s
              (record { tables = t; replies = failed ∷ [] })).0
            ≡ ok (record s { status = deleted }))
        × ((delete_recurring_schedule now flush_period s
              (record { tables = t; replies = failed ∷ [] })).1.tables.one_time
            ≡ t.one_time)
  unfolding update_recurring_schedule_status update_recurring_schedule delete_recurring_schedule
      all_future_runs get_future_runs get_filtered_runs scan delete_from_schedules delete_from_runs
      insert_recurring set_recurring_status
  failed_read_lem s t = (refl, refl, refl, refl, refl, refl, refl, refl)
