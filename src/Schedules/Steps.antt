-- ===== src/Schedules/Steps.antt =====
-- The changes that dao/schedule_dao_impl.go makes to the two tables of recurring schedules, as a step
-- relation on the tables.
use goscheduler.Shared.{
  ℕ, List, [], ◌∷◌, ◌≡◌, refl, ap, sym, if◌then◌else◌, Option, none, some, Bool, true, false, ◌⊎◌,
  inl, inr,
}
use mathlib.Core.Path.{subst}
use goscheduler.Shared.Int.{ℤ}
use goscheduler.Shared.Text.{Text}
use goscheduler.Store.Schedule.{Schedule, Status, scheduled, deleted, paused, is_recurring}
use goscheduler.Dao.Session.{Reply, served, failed, lost, Result, ok, err, not_found, no_json}
use goscheduler.Schedules.Session.{
  Row, Tables, Session, M, pure, continue, ◌>>◌, next_reply, reply_read, reply_write, read, write,
  same_schedule, same_run, remove_row,
}
use goscheduler.Schedules.Rows.{
  insert_recurring, get_recurring_schedule, get_one_time_schedule, get_schedule, or_recurring,
  decoded, keyed, one_time_columns, first_with,
}
use goscheduler.Schedules.Recurring.{
  set_recurring_status, delete_from_schedules, delete_from_runs, all_future_runs,
}

-- The schedule that the row of the id holds.
pub record Holds (id : Text) (s : Schedule) (t : Tables) : Type 0 where
  pub row : Row
  pub there : t.by_id id ≡ some row
  pub read_as : s ≡ record row.entry { schedule_id = id }

-- The changes of status.
pub data Moves (a b : Status) : Type 0 where
  pausing : a ≡ scheduled → b ≡ paused → Moves a b
  resuming : a ≡ paused → b ≡ scheduled → Moves a b
  deleting : b ≡ deleted → Moves a b

-- The same two tables.
abbrev pub Same : Tables → Tables → Type 0
Same t u = (u.by_id ≡ t.by_id) × (u.by_partition ≡ t.by_partition)

pub data Step (t u : Tables) : Type 0 where
  quiet : Same t u → Step t u
  inserting :
      (s : Schedule)
      → t.by_id s.schedule_id ≡ none
      → Same (insert_recurring s scheduled t) u
      → Step t u
  marking :
      (id : Text) (s : Schedule) (status : Status)
      → Holds id s t
      → Moves s.status status
      → Same (set_recurring_status s status t) u
      → Step t u
  replacing :
      (id : Text) (s new : Schedule)
      → Holds id s t
      → new.schedule_id ≡ s.schedule_id
      → new.partition_id ≡ s.partition_id
      → new.app_id ≡ s.app_id
      → new.status ≡ s.status
      → Same (insert_recurring new new.status t) u
      → Step t u

-- What a call that only reads leaves.
abbrev pub Reads : {A : Type 0} → M A → Type 0
Reads m = (d : Session) → (m d).1.tables ≡ d.tables

next_reply-tables :
    (t : Tables) (rs : List Reply) → (next_reply record { tables = t; replies = rs }).1.tables ≡ t
next_reply-tables t [] = refl
next_reply-tables t (r ∷ rs) = refl

reply_read-tables :
    {A : Type 0} (f : Tables → Result A) (r : Reply × Session)
    → (reply_read f r).1.tables ≡ r.1.tables
reply_read-tables f (served, d) = refl
reply_read-tables f (failed, d) = refl
reply_read-tables f (lost, d) = refl

read-Reads : {A : Type 0} (f : Tables → Result A) → Reads (read f)
read-Reads f d = rw (reply_read-tables f (next_reply d)) (next_reply-tables d.tables d.replies)

reply_read_lem :
    {A : Type 0} (f : Tables → Result A) (r : Reply × Session) (a : A)
    → (reply_read f r).0 ≡ ok a
    → f r.1.tables ≡ ok a
reply_read_lem f (served, d) a e = e
reply_read_lem f (failed, d) a e = absurd cc
reply_read_lem f (lost, d) a e = absurd cc

read_lem :
    {A : Type 0} (f : Tables → Result A) (d : Session) (a : A)
    → (read f d).0 ≡ ok a
    → f d.tables ≡ ok a
read_lem f d a e =
    let answer = reply_read_lem f (next_reply d) a e in
    let same = next_reply-tables d.tables d.replies in cc

reply_write_lem :
    (f : Tables → Tables) (r : Reply × Session)
    → ((reply_write f r).1.tables ≡ f r.1.tables) ⊎ ((reply_write f r).1.tables ≡ r.1.tables)
reply_write_lem f (served, d) = inl refl
reply_write_lem f (failed, d) = inr refl
reply_write_lem f (lost, d) = inl refl

write_lem :
    (f : Tables → Tables) (d : Session)
    → ((write f d).1.tables ≡ f d.tables) ⊎ ((write f d).1.tables ≡ d.tables)
write_lem f d =
    let same = next_reply-tables d.tables d.replies in
    elim (reply_write_lem f (next_reply d)) [ inl e ↦ inl cc | inr e ↦ inr cc ]

-- A write makes a step, or nothing.
write-Step :
    (f : Tables → Tables) (d : Session)
    → Step d.tables (f d.tables)
    → Step d.tables (write f d).1.tables
write-Step f d step = elim (write_lem f d) [ inl e ↦ rw e step | inr e ↦ rw e (quiet (refl, refl)) ]

continue-pure : {A B : Type 0} (b : B) (r : Result A × Session) → (continue (λ _. pure b) r).1 ≡ r.1
continue-pure b (ok a, d) = refl
continue-pure b (err e, d) = refl

-- What follows a write changes nothing.
pub then_pure-Step :
    {A : Type 0} (f : Tables → Tables) (a : A) (d : Session)
    → Step d.tables (f d.tables)
    → Step d.tables ((write f >> pure a) d).1.tables
then_pure-Step f a d step = rw (continue-pure a (write f d)) (write-Step f d step)

pub delete_from_schedules-Same :
    (runs : List Schedule) (t : Tables) → Same t (delete_from_schedules runs t)
unfolding delete_from_schedules
delete_from_schedules-Same [] t = (refl, refl)
delete_from_schedules-Same (run ∷ runs) t =
    delete_from_schedules-Same runs
      (record t { one_time = remove_row same_schedule run t.one_time })

delete_from_runs-Same :
    (id : Text) (runs : List Schedule) (t : Tables) → Same t (delete_from_runs id runs t)
unfolding delete_from_runs
delete_from_runs-Same id [] t = (refl, refl)
delete_from_runs-Same id (run ∷ runs) t =
    delete_from_runs-Same id runs
      (record t { runs = remove_row same_run (record run { parent_schedule_id = id }) t.runs })

pub both-Same :
    (id : Text) (runs : List Schedule) (t : Tables)
    → Same t (delete_from_schedules runs (delete_from_runs id runs t))
both-Same id runs t =
    let (a, b) = delete_from_schedules-Same runs (delete_from_runs id runs t) in
    let (c, d) = delete_from_runs-Same id runs t in (cc, cc)

-- The future runs are read, whatever the replies.
pub all_future_runs_lem :
    (now : ℤ) (flush_period : ℕ) (id : Text) (d : Session)
    → (runs : List Schedule) × (e : Session) × (all_future_runs now flush_period id d
        ≡ (ok runs, e))
      × (e.tables ≡ d.tables)
unfolding all_future_runs
all_future_runs_lem now flush_period id d = (_, _, refl, read-Reads ok d)

keyed_lem :
    (id : Text) (s entry : Schedule) (b : Bool)
    → keyed id (if b then ok entry else err no_json) ≡ ok s
    → s ≡ record entry { schedule_id = id }
keyed_lem id s entry true e = cc
keyed_lem id s entry false e = absurd cc

row_read :
    (id : Text) (s : Schedule) (o : Option Row) (t : Tables)
    → t.by_id id ≡ o
    → keyed id (decoded o) ≡ ok s
    → Holds id s t
row_read id s none t there e = absurd cc
row_read id s (some row) t there e = record {
  row = row;
  there = there;
  read_as = keyed_lem id s row.entry row.decodes e;
}

-- The schedule that a change finds.
get_recurring-Holds :
    (id : Text) (d : Session) (s : Schedule)
    → (get_recurring_schedule id d).0 ≡ ok s
    → Holds id s d.tables
unfolding get_recurring_schedule
get_recurring-Holds id d s e =
    row_read id s (d.tables.by_id id) d.tables refl
      (read_lem (λ t. keyed id (decoded (t.by_id id))) d s e)

cron_of : Result Schedule → Text
cron_of (ok s) = s.cron_expression
cron_of (err e) = []

-- A schedule of the one-time table has no cron expression.
one_time_no_cron :
    (s : Schedule) (r : Result Schedule) → one_time_columns r ≡ ok s → is_recurring s ≡ false
unfolding is_recurring cron_of
one_time_no_cron s (ok found) e =
    let none_there : [] ≡ s.cron_expression = ap (λ r. cron_of r) e in rw (sym none_there) refl
one_time_no_cron s (err e') e = absurd cc

fallback :
    (id : Text) (r : Result Schedule × Session)
    → ((s : Schedule) → r.0 ≡ ok s → is_recurring s ≡ false)
    → ((or_recurring id r.0 r.1).1.tables ≡ r.1.tables)
      × ((s : Schedule)
          → (or_recurring id r.0 r.1).0 ≡ ok s
          → is_recurring s ≡ true
          → Holds id s r.1.tables)
unfolding get_recurring_schedule
fallback id (ok s, d) h = (refl, λ s' e k. absurd (let no = h s' e in cc))
fallback id (err not_found, d) h =
    (read-Reads (λ t. keyed id (decoded (t.by_id id))) d, λ s e k. get_recurring-Holds id d s e)
fallback id (err e', d) h = (refl, λ s e k. absurd cc)

-- `GetSchedule` changes nothing, and a recurring schedule that it finds is in the table.
pub get_schedule-Holds :
    (id : Text) (d : Session)
    → ((get_schedule id d).1.tables ≡ d.tables)
      × ((s : Schedule)
          → (get_schedule id d).0 ≡ ok s
          → is_recurring s ≡ true
          → Holds id s d.tables)
unfolding get_schedule get_one_time_schedule
get_schedule-Holds id d =
    let f = λ (t : Tables). one_time_columns (decoded (first_with id t.one_time)) in
    let same = read-Reads f d in
    let (kept, holds) =
      fallback id (read f d) (λ s e.
        one_time_no_cron s (decoded (first_with id d.tables.one_time)) (read_lem f d s e)) in
    (cc, λ s e k. subst (Holds id s) same (holds s e k))
