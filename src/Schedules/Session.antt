-- ===== src/Schedules/Session.antt =====
-- What dao/schedule_dao_impl.go works on: the tables of schedules, and a list that says how each
-- coming query ends. A table is a function of its primary key; `schedules` and the runs are lists of
-- rows, since they are read by other keys too. A row does not expire in the model, and a batch is
-- written whole or not at all. The queries of the table of statuses are taken as answered.
use goscheduler.Shared.{ℕ, List, [], ◌∷◌, Option, Bool, true, ◌&&◌, ◌==◌, not, if◌then◌else◌, keep}
use goscheduler.Shared.Int.{eqb_ℤ}
use goscheduler.Shared.Text.{Text, text_eq}
use goscheduler.Store.Schedule.{Schedule, StatusRow}
use goscheduler.Dao.Session.{Reply, served, failed, lost, Result, ok, err, query_failed}

-- `decodes` says whether `CreateScheduleFromCassandraMap` makes a callback of the row.
pub record Row : Type 0 where
  pub entry : Schedule
  pub decodes : Bool

pub record Tables : Type 0 where
  pub one_time : List Row
  pub by_id : Text → Option Row
  pub by_partition : ℕ → Text → Text → Option Row
  pub runs : List Row
  pub statuses : Text → ℕ → Text → Option StatusRow

-- Past the end of `replies` every query is served.
pub record Session : Type 0 where
  pub tables : Tables
  pub replies : List Reply

abbrev pub M : Type 0 → Type 0
M A = Session → Result A × Session

abbrev pub pure : {A : Type 0} → A → M A
pure a d = (ok a, d)

abbrev pub lift : {A : Type 0} → Result A → M A
lift r d = (r, d)

abbrev pub continue : {A B : Type 0} → (A → M B) → Result A × Session → Result B × Session
continue f (ok a, d) = f a d
continue f (err e, d) = (err e, d)

infixl 5 ◌>>=◌
abbrev pub ◌>>=◌ : {A B : Type 0} → M A → (A → M B) → M B
(m >>= f) d = continue f (m d)

infixl 5 ◌>>◌
abbrev pub ◌>>◌ : {A B : Type 0} → M A → M B → M B
(m >> n) d = continue (λ _. n) (m d)

-- What became of a call, kept as a value.
abbrev pub attempt : {A : Type 0} → M A → M (Result A)
attempt m d = (ok (m d).0, (m d).1)

abbrev pub next_reply : Session → Reply × Session
next_reply d = elim d.replies [
  | [] ↦ (served, d)
  | reply ∷ rest ↦ (reply, record { tables = d.tables; replies = rest })
]

abbrev pub reply_read : {A : Type 0} → (Tables → Result A) → Reply × Session → Result A × Session
reply_read f (served, d) = (f d.tables, d)
reply_read f (failed, d) = (err query_failed, d)
reply_read f (lost, d) = (err query_failed, d)

abbrev pub read : {A : Type 0} → (Tables → Result A) → M A
read f d = reply_read f (next_reply d)

abbrev pub reply_write : (Tables → Tables) → Reply × Session → Result (Unit {0}) × Session
reply_write f (served, d) = (ok tt, record { tables = f d.tables; replies = d.replies })
reply_write f (failed, d) = (err query_failed, d)
reply_write f (lost, d) = (err query_failed, record { tables = f d.tables; replies = d.replies })

abbrev pub write : (Tables → Tables) → M (Unit {0})
write f d = reply_write f (next_reply d)

-- Whether two rows of `schedules` have one primary key.
abbrev pub same_schedule : Schedule → Schedule → Bool
same_schedule s r =
    text_eq s.app_id r.app_id
    && s.partition_id == r.partition_id
    && eqb_ℤ s.schedule_group r.schedule_group
    && text_eq s.schedule_id r.schedule_id

-- Whether two rows of `recurring_schedule_runs` have one primary key.
abbrev pub same_run : Schedule → Schedule → Bool
same_run s r =
    text_eq s.parent_schedule_id r.parent_schedule_id && eqb_ℤ s.schedule_group r.schedule_group

-- `INSERT` replaces the row of the same key, `DELETE` removes it.
abbrev pub put_row : (Schedule → Schedule → Bool) → Schedule → List Row → List Row
put_row same s rows = record { entry = s; decodes = true } ∷ keep (λ r. not (same s r.entry)) rows

abbrev pub remove_row : (Schedule → Schedule → Bool) → Schedule → List Row → List Row
remove_row same s rows = keep (λ r. not (same s r.entry)) rows

-- The row of a recurring schedule: a map at one key.
abbrev pub set_by_id : Text → Option Row → (Text → Option Row) → Text → Option Row
set_by_id id new rows k = if text_eq id k then new else rows k

abbrev pub set_by_partition :
    ℕ → Text → Text → Option Row → (ℕ → Text → Text → Option Row) → ℕ → Text → Text → Option Row
set_by_partition p id app new rows q k a =
    if p == q && text_eq id k && text_eq app a then new else rows q k a
