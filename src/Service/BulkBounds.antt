-- ===== src/Service/BulkBounds.antt =====
-- service/bulk_action.go and service/get_app_schedules.go: what is accepted, and how much of it.
use goscheduler.Shared.{
  ℕ, zero, suc, ◌+◌, ◌*◌, ◌^◌, ◌≤◌, ◌<◌, List, [], ◌∷◌, ◌≡◌, refl, ap, arith, Option, none, some,
  Bool, true, false, inl, inr, ◌⊎◌, length, length-append,
}
use mathlib.Core.Path.{subst}
use goscheduler.Shared.Int.{ℤ, pos, sub64, sub64_pos, ltb_ℤ}
use goscheduler.Shared.Text.{Text, text_eq}
use goscheduler.Schedules.Session.{Session}
use goscheduler.Service.Errors.{invalid_app_id, invalid_data}
use goscheduler.Store.App.{App}
use goscheduler.Store.Schedule.{Status}
use goscheduler.Dao.Session.{Result, Error, Dao}
use goscheduler.Dao.Apps.{get_app}
use goscheduler.Schedules.BulkActing.{ActionType, reconciles, deletes, other}
use goscheduler.Schedules.Windows.{Range, time_stamps}
use goscheduler.Schedules.Minutes.{length-time_stamps}
use goscheduler.Service.Lifecycle.{good, World, H, give, coded, continue, refuse_if, ◌>>◌}
use goscheduler.Service.Finding.{continue-good}
use goscheduler.Service.Listings.{get_active_or_inactive_app, or_invalid}
use goscheduler.Service.Queries.{Parameters, Texts, AppQuery, range_of, parse, ◌>>=◌, page_state_of}
use goscheduler.Service.BulkActions.{
  BulkActionTask, partition_tasks, tasks_under, push_bulk_action_queries, max_bulk_action_period,
  is_other, action_of, execute_bulk_action, bulk_action,
}

chosen :
    (texts : Texts) (p : Parameters) (q : AppQuery) (state : Option (Option ℕ)) (size : Option ℤ)
    (range : Option Range)
    → (do
      state ← state
      size ← size
      range ← range
      some (record {
        size = size;
        status = p.status;
        time_range = range;
        page_state = state;
        continuation = texts.parsed p.continuation_start_time;
      }))
      ≡ some q
    → (range ≡ some q.time_range) × (q.status ≡ p.status)
chosen texts p q none size range e = absurd cc
chosen texts p q (some a) none range e = absurd cc
chosen texts p q (some a) (some b) none e = absurd cc
chosen texts p q (some a) (some b) (some c) e = (cc, cc)

parse-range :
    (texts : Texts) (now : ℤ) (p : Parameters) (q : AppQuery)
    → parse texts now p ≡ some q
    → (range_of texts now p.start_time p.end_time ≡ some q.time_range) × (q.status ≡ p.status)
unfolding parse
parse-range texts now p q e =
    chosen texts p q (page_state_of texts p.continuation_token) _
      (range_of texts now p.start_time p.end_time) e

found_query :
    (o : Option AppQuery) (w : World) (q : AppQuery)
    → (or_invalid o w).0 ≡ good q
    → (o ≡ some q) × ((or_invalid o w).1 ≡ w)
found_query none w q e = absurd cc
found_query (some a) w q e = (cc, refl)

-- Past a guard that does not end the handler.
passed :
    {A : Type 0} (b : Bool) (code : ℕ) (m : H A) (w : World) (a : A)
    → ((refuse_if b code >> m) w).0 ≡ good a
    → (b ≡ false) × ((m w).0 ≡ good a)
passed true code m w a e = absurd cc
passed false code m w a e = (refl, e)

both_passed :
    {A : Type 0} (b c : Bool) (code : ℕ) (m : H A) (w : World) (a : A)
    → (((refuse_if b code >> refuse_if c code) >> m) w).0 ≡ good a
    → (b ≡ false) × (c ≡ false) × ((m w).0 ≡ good a)
both_passed true c code m w a e = absurd cc
both_passed false true code m w a e = absurd cc
both_passed false false code m w a e = (refl, refl, e)

found_app :
    (code : Error → ℕ) (r : Result App × Dao) (s : Session) (app : App)
    → (continue
        (λ app. refuse_if (text_eq app.app_id []) invalid_app_id >> give app)
        (coded code r.0, record { dao = r.1; session = s })).0
      ≡ good app
    → r.0 ≡ Result.ok app
found_app code (Result.err x, d) s app e = absurd cc
found_app code (Result.ok a, d) s app e =
    let (known, same) =
      passed (text_eq a.app_id []) invalid_app_id (give a) (record { dao = d; session = s }) app
        e in
    cc

pub get_active_or_inactive_app-good :
    (id : Text) (w : World) (app : App)
    → (get_active_or_inactive_app id w).0 ≡ good app
    → (get_app id w.dao).0 ≡ Result.ok app
unfolding get_active_or_inactive_app
get_active_or_inactive_app-good id w app e = found_app _ (get_app id w.dao) w.session app e

bulk_action-good :
    (texts : Texts) (now : ℤ) (id action : Text) (p : Parameters) (w : World)
    (tasks : List BulkActionTask)
    → (bulk_action texts now id action p w).0 ≡ good tasks
    → (app : App) × (range : Range) × (range_of texts now p.start_time p.end_time ≡ some range)
      × (is_other (action_of action) ≡ false)
      × ((get_app id w.dao).0 ≡ Result.ok app)
      × (ltb_ℤ range.end_time range.start_time ≡ false)
      × (ltb_ℤ max_bulk_action_period (sub64 range.end_time range.start_time) ≡ false)
      × (tasks ≡ push_bulk_action_queries app range p.status (action_of action))
unfolding bulk_action execute_bulk_action
bulk_action-good texts now id action p w tasks e =
    let (q, found, rest) = continue-good _ (or_invalid (parse texts now p) w) tasks e in
    let (parsed, same) = found_query (parse texts now p) w q found in
    let (range, status) = parse-range texts now p q parsed in
    let (named, rest2) = passed (is_other (action_of action)) _ _ _ tasks rest in
    let (app, known, rest3) =
      continue-good _ (get_active_or_inactive_app id (or_invalid (parse texts now p) w).1) tasks
        rest2 in
    let (ordered, short, rest4) =
      both_passed (ltb_ℤ q.time_range.end_time q.time_range.start_time)
        (ltb_ℤ max_bulk_action_period (sub64 q.time_range.end_time q.time_range.start_time))
        invalid_data (give (push_bulk_action_queries app q.time_range q.status (action_of action)))
        (get_active_or_inactive_app id (or_invalid (parse texts now p) w).1).1 tasks rest3 in
    let there : (get_app id w.dao).0 ≡ Result.ok app =
      subst (λ v. (get_app id v.dao).0 ≡ Result.ok app) same
        (get_active_or_inactive_app-good id (or_invalid (parse texts now p) w).1 app known) in
    (app, q.time_range, range, named, there, ordered, short, cc)

known_action : (a : ActionType) → is_other a ≡ false → (a ≡ reconciles) ⊎ (a ≡ deletes)
known_action reconciles e = inl refl
known_action deletes e = inr refl
known_action other e = absurd cc

length-partition_tasks :
    (app : App) (status : Status) (action : ActionType) (times : List ℤ) (partition : ℕ)
    → length (partition_tasks app status action times partition) ≡ length times
length-partition_tasks app status action [] partition = refl
length-partition_tasks app status action (t ∷ times) partition =
    ap suc (length-partition_tasks app status action times partition)

length-tasks_under :
    (app : App) (status : Status) (action : ActionType) (times : List ℤ) (partitions : ℕ)
    → length times ≤ 10080
    → length (tasks_under app status action times partitions) ≤ partitions * 10080
unfolding tasks_under
length-tasks_under app status action times zero few = omega arith
length-tasks_under app status action times (suc p) few = omega (
  arith,
  length-append (tasks_under app status action times p) (partition_tasks app status action times p),
  length-partition_tasks app status action times p,
  length-tasks_under app status action times p few,
)

-- If a bulk action is accepted, and its range is one of seconds from 0 on that does not end within a
-- minute of 2 ^ 63: the app is known, active or not; the action is a known one; the range does not end
-- before its start, nor more than seven days after it; and what is pushed is the tasks of the app for
-- the range, the status asked for and the action, at most 10080 for each partition.
pub bulk_action_good_lem :
    (texts : Texts) (now : ℤ) (id action : Text) (p : Parameters) (w : World)
    (tasks : List BulkActionTask) (start end : ℕ)
    → range_of texts now p.start_time p.end_time
      ≡ some (record { start_time = pos start; end_time = pos end })
    → end + 60 < 2 ^ 63
    → (bulk_action texts now id action p w).0 ≡ good tasks
    → (app : App) × ((get_app id w.dao).0 ≡ Result.ok app)
      × ((action_of action ≡ reconciles) ⊎ (action_of action ≡ deletes))
      × (start ≤ end)
      × (end ≤ start + 604800)
      × (tasks
          ≡ push_bulk_action_queries app
              (record { start_time = pos start; end_time = pos end })
              p.status
              (action_of action))
      × (length tasks ≤ app.partitions * 10080)
unfolding push_bulk_action_queries
bulk_action_good_lem texts now id action p w tasks start end parsed small e =
    let (app, range, found, named, known, ordered, short, all) =
      bulk_action-good texts now id action p w tasks e in
    let same : range ≡ record { start_time = pos start; end_time = pos end } = cc in
    let order : ltb_ℤ (pos end) (pos start) ≡ false =
      subst (λ (r : Range). ltb_ℤ r.end_time r.start_time ≡ false) same ordered in
    let low : start ≤ end = ground arith in
    let week : ltb_ℤ max_bulk_action_period (sub64 (pos end) (pos start)) ≡ false =
      subst (λ (r : Range). ltb_ℤ max_bulk_action_period (sub64 r.end_time r.start_time) ≡ false)
        same short in
    let near : end ≤ start + 604800 = ground (arith, sub64_pos end start low (omega arith), week) in
    let pushed =
      subst (λ r. tasks ≡ push_bulk_action_queries app r p.status (action_of action)) same all in
    let few =
      length-tasks_under app p.status (action_of action) (time_stamps (pos start) (pos end))
        app.partitions (length-time_stamps start end 10080 small (omega arith)) in
    (app, known, known_action (action_of action) named, low, near, pushed, rw pushed few)
