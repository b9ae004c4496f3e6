-- ===== src/Service/Transitions.antt =====
-- service/post.go, service/delete.go, service/pause.go, service/resume.go and
-- service/update_recurring_schedule.go, as steps of the tables.
use goscheduler.Shared.{
  ℕ, ◌≡◌, refl, sym, ap, Option, none, some, Bool, true, false, not, inl, inr, Bool-cases,
}
use mathlib.Core.Path.{subst}
use mathlib.Core.Option.{some-injective}
use goscheduler.Shared.Int.{ℤ}
use goscheduler.Shared.Text.{Text, text_eq}
use goscheduler.Shared.Dict.{text_eq_sound}
use goscheduler.Store.App.{App, Configuration}
use goscheduler.Store.Schedule.{Schedule, scheduled, deleted, paused}
use goscheduler.Store.Partition.{set_fields}
use goscheduler.Store.Validation.{validate_schedule}
use goscheduler.Schedules.Session.{Tables}
use goscheduler.Schedules.Rows.{create_schedule}
use goscheduler.Schedules.Recurring.{update_recurring_schedule_status, update_recurring_schedule}
use goscheduler.Schedules.Steps.{Holds, Moves, pausing, resuming, quiet}
use goscheduler.Schedules.Changes.{
  create_schedule-Step, delete_schedule-Step, update_status-Step, update_recurring-Step,
}
use goscheduler.Service.Lifecycle.{
  Reply, good, bad, crashed, hangs, World, H, continue, ◌>>=◌, ◌>>◌, give, refuse_if, on_schedules,
  get_active_app, accepted, or_crash, home, persisted, create, post, get_recurring, cancel,
  pause_found, pause, resume, with_app, Given, absent, invalid, given, validate_existing,
  validate_immutable_fields, update_schedule_fields, or_refuse, update,
}
use goscheduler.Service.Errors.{unprocessable_entity}
use goscheduler.Service.Calm.{
  still, bind-MovesAt, on_schedules-MovesAt, bind-Calm, guard-Calm, active-Calm, accepted-Calm,
  home-Calm, or_crash-Calm, or_crash_lem, or_refuse-Calm, or_refuse_lem, refuse_if_lem,
  set_fields-id, Moved, Calm, MovesAt,
}
use goscheduler.Service.Finding.{get_recurring-Calm, continue-good, get_recurring-Holds}

-- A new schedule under an id that is not in the table.
pub create-Moved :
    (now : ℤ) (conf : Configuration) (cron_app uuid : Text) (input : Schedule) (w : World)
    → w.session.tables.by_id uuid ≡ none
    → Moved w (create now conf cron_app uuid input w)
unfolding create
create-Moved now conf cron_app uuid input w fresh =
    let t : Tables = w.session.tables in
    bind-MovesAt t (get_active_app input.app_id) _ (active-Calm input.app_id)
      (λ app _ _ _.
        bind-MovesAt t (accepted _ (validate_schedule now app conf input)) _
          (accepted-Calm _ (validate_schedule now app conf input))
          (λ _ _ _ _.
            bind-MovesAt t (home cron_app input app) _ (home-Calm cron_app input app) (λ at _ _ _.
              bind-MovesAt t (or_crash (set_fields uuid at input)) _
                (or_crash-Calm (set_fields uuid at input))
                (λ s v _ made.
                  let key = set_fields-id uuid at input s (or_crash_lem _ v s made) in
                  on_schedules-MovesAt persisted t (create_schedule s)
                    (λ d e. create_schedule-Step s d (rw (key, e) fresh))))))
      w refl

pub post-Moved :
    (now : ℤ) (conf : Configuration) (cron_app uuid : Text) (input : Option Schedule) (w : World)
    → w.session.tables.by_id uuid ≡ none
    → Moved w (post now conf cron_app uuid input w)
unfolding post
post-Moved now conf cron_app uuid none w fresh = quiet (refl, refl)
post-Moved now conf cron_app uuid (some input) w fresh =
    create-Moved now conf cron_app uuid input w fresh

not-false : (b : Bool) → not b ≡ false → b ≡ true
not-false true e = refl
not-false false e = absurd cc

-- A handler that goes on with the recurring schedule that it found.
found-MovesAt :
    {A : Type 0} (id : Text) (t : Tables) (f : Schedule → H A)
    → ((s : Schedule) → Holds id s t → MovesAt t (f s))
    → MovesAt t (get_recurring id >>= f)
found-MovesAt id t f h =
    bind-MovesAt t (get_recurring id) f (get_recurring-Calm id)
      (λ s v e found. h s (get_recurring-Holds id t v s e found))

-- A test that refuses unless the status is the one given.
status-MovesAt :
    {A : Type 0} (t : Tables) (a b : Text) (code : ℕ) (m : H A)
    → (a ≡ b → MovesAt t m)
    → MovesAt t (refuse_if (not (text_eq a b)) code >> m)
status-MovesAt t a b code m h =
    bind-MovesAt t (refuse_if (not (text_eq a b)) code) (λ _. m) (λ w. refl)
      (λ _ v _ passed. h (text_eq_sound a b (not-false (text_eq a b) (refuse_if_lem _ code v cc))))

module _ (now : ℤ) (flush_period : ℕ) where
  set_status-MovesAt :
      (id : Text) (t : Tables) (s : Schedule) (status : Text)
      → Holds id s t
      → Moves s.status status
      → MovesAt t
          (on_schedules persisted (update_recurring_schedule_status now flush_period s status))
  set_status-MovesAt id t s status holds move =
      on_schedules-MovesAt persisted t (update_recurring_schedule_status now flush_period s status)
        (λ d e.
          update_status-Step now flush_period id s status d (subst (Holds id s) (sym e) holds) move)

  pub cancel-Moved : (id : Option Text) (w : World) → Moved w (cancel now flush_period id w)
  unfolding cancel
  cancel-Moved none w = quiet (refl, refl)
  cancel-Moved (some id) w = delete_schedule-Step now flush_period id w.session

  pause_found-MovesAt :
      (id : Text) (t : Tables) (s : Schedule)
      → Holds id s t
      → MovesAt t (pause_found now flush_period s)
  pause_found-MovesAt id t s holds v e = elim (Bool-cases (text_eq s.status paused)) [
    | inl y ↦ rw y (still e)
    | inr n ↦ rw n (
        status-MovesAt t s.status scheduled unprocessable_entity _
          (λ same. set_status-MovesAt id t s paused holds (pausing same refl)) v e)
  ]

  pub pause-Moved : (id : Option Text) (w : World) → Moved w (pause now flush_period id w)
  unfolding pause
  pause-Moved none w = quiet (refl, refl)
  pause-Moved (some id) w =
      found-MovesAt id w.session.tables _ (pause_found-MovesAt id w.session.tables) w refl

  pub resume-Moved : (id : Option Text) (w : World) → Moved w (resume now flush_period id w)
  unfolding resume
  resume-Moved none w = quiet (refl, refl)
  resume-Moved (some id) w =
      let t : Tables = w.session.tables in
      found-MovesAt id t _
        (λ s holds.
          status-MovesAt t s.status paused _ _
            (λ same. set_status-MovesAt id t s scheduled holds (resuming same refl)))
        w refl

paired :
    (s' s : Schedule) (app : App) (r : Reply App × World)
    → (continue {B = Schedule × App} (λ found. give (s', found)) r).0 ≡ good (s, app)
    → s' ≡ s
paired s' s app (good a, w) e = cc
paired s' s app (bad code, w) e = absurd cc
paired s' s app (crashed, w) e = absurd cc
paired s' s app (hangs, w) e = absurd cc

guard_lem :
    {A : Type 0} (b : Bool) (code : ℕ) (m : H A) (w : World) (a : A)
    → ((refuse_if b code >> m) w).0 ≡ good a
    → (m w).0 ≡ good a
guard_lem true code m w a e = absurd cc
guard_lem false code m w a e = e

field {ℓ} : {B : Type ℓ} (f : Schedule → B) {a b : Schedule} → some a ≡ some b → f b ≡ f a
field f {a} {b} e = ap f (sym (some-injective a b e))

-- The fields of an update leave the key and the status.
update_schedule_fields-keys :
    (input : Schedule) (callback : Given) (s new : Schedule)
    → update_schedule_fields input callback s ≡ some new
    → (new.schedule_id ≡ s.schedule_id)
      × (new.partition_id ≡ s.partition_id)
      × (new.app_id ≡ s.app_id)
      × (new.status ≡ s.status)
unfolding update_schedule_fields
update_schedule_fields-keys input absent s new e = (
  field (λ r. r.schedule_id) e,
  field (λ r. r.partition_id) e,
  field (λ r. r.app_id) e,
  field (λ r. r.status) e,
)
update_schedule_fields-keys input invalid s new e = absurd cc
update_schedule_fields-keys input (given c) s new e = (
  field (λ r. r.schedule_id) e,
  field (λ r. r.partition_id) e,
  field (λ r. r.app_id) e,
  field (λ r. r.status) e,
)

validate_existing-Holds :
    (id : Text) (t : Tables) (v : World) (s : Schedule) (app : App)
    → v.session.tables ≡ t
    → (validate_existing id v).0 ≡ good (s, app)
    → Holds id s t
unfolding validate_existing
validate_existing-Holds id t v s app e found =
    let (s', first, rest) = continue-good with_app (get_recurring id v) (s, app) found in
    let same = paired s' s app (get_active_app s'.app_id (get_recurring id v).1) (
      guard_lem (text_eq s'.status deleted) unprocessable_entity _ (get_recurring id v).1 (s, app)
        rest) in
    get_recurring-Holds id t v s e cc

with_app-Calm : (s : Schedule) → Calm (with_app s)
with_app-Calm s =
    guard-Calm (text_eq s.status deleted) _ _
      (bind-Calm (get_active_app s.app_id) _ (active-Calm s.app_id) (λ app v. refl))

validate_existing-Calm : (id : Text) → Calm (validate_existing id)
unfolding validate_existing
validate_existing-Calm id =
    bind-Calm (get_recurring id) with_app (get_recurring-Calm id) with_app-Calm

pub update-Moved :
    (seconds now : ℤ) (flush_period : ℕ) (conf : Configuration) (id : Option Text)
    (body : Option (Schedule × Given)) (w : World)
    → Moved w (update seconds now flush_period conf id body w)
unfolding update
update-Moved seconds now flush_period conf none body w = quiet (refl, refl)
update-Moved seconds now flush_period conf (some id) none w = quiet (refl, refl)
update-Moved seconds now flush_period conf (some id) (some (input, callback)) w =
    let t : Tables = w.session.tables in
    bind-MovesAt t (validate_existing id) _ (validate_existing-Calm id)
      (λ (s, app) v e found.
        let holds = validate_existing-Holds id t v s app e found in
        bind-MovesAt t (refuse_if (not (validate_immutable_fields input s)) _) _ (λ _. refl)
          (λ _ _ _ _.
            bind-MovesAt t (or_refuse _ (update_schedule_fields input callback s)) _
              (or_refuse-Calm _ (update_schedule_fields input callback s))
              (λ new u _ made.
                let (key, partition, app_same, status) =
                  update_schedule_fields-keys input callback s new (or_refuse_lem _ _ u new made) in
                bind-MovesAt t (accepted _ (validate_schedule seconds app conf new)) _
                  (accepted-Calm _ (validate_schedule seconds app conf new))
                  (λ _ _ _ _.
                    on_schedules-MovesAt persisted t
                      (update_recurring_schedule now flush_period new)
                      (λ d e.
                        update_recurring-Step now flush_period id s new d
                          (subst (Holds id s) (sym e) holds) key partition app_same status)))))
      w refl
