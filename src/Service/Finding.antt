-- ===== src/Service/Finding.antt =====
-- Package service: what the handlers know of the schedule that they found.
use goscheduler.Shared.{ℕ, ◌≡◌, refl, Bool, true, false, not}
use mathlib.Core.Path.{subst}
use goscheduler.Shared.Text.{Text}
use goscheduler.Store.Schedule.{Schedule, is_recurring}
use goscheduler.Dao.Session.{Result, Error, Dao}
use goscheduler.Schedules.Session.{Session, Tables}
use goscheduler.Schedules.Rows.{get_schedule}
use goscheduler.Schedules.Steps.{Holds, get_schedule-Holds}
use goscheduler.Service.Lifecycle.{
  Reply, good, bad, crashed, hangs, World, H, continue, ◌>>◌, give, refuse_if, on_schedules, coded,
  or_not_found, get_recurring,
}
use goscheduler.Service.Errors.{unprocessable_entity}
use goscheduler.Service.Calm.{continue-tables, guard-Calm, Calm}

pub get_recurring-Calm : (id : Text) → Calm (get_recurring id)
get_recurring-Calm id w =
    continue-tables _ w.session.tables (on_schedules (or_not_found _ _) (get_schedule id) w)
      (get_schedule-Holds id w.session).0 (λ s. guard-Calm (not (is_recurring s)) _ _ (λ v. refl))

pub continue-good :
    {A B : Type 0} (f : A → H B) (r : Reply A × World) (b : B)
    → (continue f r).0 ≡ good b
    → (a : A) × (r.0 ≡ good a) × ((f a r.1).0 ≡ good b)
continue-good f (good a, w) b e = (a, refl, e)
continue-good f (bad code, w) b e = absurd cc
continue-good f (crashed, w) b e = absurd cc
continue-good f (hangs, w) b e = absurd cc

pub guarded :
    (a s : Schedule) (b : Bool) (w : World)
    → ((refuse_if (not b) unprocessable_entity >> give a) w).0 ≡ good s
    → (b ≡ true) × (a ≡ s)
guarded a s true w e = (refl, cc)
guarded a s false w e = absurd cc

pub found_recurring :
    (code : Error → ℕ) (s : Schedule) (r : Result Schedule × Session) (d : Dao)
    → (continue
        (λ s. refuse_if (not (is_recurring s)) unprocessable_entity >> give s)
        (coded code r.0, record { dao = d; session = r.1 })).0
      ≡ good s
    → (r.0 ≡ Result.ok s) × (is_recurring s ≡ true)
found_recurring code s (Result.err e', x) d e = absurd cc
found_recurring code s (Result.ok a, x) d e =
    let (y, same) = guarded a s (is_recurring a) record { dao = d; session = x } e in (cc, cc)

pub get_recurring-Holds :
    (id : Text) (t : Tables) (v : World) (s : Schedule)
    → v.session.tables ≡ t
    → (get_recurring id v).0 ≡ good s
    → Holds id s t
get_recurring-Holds id t v s e found =
    let (ok_s, rec) = found_recurring _ s (get_schedule id v.session) v.dao found in
    subst (Holds id s) e ((get_schedule-Holds id v.session).1 s ok_s rec)
