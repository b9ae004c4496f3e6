-- ===== src/Service/Calm.antt =====
-- Package service: the parts of the handlers that leave the tables, and how steps compose.
use goscheduler.Shared.{
  ℕ, List, [], ◌∷◌, ◌≡◌, refl, arith, Option, none, some, Bool, true, false, not, inl, inr,
  Bool-cases,
}
use mathlib.Core.Path.{subst}
use goscheduler.Shared.Text.{Text, text_eq}
use goscheduler.Cron.Outcome.{Outcome, ok, fails, panics, runs_on}
use goscheduler.Store.App.{App}
use goscheduler.Store.Schedule.{Schedule, is_recurring}
use goscheduler.Store.Partition.{set_fields}
use goscheduler.Store.Validation.{Problem}
use goscheduler.Dao.Session.{Result, Error}
use goscheduler.Dao.Apps.{get_app}
use goscheduler.Schedules.Session.{Session, Tables}
use goscheduler.Schedules.Steps.{Step, quiet}
use goscheduler.Service.Lifecycle.{
  Reply, good, bad, crashed, hangs, World, H, continue, ◌>>=◌, ◌>>◌, refuse_if, on_apps,
  on_schedules, get_active_app, accepted, or_crash, home, or_refuse,
}

-- What a handler does to the tables.
abbrev pub Moved : {A : Type 0} → World → Reply A × World → Type 0
Moved w r = Step w.session.tables r.1.session.tables

-- A part of a handler that leaves the session's tables.
abbrev pub Calm : {A : Type 0} → H A → Type 0
Calm m = (w : World) → (m w).1.session.tables ≡ w.session.tables

pub still : {t u : Tables} → u ≡ t → Step t u
still {t} {u} e = subst (λ t. Step t u) e (quiet (refl, refl))

-- From given tables, a part of a handler makes one step at most.
abbrev pub MovesAt : {A : Type 0} → Tables → H A → Type 0
MovesAt t m = (v : World) → v.session.tables ≡ t → Step t (m v).1.session.tables

pub continue-MovesAt :
    {A B : Type 0} (f : A → H B) (t : Tables) (r : Reply A × World)
    → r.1.session.tables ≡ t
    → ((a : A) → r.0 ≡ good a → MovesAt t (f a))
    → Step t (continue f r).1.session.tables
continue-MovesAt f t (good a, v) e h = h a refl v e
continue-MovesAt f t (bad code, v) e h = still e
continue-MovesAt f t (crashed, v) e h = still e
continue-MovesAt f t (hangs, v) e h = still e

pub bind-MovesAt :
    {A B : Type 0} (t : Tables) (m : H A) (f : A → H B)
    → Calm m
    → ((a : A) (v : World) → v.session.tables ≡ t → (m v).0 ≡ good a → MovesAt t (f a))
    → MovesAt t (m >>= f)
bind-MovesAt t m f calm next v e =
    continue-MovesAt f t (m v) (let same = calm v in cc) (λ a found. next a v e found)

pub on_schedules-MovesAt :
    {A : Type 0} (code : Error → ℕ) (t : Tables) (m : Session → Result A × Session)
    → ((d : Session) → d.tables ≡ t → Step d.tables (m d).1.tables)
    → MovesAt t (on_schedules code m)
on_schedules-MovesAt code t m h v e = subst (λ u. Step u (m v.session).1.tables) e (h v.session e)

pub continue-tables :
    {A B : Type 0} (f : A → H B) (t : Tables) (r : Reply A × World)
    → r.1.session.tables ≡ t
    → ((a : A) → Calm (f a))
    → (continue f r).1.session.tables ≡ t
continue-tables f t (good a, v) e h = let same = h a v in cc
continue-tables f t (bad code, v) e h = e
continue-tables f t (crashed, v) e h = e
continue-tables f t (hangs, v) e h = e

pub bind-Calm :
    {A B : Type 0} (m : H A) (f : A → H B) → Calm m → ((a : A) → Calm (f a)) → Calm (m >>= f)
bind-Calm m f h k w = continue-tables f w.session.tables (m w) (h w) k

pub guard-Calm :
    {A : Type 0} (b : Bool) (code : ℕ) (m : H A) → Calm m → Calm (refuse_if b code >> m)
guard-Calm b code m h = bind-Calm (refuse_if b code) (λ _. m) (λ w. refl) (λ _. h)

pub active-Calm : (id : Text) → Calm (get_active_app id)
unfolding get_active_app
active-Calm id w =
    continue-tables _ w.session.tables (on_apps _ (get_app id) w) refl
      (λ app. guard-Calm (text_eq app.app_id []) _ _ (guard-Calm (not app.active) _ _ (λ v. refl)))

pub accepted-Calm : (code : ℕ) (o : Outcome (List Problem)) → Calm (accepted code o)
accepted-Calm code (ok []) w = refl
accepted-Calm code (ok (p ∷ problems)) w = refl
accepted-Calm code (fails m) w = refl
accepted-Calm code panics w = refl
accepted-Calm code runs_on w = refl

pub home-Calm : (cron_app : Text) (s : Schedule) (app : App) → Calm (home cron_app s app)
home-Calm cron_app s app w = elim (Bool-cases (is_recurring s)) [
  | inl r ↦ rw r (active-Calm cron_app w)
  | inr o ↦ rw o refl
]

pub or_crash-Calm : {A : Type 0} (o : Option A) → Calm (or_crash o)
or_crash-Calm none w = refl
or_crash-Calm (some a) w = refl

pub or_crash_lem :
    {A : Type 0} (o : Option A) (w : World) (a : A) → (or_crash o w).0 ≡ good a → o ≡ some a
or_crash_lem none w a e = absurd cc
or_crash_lem (some b) w a e = cc

pub or_refuse-Calm : {A : Type 0} (code : ℕ) (o : Option A) → Calm (or_refuse code o)
or_refuse-Calm code none w = refl
or_refuse-Calm code (some a) w = refl

pub or_refuse_lem :
    {A : Type 0} (code : ℕ) (o : Option A) (w : World) (a : A)
    → (or_refuse code o w).0 ≡ good a
    → o ≡ some a
or_refuse_lem code none w a e = absurd cc
or_refuse_lem code (some b) w a e = cc

pub refuse_if_lem : (b : Bool) (code : ℕ) (w : World) → (refuse_if b code w).0 ≡ good tt → b ≡ false
refuse_if_lem true code w e = absurd cc
refuse_if_lem false code w e = refl

pub set_fields-id :
    (uuid : Text) (app : App) (input s : Schedule)
    → set_fields uuid app input ≡ some s
    → s.schedule_id ≡ uuid
unfolding set_fields
set_fields-id uuid app input s e = ground (arith)
