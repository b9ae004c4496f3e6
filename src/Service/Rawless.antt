-- ===== src/Service/Rawless.antt =====
-- service/post.go: a request to create a schedule that has no raw callback.
use goscheduler.Shared.{[], ◌≡◌, refl, Option}
use goscheduler.Shared.Int.{ℤ}
use goscheduler.Shared.Text.{Text}
use goscheduler.Store.App.{App, Configuration}
use goscheduler.Store.Schedule.{Schedule}
use goscheduler.Store.Registry.{Registry, unmarshal_schedule}
use goscheduler.Store.Validation.{validate_schedule, validate_callback}
use goscheduler.Service.Lifecycle.{
  Reply, good, bad, crashed, hangs, World, H, continue, get_active_app, create, post,
}

crashes_after :
    {A B : Type 0} (m : Reply A × World) (f : A → H B) (a : A)
    → m.0 ≡ good a
    → ((w : World) → (f a w).0 ≡ crashed)
    → (continue f m).0 ≡ crashed
crashes_after (good b, w) f a e h = let same : b ≡ a = cc in rw same (h w)
crashes_after (bad c, w) f a e h = absurd cc
crashes_after (crashed, w) f a e h = absurd cc
crashes_after (hangs, w) f a e h = absurd cc

-- A request to create a schedule that has no raw callback, for an app that is known and active: the
-- handler panics, whatever else the request has.
pub post-no_callback :
    (now : ℤ) (conf : Configuration) (cron_app uuid : Text) (registry : Registry)
    (kind_of : Text → Option Text) (fields : Schedule) (app : App) (w : World)
    → (get_active_app fields.app_id w).0 ≡ good app
    → (post now conf cron_app uuid (unmarshal_schedule registry kind_of fields []) w).0 ≡ crashed
unfolding post create unmarshal_schedule validate_schedule validate_callback
post-no_callback now conf cron_app uuid registry kind_of fields app w known =
    crashes_after (get_active_app fields.app_id w) _ app known (λ v. refl)
