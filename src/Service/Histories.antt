-- ===== src/Service/Histories.antt =====
-- Any sequence of requests to the handlers of one schedule, in package service.
use goscheduler.Shared.{ℕ, List, [], ◌∷◌, ◌≡◌, Option, none, some, inl, inr}
use goscheduler.Shared.Int.{ℤ}
use goscheduler.Shared.Text.{Text}
use goscheduler.Store.App.{Configuration}
use goscheduler.Store.Schedule.{Schedule, Status, deleted}
use goscheduler.Schedules.Steps.{Step}
use goscheduler.Schedules.Sync.{InSync, Step-InSync}
use goscheduler.Schedules.Statuses.{status_at, Leaves, Step-Leaves, Moves-deleted}
use goscheduler.Service.Lifecycle.{World, Given, post, cancel, pause, resume, update}
use goscheduler.Service.Transitions.{
  post-Moved, cancel-Moved, pause-Moved, resume-Moved, update-Moved,
}

-- A request, with the UUID that a new schedule gets.
pub data Request : Type 0 where
  posting : Text → Option Schedule → Request
  cancelling pausing resuming : Option Text → Request
  updating : Option Text → Option (Schedule × Given) → Request

-- When a request is handled: the time in seconds and in nanoseconds.
pub record Moment : Type 0 where
  pub seconds : ℤ
  pub nanoseconds : ℤ

module _ (conf : Configuration) (cron_app : Text) (flush_period : ℕ) where
  abbrev pub handle : Moment → Request → World → World
  handle at (posting uuid input) w = (post at.seconds conf cron_app uuid input w).1
  handle at (cancelling id) w = (cancel at.nanoseconds flush_period id w).1
  handle at (pausing id) w = (pause at.nanoseconds flush_period id w).1
  handle at (resuming id) w = (resume at.nanoseconds flush_period id w).1
  handle at (updating id body) w = (update at.seconds at.nanoseconds flush_period conf id body w).1

  -- A new UUID is not in the table yet.
  abbrev pub Fresh : World → Request → Type 0
  Fresh w (posting uuid input) = w.session.tables.by_id uuid ≡ none
  Fresh w other = Unit

  abbrev pub handle_all : List (Moment × Request) → World → World
  handle_all [] w = w
  handle_all ((at, request) ∷ rest) w = handle_all rest (handle at request w)

  abbrev pub AllFresh : List (Moment × Request) → World → Type 0
  AllFresh [] w = Unit
  AllFresh ((at, request) ∷ rest) w = Fresh w request × AllFresh rest (handle at request w)

  handle-Step :
      (at : Moment) (request : Request) (w : World)
      → Fresh w request
      → Step w.session.tables (handle at request w).session.tables
  handle-Step at (posting uuid input) w fresh =
      post-Moved at.seconds conf cron_app uuid input w fresh
  handle-Step at (cancelling id) w fresh = cancel-Moved at.nanoseconds flush_period id w
  handle-Step at (pausing id) w fresh = pause-Moved at.nanoseconds flush_period id w
  handle-Step at (resuming id) w fresh = resume-Moved at.nanoseconds flush_period id w
  handle-Step at (updating id body) w fresh =
      update-Moved at.seconds at.nanoseconds flush_period conf id body w

  -- Whatever requests come, with whatever replies of the database, and however the queries end, the
  -- table by partition keeps exactly the rows of the table by id, if new UUIDs are new.
  pub handle_all-InSync :
      (requests : List (Moment × Request)) (w : World)
      → AllFresh requests w
      → InSync w.session.tables
      → InSync (handle_all requests w).session.tables
  handle_all-InSync [] w fresh sync = sync
  handle_all-InSync ((at, request) ∷ rest) w (fresh, later) sync =
      handle_all-InSync rest (handle at request w) later
        (Step-InSync _ _ (handle-Step at request w fresh) sync)

  -- One request, with a new UUID if it needs one, leaves the status of a recurring schedule as it is,
  -- or pauses it if it was scheduled, or resumes it if it was paused, or deletes it.
  pub handle-status :
      (at : Moment) (request : Request) (w : World) (id : Text) (a : Status)
      → Fresh w request
      → status_at id w.session.tables ≡ some a
      → Leaves a id (handle at request w).session.tables
  handle-status at request w id a fresh e = Step-Leaves _ _ id a (handle-Step at request w fresh) e

  -- A deleted recurring schedule stays deleted, whatever requests come, if new UUIDs are new.
  pub handle_all-deleted :
      (requests : List (Moment × Request)) (w : World) (id : Text)
      → AllFresh requests w
      → status_at id w.session.tables ≡ some deleted
      → status_at id (handle_all requests w).session.tables ≡ some deleted
  handle_all-deleted [] w id fresh e = e
  handle_all-deleted ((at, request) ∷ rest) w id (fresh, later) e =
      let (b, found, how) = handle-status at request w id deleted fresh e in
      let gone : b ≡ deleted = elim how [ inl same ↦ same | inr move ↦ Moves-deleted b move ] in
      handle_all-deleted rest (handle at request w) id later cc
