-- ===== src/Service/OffMinute.antt =====
-- service/get_app_schedules.go and service/bulk_action.go: the range of a request that gives no times.
use goscheduler.Shared.{
  ℕ, ◌+◌, ◌-◌, ◌*◌, ◌/◌, ◌%◌, ◌^◌, ◌≤◌, ◌<◌, [], ◌≡◌, ◌≢◌, sym, ap, ◌∙◌, arith, Option, none, some,
  ◌⊎◌, inl, inr, Has,
}
use mathlib.Core.Path.{subst}
use goscheduler.Shared.Int.{ℤ, pos, pos_part, sub64_pos, mul64, mul64_pos, quot64, quot64_pos}
use goscheduler.Shared.Text.{Text}
use goscheduler.Store.App.{App}
use goscheduler.Store.Schedule.{Schedule, Status}
use goscheduler.Store.Partition.{set_fields, uuid_to_partition}
use goscheduler.Schedules.BulkActing.{ActionType}
use goscheduler.Schedules.Windows.{Range, time_stamps}
use goscheduler.Schedules.Minutes.{IsMinute, time_stamps_lem}
use goscheduler.Service.Queries.{Texts, range_of}
use goscheduler.Service.BulkActions.{BulkActionTask, push_bulk_action_queries}
use goscheduler.Service.Tasks.{push_bulk_action_queries_lem}

group_of :
    (partition : Option ℕ) (uuid : Text) (input s : Schedule) (a : ℕ)
    → input.schedule_time ≡ pos a
    → a < 2 ^ 63
    → (elim partition as (λ p. Option Schedule) [
      | none ↦ none
      | some partition ↦ some (record input {
        schedule_id = uuid;
        partition_id = partition;
        schedule_group = mul64 (pos 60) (quot64 input.schedule_time (pos 60));
      })
    ])
      ≡ some s
    → s.schedule_group ≡ pos (60 * (a / 60))
group_of none uuid input s a time small e = absurd cc
group_of (some p) uuid input s a time small e =
    let given : s.schedule_group ≡ mul64 (pos 60) (quot64 input.schedule_time (pos 60)) = cc in
    given ∙ rw (time, quot64_pos a 60 small) (mul64_pos 60 (a / 60) (omega arith))

-- The start of the minute is the group of a schedule.
set_fields-group :
    (uuid : Text) (at : App) (input s : Schedule) (a : ℕ)
    → input.schedule_time ≡ pos a
    → a < 2 ^ 63
    → set_fields uuid at input ≡ some s
    → s.schedule_group ≡ pos (60 * (a / 60))
unfolding set_fields
set_fields-group uuid at input s a time small e =
    group_of (uuid_to_partition uuid at.partitions) uuid input s a time small e

default_range :
    (texts : Texts) (t : ℕ) (range : Range)
    → 3600 ≤ t
    → t < 2 ^ 63
    → range_of texts (pos t) [] [] ≡ some range
    → range ≡ record { start_time = pos (t - 3600); end_time = pos t }
unfolding range_of
default_range texts t range late small e = let d = sub64_pos t 3600 late small in cc

-- The time of the clock is at least an hour after 0 and a minute before 2 ^ 63, and it is no whole
-- minute. A request that gives no times asks for the range that `range_of` gives. Then a time that a
-- query of the schedules for this range asks for, and the time of a task that a bulk action over this
-- range pushes, is the schedule group of no schedule that `set_fields` gave its fields, at any time
-- from 0 on and below 2 ^ 63.
pub range_of-group :
    (texts : Texts) (t : ℕ) (range : Range) (app at : App) (status : Status) (action : ActionType)
    (uuid : Text) (input s : Schedule) (a : ℕ) (time : ℤ)
    → 3600 ≤ t
    → t + 60 < 2 ^ 63
    → 0 < t % 60
    → range_of texts (pos t) [] [] ≡ some range
    → input.schedule_time ≡ pos a
    → a < 2 ^ 63
    → set_fields uuid at input ≡ some s
    → Has time (time_stamps range.start_time range.end_time)
      ⊎ ((task : BulkActionTask) × Has task (push_bulk_action_queries app range status action)
          × (task.schedule_time_group ≡ time))
    → time ≢ s.schedule_group
range_of-group texts t range app at status action uuid input s a time late small off asked same_time
      fits made h same =
    let shape = default_range texts t range late (omega arith) asked in
    let group = set_fields-group uuid at input s a same_time fits made in
    let (i, e, low) : IsMinute (t - 3600) t time = elim h [
      | inl stamp ↦
          (time_stamps_lem (t - 3600) t time small).0
            (subst (λ (r : Range). Has time (time_stamps r.start_time r.end_time)) shape stamp)
      | inr (task, pushed, at_time) ↦
          let (partition, u, bound, minute, made_so) =
            (push_bulk_action_queries_lem app status action range (t - 3600) t task
                (ap (λ (r : Range). r.start_time) shape) (ap (λ (r : Range). r.end_time) shape)
                small).0
              pushed in
          subst (IsMinute (t - 3600) t)
            (sym (ap (λ (k : BulkActionTask). k.schedule_time_group) made_so) ∙ at_time) minute
    ] in
    let equal : t - 3600 + 60 * i ≡ 60 * (a / 60) = ap pos_part (sym e ∙ same ∙ group) in
    omega arith
