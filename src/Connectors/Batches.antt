-- ===== src/Connectors/Batches.antt =====
-- What the aggregation of connectors/aggregate.go keeps.
use goscheduler.Shared.{
  ℕ, ◌+◌, ◌≤◌, ◌<◌, List, [], ◌∷◌, ◌++◌, ◌≡◌, refl, arith, Bool, true, ◌==◌, ==_self, inl, inr,
  Bool-cases, if◌then◌else◌, length, length-append, All, All-append,
}
use goscheduler.Shared.Text.{Text}
use goscheduler.Shared.Dict.{text_eq_self}
use goscheduler.Store.App.{App}
use goscheduler.Store.Schedule.{Schedule}
use goscheduler.Connectors.Aggregate.{
  Group, StatusTask, Event, arrives, ticks, belongs, settle, add, flush, aggregate, aggregate_all,
}

module _ (test : Schedule → Bool) where
  abbrev pub count : List Schedule → ℕ
  count [] = 0
  count (s ∷ rest) = (if test s then 1 else 0) + count rest

  abbrev pub count_sent : List StatusTask → ℕ
  count_sent [] = 0
  count_sent (task ∷ tasks) = count task.schedules + count_sent tasks

  abbrev pub count_waiting : List Group → ℕ
  count_waiting [] = 0
  count_waiting (g ∷ groups) = count g.batch + count_waiting groups

  abbrev pub count_arrived : List Event → ℕ
  count_arrived [] = 0
  count_arrived (arrives s app ∷ events) = (if test s then 1 else 0) + count_arrived events
  count_arrived (ticks ∷ events) = count_arrived events

  count-append : (xs ys : List Schedule) → count (xs ++ ys) ≡ count xs + count ys
  count-append [] ys = omega arith
  count-append (x ∷ xs) ys = omega (arith, count-append xs ys)

  count_sent-append :
      (xs ys : List StatusTask) → count_sent (xs ++ ys) ≡ count_sent xs + count_sent ys
  count_sent-append [] ys = omega arith
  count_sent-append (x ∷ xs) ys = omega (arith, count_sent-append xs ys)

  count-settle :
      (n : ℕ) (g : Group) (app : App) (groups : List Group)
      → count_sent (settle n g app groups).0 + count_waiting (settle n g app groups).1
        ≡ count g.batch + count_waiting groups
  count-settle n g app groups = elim (Bool-cases (length g.batch == n)) [
    | inl y ↦ rw y (omega arith)
    | inr z ↦ rw z (omega arith)
  ]

  count-add :
      (n : ℕ) (s : Schedule) (app : App) (groups : List Group)
      → count_sent (add n s app groups).0 + count_waiting (add n s app groups).1
        ≡ (if test s then 1 else 0) + count_waiting groups
  unfolding add
  count-add n s app [] = omega (
    arith,
    count-settle n (record { app_id = s.app_id; partition_id = s.partition_id; batch = s ∷ [] }) app
        [],
  )
  count-add n s app (g ∷ groups) = elim (Bool-cases (belongs g s)) [
    | inl y ↦ rw y (
        omega (
          arith,
          count-settle n (record g { batch = g.batch ++ s ∷ [] }) app groups,
          count-append g.batch (s ∷ []),
        ))
    | inr z ↦ rw z (omega (arith, count-add n s app groups))
  ]

  count-flush :
      (get_app : Text → App) (groups : List Group)
      → count_sent (flush get_app groups) ≡ count_waiting groups
  unfolding flush
  count-flush get_app [] = refl
  count-flush get_app (g ∷ groups) = omega (arith, count-flush get_app groups)

  -- No status is lost or sent twice: whatever test the schedules are counted by, and whenever the flush
  -- period ends, those sent and those that wait in the end are as many as those that arrived and those
  -- that waited at first.
  pub aggregate_all_lem :
      (n : ℕ) (get_app : Text → App) (events : List Event) (groups : List Group)
      → count_sent (aggregate_all n get_app events groups).0
          + count_waiting (aggregate_all n get_app events groups).1
        ≡ count_arrived events + count_waiting groups
  unfolding aggregate_all aggregate
  aggregate_all_lem n get_app [] groups = refl
  aggregate_all_lem n get_app (arrives s app ∷ events) groups = omega (
    arith,
    aggregate_all_lem n get_app events (add n s app groups).1,
    count-add n s app groups,
    count_sent-append (add n s app groups).0
        (aggregate_all n get_app events (add n s app groups).1).0,
  )
  aggregate_all_lem n get_app (ticks ∷ events) groups = omega (
    arith,
    aggregate_all_lem n get_app events [],
    count-flush get_app groups,
    count_sent-append (flush get_app groups) (aggregate_all n get_app events []).0,
  )

-- One app and one partition.
abbrev pub Uniform : Text → ℕ → List Schedule → Type 0
Uniform app partition =
    All (λ s. belongs (record { app_id = app; partition_id = partition; batch = [] }) s ≡ true)

module _ (n : ℕ) where
  -- A group waits for a full batch.
  abbrev pub Waiting : Group → Type 0
  Waiting g = (length g.batch < n) × Uniform g.app_id g.partition_id g.batch

  -- A task for one query.
  abbrev pub Sendable : StatusTask → Type 0
  Sendable task =
      (length task.schedules ≤ n)
      × (app : Text) × (partition : ℕ) × Uniform app partition task.schedules

  settle_lem :
      (g : Group) (app : App) (groups : List Group)
      → length g.batch ≤ n
      → Uniform g.app_id g.partition_id g.batch
      → All Waiting groups
      → All Sendable (settle n g app groups).0 × All Waiting (settle n g app groups).1
  settle_lem g app groups small uniform h = elim (Bool-cases (length g.batch == n)) [
    | inl y ↦ rw y (((small, g.app_id, g.partition_id, uniform), tt), h)
    | inr z ↦ rw z (tt, ((ground arith, uniform), h))
  ]

  add_lem :
      (s : Schedule) (app : App) (groups : List Group)
      → 0 < n
      → All Waiting groups
      → All Sendable (add n s app groups).0 × All Waiting (add n s app groups).1
  unfolding add
  add_lem s app [] pos_n h =
      settle_lem (record { app_id = s.app_id; partition_id = s.partition_id; batch = s ∷ [] }) app
        [] (omega arith) (rw (text_eq_self s.app_id, ==_self s.partition_id) (refl, tt)) tt
  add_lem s app (g ∷ groups) pos_n ((small, uniform), h) = elim (Bool-cases (belongs g s)) [
    | inl y ↦ rw y (
        settle_lem (record g { batch = g.batch ++ s ∷ [] }) app groups
          (omega (arith, length-append g.batch (s ∷ [])))
          (All-append _ g.batch (s ∷ []) uniform (y, tt)) h)
    | inr z ↦
        let (sent, waiting) = add_lem s app groups pos_n h in
        rw z (sent, ((small, uniform), waiting))
  ]

  flush_lem :
      (get_app : Text → App) (groups : List Group)
      → All Waiting groups
      → All Sendable (flush get_app groups)
  unfolding flush
  flush_lem get_app [] h = tt
  flush_lem get_app (g ∷ groups) ((small, uniform), h) =
      ((omega arith, g.app_id, g.partition_id, uniform), flush_lem get_app groups h)

  -- With a positive batch size, and groups that each wait for one app and partition with less than a
  -- batch, every task that is sent has at most a batch of schedules, all of one app and partition,
  -- and the groups that wait are again such groups.
  pub aggregate_all-Sendable :
      (get_app : Text → App) (events : List Event) (groups : List Group)
      → 0 < n
      → All Waiting groups
      → All Sendable (aggregate_all n get_app events groups).0
        × All Waiting (aggregate_all n get_app events groups).1
  unfolding aggregate_all aggregate
  aggregate_all-Sendable get_app [] groups pos_n h = (tt, h)
  aggregate_all-Sendable get_app (arrives s app ∷ events) groups pos_n h =
      let (sent, waiting) = add_lem s app groups pos_n h in
      let (later, left) =
        aggregate_all-Sendable get_app events (add n s app groups).1 pos_n waiting in
      (All-append Sendable (add n s app groups).0 _ sent later, left)
  aggregate_all-Sendable get_app (ticks ∷ events) groups pos_n h =
      let (later, left) = aggregate_all-Sendable get_app events [] pos_n tt in
      (All-append Sendable (flush get_app groups) _ (flush_lem get_app groups h) later, left)
