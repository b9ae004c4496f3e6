-- ===== src/Store/Accepted.antt =====
-- store/schedule.go: what `SetFields`, `ValidateSchedule` and `UpdateReconciliationHistory` give.
use goscheduler.Shared.{
  ℕ, zero, suc, ◌+◌, ◌-◌, ◌*◌, ◌/◌, ◌%◌, ◌^◌, ◌≤◌, ◌<◌, List, [], ◌∷◌, ◌++◌, ◌≡◌, ◌≢◌, ◌↔◌, refl,
  arith, Option, none, some, false, ◌==◌, ltb, length, drop, length-append, Bool-cases, inl, inr,
}
use goscheduler.Shared.Int.{
  ℤ, pos, ◌≤ℤ◌, mul64, quot64, mul64_pos, quot64_pos, sub64, sub64_pos, ltb_ℤ,
}
use goscheduler.Shared.Text.{Text}
use goscheduler.Cron.Outcome.{ok}
use goscheduler.Store.App.{App, Configuration, get_max_ttl}
use goscheduler.Store.Schedule.{
  Callback, Schedule, Reconciliation, Status, is_recurring, big_endian, latest,
  update_reconciliation_history,
}
use goscheduler.Store.Partition.{uuid_to_partition, set_fields}
use goscheduler.Store.Validation.{
  Problem, validate_field, max_payload_size, validate_payload_size, validate_schedule_time,
  validate_callback, validate_when, validate_schedule, no_app_id, no_payload, problem_of,
}

big_endian-some : (n acc : ℕ) (s : Text) → n ≤ length s → (k : ℕ) × (big_endian n acc s ≡ some k)
unfolding big_endian
big_endian-some zero acc s h = (acc, refl)
big_endian-some (suc n) acc [] h = absurd (omega arith)
big_endian-some (suc n) acc (c ∷ s) h = big_endian-some n (256 * acc + c) s (omega arith)

uuid_to_partition-lt :
    (uuid : Text) (n : ℕ)
    → 8 ≤ length uuid
    → 0 < n
    → (p : ℕ) × (uuid_to_partition uuid n ≡ some p) × (p < n)
unfolding uuid_to_partition
uuid_to_partition-lt uuid n h k =
    let (key, e) = big_endian-some 8 0 uuid h in
    rw (e, uuid_to_partition)
      (let zero_no : (n == 0) ≡ false = ground arith in rw zero_no (key % n, refl, grind arith))

-- For an app with partitions, a UUID of at least eight bytes and a time that is not negative,
-- `SetFields` does not panic: it sets the UUID, a partition below the app's number of partitions
-- and the whole minute that the time falls in, and nothing else.
set_fields_lem :
    (uuid : Text) (app : App) (s : Schedule) (t : ℕ)
    → 8 ≤ length uuid
    → 0 < app.partitions
    → s.schedule_time ≡ pos t
    → t < 2 ^ 63
    → (p : ℕ) × (g : ℕ) × (set_fields uuid app s
        ≡ some (record s { schedule_id = uuid; partition_id = p; schedule_group = pos g }))
      × (p < app.partitions)
      × (g ≤ t)
      × (t < g + 60)
      × (g % 60 ≡ 0)
unfolding set_fields
set_fields_lem uuid app s t h k e small =
    let (p, found, lt) = uuid_to_partition-lt uuid app.partitions h k in
    let group : mul64 (pos 60) (quot64 s.schedule_time (pos 60)) ≡ pos (60 * (t / 60)) =
      rw (e, quot64_pos t 60 small, mul64_pos 60 (t / 60) (omega arith)) refl in
    (
      p,
      60 * (t / 60),
      rw (found, group, set_fields) refl,
      lt,
      omega arith,
      omega arith,
      omega arith,
    )

drop-append {ℓ} :
    {A : Type ℓ} (k : ℕ) (xs ys : List A) → k ≤ length xs → drop k (xs ++ ys) ≡ drop k xs ++ ys
drop-append zero xs ys h = refl
drop-append (suc k) [] ys h = absurd (omega arith)
drop-append (suc k) (x ∷ xs) ys h = drop-append k xs ys (omega arith)

length-drop {ℓ} : {A : Type ℓ} (k : ℕ) (xs : List A) → length (drop k xs) ≡ length xs - k
length-drop zero xs = omega arith
length-drop (suc k) [] = omega arith
length-drop (suc k) (x ∷ xs) = omega (arith, length-drop k xs)

latest_lem :
    (new : Reconciliation) (history : List Reconciliation)
    → (length (latest 5 (history ++ new ∷ [])) ≤ 5)
      × (latest 5 (history ++ new ∷ []) ≡ drop (length history - 4) history ++ new ∷ [])
unfolding latest
latest_lem new history = elim (Bool-cases (ltb 5 (length (history ++ new ∷ [])))) [
  | inl more ↦
      let n : length (history ++ new ∷ []) ≡ suc (length history) =
        omega (arith, length-append history (new ∷ [])) in
      let k : length (history ++ new ∷ []) - 5 ≡ length history - 4 = omega (arith, n) in
      let small : length history - 4 ≤ length history = omega arith in
      rw (more, k, drop-append (length history - 4) history (new ∷ []) small)
        (
          (let m : 4 < length history = ground (arith, n) in
              omega (
                arith,
                length-append (drop (length history - 4) history) (new ∷ []),
                length-drop (length history - 4) history,
              )),
          refl,
        )
  | inr few ↦
      let n : length (history ++ new ∷ []) ≡ suc (length history) =
        omega (arith, length-append history (new ∷ [])) in
      let none_dropped : length history - 4 ≡ 0 = ground (arith, n) in
      rw (few, none_dropped) (omega arith, refl)
]

-- `UpdateReconciliationHistory` appends the new entry, drops the oldest ones beyond four before it,
-- and so leaves at most five.
pub update_reconciliation_history_lem :
    (on : Text) (status : Status) (message : Text) (s : Schedule)
    → (length (update_reconciliation_history on status message s).reconciliation_history ≤ 5)
      × ((update_reconciliation_history on status message s).reconciliation_history
          ≡ drop (length s.reconciliation_history - 4) s.reconciliation_history
            ++ record { status = status; error_message = message; callback_on = on } ∷ [])
unfolding update_reconciliation_history latest
update_reconciliation_history_lem on status message s =
    latest_lem record { status = status; error_message = message; callback_on = on }
      s.reconciliation_history

non_empty : (s : Text) (problem : Problem) → (validate_field s problem ≡ []) ↔ (s ≢ [])
unfolding validate_field
non_empty [] problem = (λ e. absurd cc, λ h. absurd (h refl))
non_empty (c ∷ s) problem = (λ e. λ f. absurd cc, λ h. refl)

fits :
    (payload : Text) (app : App) (limit : ℤ)
    → (validate_payload_size payload app limit ≡ [])
      ↔ (pos (length payload) ≤ℤ max_payload_size app limit)
unfolding validate_payload_size
fits payload app limit = ground arith

all_empty {ℓ} :
    {A : Type ℓ} (v w x y z : List A)
    → v ++ w ++ x ++ y ++ z ≡ []
    → (v ≡ []) × (w ≡ []) × (x ≡ []) × (y ≡ []) × (z ≡ [])
all_empty [] [] [] [] z e = (refl, refl, refl, refl, e)
all_empty [] [] [] (a ∷ y) z e = absurd cc
all_empty [] [] (a ∷ x) y z e = absurd cc
all_empty [] (a ∷ w) x y z e = absurd cc
all_empty (a ∷ v) w x y z e = absurd cc

no_problem : (p : Option Text) → (problem_of p ≡ []) ↔ (p ≡ none)
no_problem none = (λ _. refl, λ _. refl)
no_problem (some text) = (λ e. absurd cc, λ e. absurd cc)

in_time :
    (now t : ℕ) (app : App) (limit : ℤ)
    → t < 2 ^ 63
    → (validate_schedule_time (pos now) (pos t) app limit ≡ [])
      ↔ ((now ≤ t) × (pos (t - now) ≤ℤ get_max_ttl app limit))
unfolding validate_schedule_time
in_time now t app limit small = elim (Bool-cases (ltb_ℤ (pos t) (pos now))) [
  | inl late ↦ rw (late, validate_schedule_time) (ground arith)
  | inr early ↦
      let span : sub64 (pos t) (pos now) ≡ pos (t - now) = sub64_pos t now (ground arith) small in
      rw (early, span, validate_schedule_time) (ground arith)
]

-- A one-time schedule with a callback is accepted without any complaint exactly when it names an
-- app, has a payload within the app's limit or the default one, its callback has no problem, and
-- its time is not past and at most the app's period, or the default one, ahead.
pub validate_schedule_lem :
    (now t : ℕ) (app : App) (conf : Configuration) (s : Schedule) (c : Callback)
    → t < 2 ^ 63
    → is_recurring s ≡ false
    → s.callback ≡ some c
    → s.schedule_time ≡ pos t
    → (validate_schedule (pos now) app conf s ≡ ok []) ↔ (
        (s.app_id ≢ [])
        × (s.payload ≢ [])
        × (pos (length s.payload) ≤ℤ max_payload_size app conf.payload_size)
        × (c.problem ≡ none)
        × (now ≤ t)
        × (pos (t - now) ≤ℤ get_max_ttl app conf.future_schedule_creation_period))
unfolding validate_schedule validate_callback validate_when
validate_schedule_lem now t app conf s c small one_time e f =
    let (a, a') = non_empty s.app_id no_app_id in
    let (b, b') = non_empty s.payload no_payload in
    let (f1, f2) = fits s.payload app conf.payload_size in
    let (g1, g2) = in_time now t app conf.future_schedule_creation_period small in
    let (k1, k2) = no_problem c.problem in
    rw (one_time, e, f, validate_callback, validate_when)
      (
        λ r.
            let (x, y, z, v, w) =
              all_empty (validate_field s.app_id no_app_id) (validate_field s.payload no_payload)
                (validate_payload_size s.payload app conf.payload_size) (problem_of c.problem)
                (validate_schedule_time (pos now) (pos t) app conf.future_schedule_creation_period)
                cc in
            (a x, b y, f1 z, k1 v, (g1 w).0, (g1 w).1),
        λ (x, y, z, v, w, q). rw (a' x, b' y, f2 z, k2 v, g2 (w, q)) refl,
      )
