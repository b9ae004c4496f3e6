-- ===== src/Entity/Polling.antt =====
-- poller/poller.go and `fetchAndRetrySchedule` of cluster/supervisor.go: which minutes are fetched. A time
-- is in seconds of a clock whose minutes are whole. The ticker is a parameter: the time of each tick.
use goscheduler.Shared.{
  ◌-◌, ℕ, zero, suc, ◌+◌, ◌*◌, ◌/◌, ◌%◌, ◌≤◌, ◌<◌, List, [], ◌∷◌, ◌++◌, ◌≡◌, ap, arith, inl, inr,
  ◌⊎◌, ltb, Bool-cases, Has, Has-append, Has-left, Has-right,
}
use mathlib.Core.Path.{subst}
use goscheduler.Shared.Int.{ℤ, pos, negsuc, pos_part, sub_ℕ}

-- The minute of a time.
unfoldable pub time_bucket : ℕ → ℕ
time_bucket time = 60 * (time / 60)

-- `Start` of a poller: the minutes that its first ticks fetch.
unfoldable pub start_poller : (ℕ → ℕ) → ℕ → List ℤ
start_poller tick zero = []
start_poller tick (suc n) = start_poller tick n ++ pos (time_bucket (tick n)) ∷ []

-- The loop of `fetchAndRetrySchedule`, from the offset down to 0.
unfoldable pub minutes_back : ℕ → ℕ → List ℤ
minutes_back bucket zero = sub_ℕ bucket 0 ∷ []
minutes_back bucket (suc i) = sub_ℕ bucket (60 * suc i) ∷ minutes_back bucket i

-- `fetchAndRetrySchedule`: the minutes whose schedules are acted on again.
unfoldable pub fetch_and_retry_schedule : ℕ → ℤ → List ℤ
fetch_and_retry_schedule now (pos offset) = minutes_back (time_bucket now) offset
fetch_and_retry_schedule now (negsuc n) = []

-- What `time.NewTicker` documents: a tick at each interval after the start.
abbrev pub Ticks : (ℕ → ℕ) → ℕ → ℕ → Type 0
Ticks tick start interval = (i : ℕ) → tick i ≡ start + interval * suc i

polled : (tick : ℕ → ℕ) (n i : ℕ) → i < n → Has (pos (time_bucket (tick i))) (start_poller tick n)
unfolding start_poller
polled tick zero i low = absurd (omega arith)
polled tick (suc n) i low = elim (Bool-cases (ltb i n)) [
  | inl y ↦
      Has-left (pos (time_bucket (tick i))) (start_poller tick n) (pos (time_bucket (tick n)) ∷ [])
        (polled tick n i (ground arith))
  | inr z ↦
      let last : i ≡ n = ground arith in
      Has-right (pos (time_bucket (tick i))) (start_poller tick n) (pos (time_bucket (tick n)) ∷ [])
        (inl (ap (λ i. pos (time_bucket (tick i))) last))
]

Has-minutes_back : (bucket k i : ℕ) → i ≤ k → Has (sub_ℕ bucket (60 * i)) (minutes_back bucket k)
unfolding minutes_back
Has-minutes_back bucket zero i low = inl (ap (λ j. sub_ℕ bucket j) (omega arith))
Has-minutes_back bucket (suc k) i low = elim (Bool-cases (ltb k i)) [
  | inl y ↦ let same : i ≡ suc k = ground arith in inl (ap (λ i. sub_ℕ bucket (60 * i)) same)
  | inr z ↦ inr (Has-minutes_back bucket k i (ground arith))
]

-- A node takes a poller over: it starts it, and within a minute it acts again on the schedules of an
-- offset of minutes back. If the last minute that was fetched before lies no further back than the minute
-- before these, and the ticker ticks each minute, then each later minute, up to that of the new poller's
-- last tick, is fetched by the new poller or acted on again.
pub start_poller-fetch_and_retry_schedule :
    (tick : ℕ → ℕ) (last start now offset n minute : ℕ)
    → Ticks tick start 60
    → last % 60 ≡ 0
    → start ≤ now
    → now < start + 60
    → now < last + 60 * (offset + 2)
    → minute % 60 ≡ 0
    → last < minute
    → minute ≤ start + 60 * n
    → Has (pos minute) (start_poller tick n)
      ⊎ Has (pos minute) (fetch_and_retry_schedule now (pos offset))
unfolding fetch_and_retry_schedule time_bucket
start_poller-fetch_and_retry_schedule tick last start now offset n minute ticks whole late soon near
      full after before =
    elim (Bool-cases (ltb now minute)) [
      | inl y ↦
          let ahead : now < minute = ground arith in
          let i : ℕ = minute / 60 - start / 60 - 1 in
          let at : tick i ≡ start + 60 * suc i = ticks i in
          let same : 60 * (tick i / 60) ≡ minute = omega arith in
          inl (subst (λ t. Has (pos t) (start_poller tick n)) same (polled tick n i (omega arith)))
      | inr z ↦
          let behind : minute ≤ now = ground arith in
          let i : ℕ = now / 60 - minute / 60 in
          inr (
            subst (λ t. Has t (minutes_back (60 * (now / 60)) offset))
              (let low : 60 * i ≤ 60 * (now / 60) = omega arith in
                let there : 60 * (now / 60) - 60 * i ≡ minute = omega arith in ground arith)
              (Has-minutes_back (60 * (now / 60)) offset i (omega arith)))
    ]

polled_sound :
    (tick : ℕ → ℕ) (n : ℕ) (t : ℤ)
    → Has t (start_poller tick n)
    → (i : ℕ) × (t ≡ pos (time_bucket (tick i)))
unfolding start_poller
polled_sound tick zero t h = elim h [ ]
polled_sound tick (suc n) t h = elim (Has-append t (start_poller tick n) _ h) [
  | inl before ↦ polled_sound tick n t before
  | inr (inl e) ↦ (n, e)
  | inr (inr none_left) ↦ elim none_left [ ]
]

-- A poller that is started ticks for the first time after its interval. If that is a minute or more, the
-- minute of the start is none that it fetches.
pub start_poller_first :
    (tick : ℕ → ℕ) (start interval n : ℕ)
    → Ticks tick start interval
    → 60 ≤ interval
    → ¬ Has (pos (time_bucket start)) (start_poller tick n)
unfolding time_bucket
start_poller_first tick start interval n ticks long h =
    let (i, e) = polled_sound tick n (pos (time_bucket start)) h in
    let at : tick i ≡ start + interval * suc i = ticks i in
    let same : 60 * (start / 60) ≡ 60 * (tick i / 60) = ap pos_part e in
    let more : interval ≤ interval * suc i = ground arith in omega arith
