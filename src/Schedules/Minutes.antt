-- ===== src/Schedules/Minutes.antt =====
-- dao/schedule_dao_impl.go: which minutes a query for a window asks for.
use goscheduler.Shared.{
  length, ◌-◌, ◌∷◌, [], ◌∙◌, ap, ℕ, zero, suc, ◌+◌, ◌*◌, ◌/◌, ◌^◌, ◌≤◌, ◌<◌, ◌≡◌, ◌↔◌, refl, sym,
  arith, true, false, inl, inr, Has, Bool-cases, ltb,
}
use mathlib.Core.Path.{subst}
use goscheduler.Shared.Int.{ℤ, pos, pos_part, add64, sub64, add64_pos, sub64_pos}
use goscheduler.Schedules.Windows.{minutes_from, time_stamps}

-- A minute of the range from `start` to before `end`, counted from its start.
abbrev pub IsMinute : ℕ → ℕ → ℤ → Type 0
IsMinute start end t = (i : ℕ) × (t ≡ pos (start + 60 * i)) × (start + 60 * i < end)

module _ (end : ℕ) (small : end + 60 < 2 ^ 63) where
  minute_after :
      (fuel start : ℕ)
      → start < end
      → minutes_from (suc fuel) (pos start) (pos end)
        ≡ pos start ∷ minutes_from fuel (pos (start + 60)) (pos end)
  unfolding minutes_from
  minute_after fuel start low =
      let next : add64 (pos start) (pos 60) ≡ pos (start + 60) = add64_pos start 60 (omega arith) in
      let here : ltb (start + 0) (end + 0) ≡ true = ground arith in rw (next, here) refl

  no_minute : (fuel start : ℕ) → end ≤ start → minutes_from fuel (pos start) (pos end) ≡ []
  unfolding minutes_from
  no_minute zero start high = refl
  no_minute (suc fuel) start high =
      let past : ltb (start + 0) (end + 0) ≡ false = ground arith in rw past refl

  minutes_sound :
      (fuel start : ℕ) (t : ℤ)
      → Has t (minutes_from fuel (pos start) (pos end))
      → IsMinute start end t
  unfolding minutes_from
  minutes_sound zero start t h = elim h [ ]
  minutes_sound (suc fuel) start t h = elim (Bool-cases (ltb start end)) [
    | inr off ↦ absurd (subst (Has t) (no_minute (suc fuel) start (ground arith)) h)
    | inl on ↦
        let low : start < end = ground arith in
        elim (subst (Has t) (minute_after fuel start low) h) [
          | inl e ↦ (0, e ∙ ap pos (omega arith), omega arith)
          | inr later ↦
              let (i, e, below) = minutes_sound fuel (start + 60) t later in
              (suc i, e ∙ ap pos (omega arith), omega arith)
        ]
  ]

  minutes_complete :
      (fuel start : ℕ) (t : ℤ)
      → end ≤ start + 60 * fuel
      → IsMinute start end t
      → Has t (minutes_from fuel (pos start) (pos end))
  minutes_complete zero start t enough (i, e, below) = absurd (omega arith)
  minutes_complete (suc fuel) start t enough (zero, e, below) =
      subst (Has t) (sym (minute_after fuel start (omega arith))) (inl (e ∙ ap pos (omega arith)))
  minutes_complete (suc fuel) start t enough (suc i, e, below) =
      subst (Has t) (sym (minute_after fuel start (omega arith))) (
        inr (
          minutes_complete fuel (start + 60) t (omega arith)
            (i, e ∙ ap pos (omega arith), omega arith)))

length-minutes :
    (end : ℕ)
    → end + 60 < 2 ^ 63
    → (fuel n start : ℕ) → end ≤ start + 60 * n
    → length (minutes_from fuel (pos start) (pos end)) ≤ n
unfolding minutes_from
length-minutes end small zero n start enough = omega arith
length-minutes end small (suc fuel) n start enough = elim (Bool-cases (ltb start end)) [
  | inr off ↦ rw (no_minute end small (suc fuel) start (ground arith)) (omega arith)
  | inl on ↦
      let low : start < end = ground arith in
      rw (minute_after end small fuel start low)
        (omega (arith, length-minutes end small fuel (n - 1) (start + 60) (omega arith)))
]

-- A range has a time for each minute that begins in it.
pub length-time_stamps :
    (start end n : ℕ)
    → end + 60 < 2 ^ 63
    → end ≤ start + 60 * n
    → length (time_stamps (pos start) (pos end)) ≤ n
unfolding time_stamps
length-time_stamps start end n small enough =
    length-minutes end small (suc (pos_part (sub64 (pos end) (pos start)) / 60)) n start enough

enough_rounds :
    (start end : ℕ)
    → end + 60 < 2 ^ 63
    → end ≤ start + 60 * suc (pos_part (sub64 (pos end) (pos start)) / 60)
enough_rounds start end small = elim (Bool-cases (ltb start end)) [
  | inr off ↦ let high : end ≤ start = ground arith in omega arith
  | inl on ↦
      let low : start ≤ end = ground arith in
      rw (sub64_pos end start low (omega arith)) (omega arith)
]

-- For a range with times from 0 on that does not end within a minute of 2 ^ 63, the times that a query
-- asks for are exactly those that lie a whole number of minutes after the start and before the end.
pub time_stamps_lem :
    (start end : ℕ) (t : ℤ)
    → end + 60 < 2 ^ 63
    → Has t (time_stamps (pos start) (pos end)) ↔ IsMinute start end t
unfolding time_stamps
time_stamps_lem start end t small =
    let rounds : ℕ = pos_part (sub64 (pos end) (pos start)) / 60 in
    (
      minutes_sound end small (suc rounds) start t,
      minutes_complete end small (suc rounds) start t (enough_rounds start end small),
    )
