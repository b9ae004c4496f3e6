-- ===== src/Cron/Defects.antt =====
-- Inputs of cron/cron.go on which the parsers do not do what their comments say.
use goscheduler.Shared.{
  ℕ, ◌+◌, ◌-◌, ◌^◌, ◌≤◌, ◌<◌, List, [], ◌∷◌, ◌++◌, ◌≡◌, refl, ◌∙◌, map, keep, arith, some, none,
  false, Bool-cases, inl, inr, leb, ltb, ◌&&◌, ◌||◌,
}
use goscheduler.Shared.Int.{ℤ, pos}
use goscheduler.Shared.Text.{Text, Lacks, codes, text_eq, split, itoa, parse_int}
use goscheduler.Shared.Text.Split.{split-append, split_single}
use goscheduler.Cron.Outcome.{ok, panics, runs_on, not_day}
use goscheduler.Cron.Steps.{steps_loop, steps, step_start, step_parts, parse_step}
use goscheduler.Cron.Fields.{parse_minute, parse_day, parse_numeric, to_day}
use goscheduler.Cron.Expression.{parse, parse_fields, contains}
use goscheduler.Cron.Progression.{steps_loop_stuck, divides}
use goscheduler.Cron.FieldBounds.{day}
use goscheduler.Cron.Meaning.{
  parse_numeric_star, multiples, multiples-cons, to_day-map, InField, contains-map,
  positive_multiples, mem-positive, mem-multiples,
}

-- `*/b` where `b` is a zero, in any spelling.
star_zero :
    (b : Text) (range : ℕ)
    → Lacks b'/' b
    → parse_int b ≡ some (pos 0)
    → 0 < range
    → parse_step (b'*' ∷ b'/' ∷ b) (pos range) ≡ runs_on
unfolding parse_step step_parts step_start steps
star_zero b range h e k =
    rw (split-append b'/' (b'*' ∷ []) b (omega arith), split_single b'/' b h, step_parts, e)
      (ground (arith, steps_loop_stuck (range + 1) 0 range k))

-- If the minute field is `*/b` with `b` a zero, the call of `Parse` does not return: its loop ends
-- after no number of rounds.
pub parse_zero_step :
    (s b c d e f : Text)
    → split b' ' s ≡ (b'*' ∷ b'/' ∷ b) ∷ c ∷ d ∷ e ∷ f ∷ []
    → Lacks b'/' b
    → parse_int b ≡ some (pos 0)
    → (parse s ≡ runs_on) × ((fuel : ℕ) → steps_loop fuel (pos 0) (pos 60) (pos 0) ≡ none)
unfolding parse parse_fields parse_minute parse_numeric
parse_zero_step s b c d e f h k z = (
  rw (h, parse, parse_fields, star_zero b 60 k z (omega arith)),
  λ fuel. steps_loop_stuck fuel 0 60 (omega arith) (omega arith),
)

number-ne-star : (a : Text) (v : ℤ) → parse_int a ≡ some v → text_eq a (codes "*") ≡ false
unfolding parse_int
number-ne-star [] v h = refl
number-ne-star (c ∷ []) v h = ground arith
number-ne-star (c ∷ d ∷ a) v h = ground arith

slash-ne-star : (a b : Text) → text_eq (a ++ b'/' ∷ b) (codes "*") ≡ false
slash-ne-star [] b = refl
slash-ne-star (c ∷ []) b = ground arith
slash-ne-star (c ∷ d ∷ a) b = ground arith

number_zero :
    (a b : Text) (v range : ℤ)
    → Lacks b'/' a
    → Lacks b'/' b
    → parse_int a ≡ some v
    → parse_int b ≡ some (pos 0)
    → parse_step (a ++ b'/' ∷ b) range ≡ panics
unfolding parse_step step_parts step_start
number_zero a b v range ka kb ra rb = rw (
  split-append b'/' a b ka,
  split_single b'/' b kb,
  step_parts,
  rb,
  step_start,
  number-ne-star a v ra,
  ra,
)

-- If the minute field is `a/b` with `a` a number and `b` a zero, the call of `Parse` panics.
parse_zero_divisor :
    (s a b c d e f : Text) (v : ℤ)
    → split b' ' s ≡ (a ++ b'/' ∷ b) ∷ c ∷ d ∷ e ∷ f ∷ []
    → Lacks b'/' a
    → Lacks b'/' b
    → parse_int a ≡ some v
    → parse_int b ≡ some (pos 0)
    → parse s ≡ panics
unfolding parse parse_fields parse_minute parse_numeric
parse_zero_divisor s a b c d e f v h ka kb ra rb = rw (
  h,
  parse,
  parse_fields,
  parse_minute,
  parse_numeric,
  slash-ne-star a b,
  number_zero a b v (pos 60) ka kb ra rb,
)

no_days_left : (n : ℕ) → 31 ≤ n → to_day (map pos (multiples n 31)) ≡ []
no_days_left n h =
    let none_left : 31 - (0 + n) ≡ 0 = omega arith in
    rw (to_day-map (multiples n 31), multiples-cons n 30 (omega arith), none_left)

-- A step of the days of 31 or more leaves no day at all, which `Match` takes for every day.
parse_day_wide_step :
    (n : ℕ) → 31 ≤ n → n < 2 ^ 62 → parse_day (b'*' ∷ b'/' ∷ itoa n) ≡ parse_day (codes "*")
unfolding parse_day
parse_day_wide_step n h k =
    parse_numeric_star n 30 (pos 1) (pos 31) not_day to_day (omega arith) (omega arith)
    ∙ rw (no_days_left n h, parse_numeric) (unfold parse_numeric in refl)

-- For a step n above 0 and below 2 ^ 62: the day field `*/n` is read without an error. The result matches
-- a day of a month, if n is at most 30, exactly when the day is a multiple of n and not the 31st; and
-- if n is 31 or more, whatever the day is.
pub parse_day_steps :
    (n : ℕ)
    → 0 < n
    → n < 2 ^ 62
    → (l : List ℤ) × (parse_day (b'*' ∷ b'/' ∷ itoa n) ≡ ok l)
      × ((v : ℕ) → InField day v → contains l (pos v) ≡ (leb 31 n || (divides n v && ltb v 31)))
unfolding parse_day parse_numeric
parse_day_steps n h k = elim (Bool-cases (leb 31 n)) [
  | inl y ↦ ([], parse_day_wide_step n (ground arith) k, λ v w. rw y refl)
  | inr z ↦ (
    to_day (map pos (multiples n 31)),
    parse_numeric_star n 30 (pos 1) (pos 31) not_day to_day h (omega arith),
    λ v w.
        rw (z, to_day-map (multiples n 31))
          (contains-map v (keep (ltb 0) (multiples n 31)) (positive_multiples n h (ground arith))
            ∙ (mem-positive v (multiples n 31) w.0 ∙ mem-multiples v n 31)),
  )
]
