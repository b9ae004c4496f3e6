-- ===== src/Cron/Steps.antt =====
-- `steps`, `ParseStep` and `ParseRange` of cron/cron.go.
use mathlib.Core.Option
use goscheduler.Shared.{
  ℕ, zero, suc, ◌+◌, ◌-◌, ◌^◌, List, [], ◌∷◌, Option, none, some, ◌&&◌, if◌then◌else◌,
}
use goscheduler.Shared.Int.{
  ℤ, pos, negsuc, pos_part, neg_part, ltb_ℤ, leb_ℤ, eqb_ℤ, add64, sub64, mul64, quot64,
}
use goscheduler.Shared.Text.{Text, codes, text_eq, split, parse_int}
use goscheduler.Cron.Outcome.{
  Outcome, ok, fails, panics, runs_on, ◌>>=◌, step_value, start_value, end_value, invalid_format,
  invalid_range, past_range,
}

-- `for ; start < end; start += increment`, with fuel; `none` if the loop has not ended.
unfoldable pub steps_loop : ℕ → ℤ → ℤ → ℤ → Option (List ℤ)
steps_loop zero start end increment = none
steps_loop (suc fuel) start end increment =
    let rest = steps_loop fuel (add64 start increment) end increment in
    if ltb_ℤ start end then Option.map (◌∷◌ start) rest else some []

-- For an increment from 0 on one round more than there are integers from `start` to `end`: enough above
-- 0, where no sum wraps around, since the ends are at most 60 and the starts of steps are multiples of
-- the increment; and with 0 no number is enough. For an increment below 0 one round more than there
-- are values of `start`: a loop that has not ended by then has come back to a value.
abbrev pub rounds : ℤ → ℤ → ℤ → ℕ
rounds start end (pos increment) =
    suc (pos_part end + neg_part start - (pos_part start + neg_part end))
rounds start end (negsuc increment) = suc (2 ^ 64)

unfoldable pub steps : ℤ → ℤ → ℤ → Outcome (List ℤ)
steps start end increment = elim (steps_loop (rounds start end increment) start end increment) [
  | none ↦ runs_on
  | some l ↦ ok l
]

-- The start of a step: 0 for `*`, else the next multiple of the increment. Go's division panics on 0.
unfoldable pub step_start : Text → Text → ℤ → Outcome ℤ
step_start s first increment =
    if text_eq first (codes "*") then ok (pos 0) else elim (parse_int first) [
      | none ↦ fails (start_value s)
      | some start ↦
          if eqb_ℤ increment (pos 0)
          then panics
          else ok (mul64 (quot64 (sub64 (add64 start increment) (pos 1)) increment) increment)
    ]

unfoldable pub step_parts : Text → ℤ → List Text → Outcome (List ℤ)
unfolding step_start
step_parts s range [] = fails (invalid_format s)
step_parts s range (a ∷ []) = ok []
step_parts s range (a ∷ b ∷ []) = elim (parse_int b) [
  | none ↦ fails (step_value s)
  | some increment ↦ do
    start ← step_start s a increment
    if ltb_ℤ range start then fails past_range else steps start range increment
]
step_parts s range (a ∷ b ∷ c ∷ r) = fails (invalid_format s)

unfoldable pub parse_step : Text → ℤ → Outcome (List ℤ)
unfolding step_parts
parse_step s range = step_parts s range (split b'/' s)

unfoldable pub range_parts : Text → ℤ → ℤ → List Text → Outcome (List ℤ)
range_parts s min max [] = fails (invalid_format s)
range_parts s min max (a ∷ []) = ok []
range_parts s min max (a ∷ b ∷ []) = elim (parse_int a) [
  | none ↦ fails (start_value s)
  | some start ↦ elim (parse_int b) [
    | none ↦ fails (end_value s)
    | some end ↦
        if leb_ℤ start end && leb_ℤ min start && leb_ℤ end max
        then steps start (add64 end (pos 1)) (pos 1)
        else fails (invalid_range s)
  ]
]
range_parts s min max (a ∷ b ∷ c ∷ r) = fails (invalid_format s)

unfoldable pub parse_range : Text → ℤ → ℤ → Outcome (List ℤ)
unfolding range_parts
parse_range s min max = range_parts s min max (split b'-' s)
