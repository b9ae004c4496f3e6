-- ===== src/Cron/Examples.antt =====
-- The theorems on cron/cron.go at concrete inputs, and runs of its parsers.
use goscheduler.Shared.{
  ℕ, List, [], ◌∷◌, ◌≡◌, refl, arith, map, All, none, ◌↔◌, leb, ltb, ◌&&◌, ◌||◌,
}
use goscheduler.Shared.Int.{ℤ, pos, add64}
use goscheduler.Shared.Text.{codes, split, parse_int, itoa}
use goscheduler.Cron.Outcome.{ok, runs_on}
use goscheduler.Cron.Steps.{parse_step, step_start, parse_range, steps, steps_loop}
use goscheduler.Cron.Fields.{parse_day, parse_weekday}
use goscheduler.Cron.Expression.{Expression, Time, parse, matches, contains}
use goscheduler.Cron.RangeText.{Within}
use goscheduler.Cron.FieldBounds.{minute, day, weekday, low, high, parse_field, parse_field-Within}
use goscheduler.Cron.RoundTrip.{single, range, print_items, items_values}
use goscheduler.Cron.FieldRoundTrip.{parse_field-items}
use goscheduler.Cron.Meaning.{any, listed, every, InField}
use goscheduler.Cron.Whole.{Spec, IsValid, IsTime, print, meets, parse-meets, AllRead, parse-ok_iff}
use goscheduler.Cron.Defects.{parse_zero_step, parse_day_steps}
use goscheduler.Cron.Progression.{divides}

-- Every ten minutes in the hours 9 to 17, on the 1st and the 15th.
abbrev office : Spec
office = record {
  minutes = every 10;
  hours = listed (range 9 17) [];
  days = listed (single 1) (single 15 ∷ []);
  months = any;
  weekdays = any;
}

office-IsValid : IsValid office
office-IsValid = record {
  minutes = omega arith;
  hours = omega arith;
  days = omega arith;
  months = tt;
  weekdays = tt;
}

parse-meets_example :
    (e : Expression) × (parse (print office) ≡ ok (e, []))
    × ((t : Time) → IsTime t → matches e t ≡ meets office t)
parse-meets_example = parse-meets office office-IsValid

abbrev nightly : Expression
nightly = record { minute = pos 30 ∷ []; hour = pos 2 ∷ []; day = []; month = []; weekday = [] }

parse-ok_iff_example :
    (parse (codes "30 2 * * *") ≡ ok (nightly, []))
    ↔ AllRead nightly (split b' ' (codes "30 2 * * *"))
parse-ok_iff_example = parse-ok_iff (codes "30 2 * * *") nightly

parse_field-items_example :
    parse_field minute (print_items (range 5 7 ∷ single 30 ∷ []))
    ≡ ok (map pos (items_values (range 5 7 ∷ single 30 ∷ [])))
parse_field-items_example = parse_field-items minute (range 5 7) (single 30 ∷ []) (omega arith)

some_weekdays : parse_weekday (codes "Sat,1-3") ≡ ok (pos 6 ∷ pos 1 ∷ pos 2 ∷ pos 3 ∷ [])
unfolding parse_weekday parse_step step_start split parse_range parse_int steps steps_loop add64
some_weekdays = refl

parse_field-Within_example :
    All (Within (low weekday) (high weekday)) (pos 6 ∷ pos 1 ∷ pos 2 ∷ pos 3 ∷ [])
parse_field-Within_example =
    parse_field-Within weekday (codes "Sat,1-3") (omega arith) some_weekdays

parse_zero_step_example :
    (parse (codes "*/0 * * * *") ≡ runs_on)
    × ((fuel : ℕ) → steps_loop fuel (pos 0) (pos 60) (pos 0) ≡ none)
unfolding split parse_int
parse_zero_step_example =
    parse_zero_step (codes "*/0 * * * *") (codes "0") (codes "*") (codes "*") (codes "*")
      (codes "*") refl (omega arith) refl

parse_day_steps_example :
    (l : List ℤ) × (parse_day (codes "*/31") ≡ ok l)
    × ((v : ℕ) → InField day v → contains l (pos v) ≡ (leb 31 31 || (divides 31 v && ltb v 31)))
unfolding itoa
parse_day_steps_example = parse_day_steps 31 (omega arith) (omega arith)
