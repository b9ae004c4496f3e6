-- ===== src/Cron/Fields.antt =====
-- `ParseMinute` to `ParseWeekday` of cron/cron.go. `Minute` to `Weekday` are int64, here ℤ.
use goscheduler.Shared.{ℕ, ◌+◌, List, [], ◌∷◌, ◌++◌, Option, none, some, ◌||◌, if◌then◌else◌, keep}
use goscheduler.Shared.Int.{ℤ, pos, ltb_ℤ}
use goscheduler.Shared.Text.{Text, codes, text_eq, split, parse_int, to_upper}
use goscheduler.Cron.Outcome.{
  Outcome, ok, fails, Message, ◌>>=◌, not_int, not_minute, not_hour, not_day, not_month,
  not_weekday,
}
use goscheduler.Cron.Steps.{parse_step, parse_range}

-- One number within the bounds.
unfoldable pub parse_number : ℤ → ℤ → Message → Text → Outcome (List ℤ)
parse_number min max message part = elim (parse_int part) [
  | none ↦ fails (not_int part)
  | some v ↦ if ltb_ℤ v min || ltb_ℤ max v then fails message else ok (v ∷ [])
]

-- A part that is no name: a range if `ParseRange` gives values, else one number.
unfoldable pub parse_part : ℤ → ℤ → Message → (List ℤ → List ℤ) → Text → Outcome (List ℤ)
unfolding parse_number
parse_part min max message convert part = do
  range ← parse_range part min max
  elim range [ [] ↦ parse_number min max message part | v ∷ vs ↦ ok (convert (v ∷ vs)) ]

-- The loop over the comma separated parts; the first message ends it.
unfoldable pub parse_parts : (Text → Outcome (List ℤ)) → List Text → Outcome (List ℤ)
parse_parts parse [] = ok []
parse_parts parse (p ∷ ps) = do v ← parse p; vs ← parse_parts parse ps; ok (v ++ vs)

-- A step if `ParseStep` gives values, else the parts.
unfoldable pub parse_numeric : ℤ → ℤ → ℤ → Message → (List ℤ → List ℤ) → Text → Outcome (List ℤ)
unfolding parse_part parse_parts
parse_numeric range min max message convert s = if text_eq s (codes "*") then ok [] else do
  found ← parse_step s range
  elim found [
    | [] ↦ parse_parts (parse_part min max message convert) (split b',' s)
    | v ∷ vs ↦ ok (convert (v ∷ vs))
  ]

unfoldable pub parse_minute : Text → Outcome (List ℤ)
unfolding parse_numeric
parse_minute = parse_numeric (pos 60) (pos 0) (pos 59) not_minute (λ l. l)

unfoldable pub parse_hour : Text → Outcome (List ℤ)
unfolding parse_numeric
parse_hour = parse_numeric (pos 24) (pos 0) (pos 23) not_hour (λ l. l)

-- `toDay` drops what is not above 0.
unfoldable pub to_day : List ℤ → List ℤ
to_day = keep (ltb_ℤ (pos 0))

unfoldable pub parse_day : Text → Outcome (List ℤ)
unfolding parse_numeric to_day
parse_day = parse_numeric (pos 31) (pos 1) (pos 31) not_day to_day

abbrev pub month_names : List Text
month_names =
    codes "JAN"
    ∷ codes "FEB"
    ∷ codes "MAR"
    ∷ codes "APR"
    ∷ codes "MAY"
    ∷ codes "JUN"
    ∷ codes "JUL"
    ∷ codes "AUG"
    ∷ codes "SEP"
    ∷ codes "OCT"
    ∷ codes "NOV"
    ∷ codes "DEC"
    ∷ []

abbrev pub weekday_names : List Text
weekday_names =
    codes "SUN"
    ∷ codes "MON"
    ∷ codes "TUE"
    ∷ codes "WED"
    ∷ codes "THU"
    ∷ codes "FRI"
    ∷ codes "SAT"
    ∷ []

-- `for i, val := range shortNames`: the first index, counted from `i`, of a name.
unfoldable pub name_index : ℕ → List Text → Text → Option ℕ
name_index i [] t = none
name_index i (n ∷ ns) t = if text_eq n t then some i else name_index (i + 1) ns t

unfoldable pub parse_named : List Text → ℕ → ℤ → ℤ → Message → Text → Outcome (List ℤ)
unfolding name_index parse_part
parse_named names first min max message part = elim (name_index 0 names (to_upper part)) [
  | some i ↦ ok (pos (i + first) ∷ [])
  | none ↦ parse_part min max message (λ l. l) part
]

unfoldable pub parse_month : Text → Outcome (List ℤ)
unfolding parse_named parse_parts
parse_month s =
    if text_eq s (codes "*")
    then ok []
    else parse_parts (parse_named month_names 1 (pos 1) (pos 12) not_month) (split b',' s)

unfoldable pub parse_weekday : Text → Outcome (List ℤ)
unfolding parse_named parse_parts
parse_weekday s =
    if text_eq s (codes "*")
    then ok []
    else parse_parts (parse_named weekday_names 0 (pos 0) (pos 6) not_weekday) (split b',' s)
