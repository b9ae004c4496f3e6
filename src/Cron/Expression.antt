-- ===== src/Cron/Expression.antt =====
-- `Expression`, `Parse` and `Match` of cron/cron.go.
use goscheduler.Shared.{ℕ, List, [], ◌∷◌, ◌++◌, ◌⊎◌, inl, inr, Bool, true, false, ◌&&◌, ◌||◌}
use goscheduler.Shared.Int.{ℤ, pos, eqb_ℤ}
use goscheduler.Shared.Text.{Text, split}
use goscheduler.Cron.Outcome.{Outcome, ok, fails, panics, runs_on, Message, ◌>>=◌, not_expression}
use goscheduler.Cron.Fields.{parse_minute, parse_hour, parse_day, parse_month, parse_weekday}

pub record Expression : Type 0 where
  pub minute : List ℤ
  pub hour : List ℤ
  pub day : List ℤ
  pub month : List ℤ
  pub weekday : List ℤ

-- The calendar fields of a `time.Time` that `Match` reads.
pub record Time : Type 0 where
  pub minute : ℕ
  pub hour : ℕ
  pub day : ℕ
  pub month : ℕ
  pub weekday : ℕ

-- `if v, err := parse(...); len(err) != 0 { … } else { … }`: the message does not end the caller.
abbrev pub attempt : Outcome (List ℤ) → Outcome (List ℤ ⊎ Message)
attempt (ok l) = ok (inl l)
attempt (fails m) = ok (inr m)
attempt panics = panics
attempt runs_on = runs_on

-- A field is left at its zero value where its parser gave a message.
abbrev pub values : List ℤ ⊎ Message → List ℤ
values (inl l) = l
values (inr m) = []

abbrev pub errors : List ℤ ⊎ Message → List Message
errors (inl l) = []
errors (inr m) = m ∷ []

abbrev empty_expression : Expression
empty_expression = record { minute = []; hour = []; day = []; month = []; weekday = [] }

unfoldable pub parse_fields : List Text → Outcome (Expression × List Message)
parse_fields (a ∷ b ∷ c ∷ d ∷ e ∷ []) = do
  minutes ← attempt (parse_minute a)
  hours ← attempt (parse_hour b)
  days ← attempt (parse_day c)
  months ← attempt (parse_month d)
  weekdays ← attempt (parse_weekday e)
  ok (
    record {
      minute = values minutes;
      hour = values hours;
      day = values days;
      month = values months;
      weekday = values weekdays;
    },
    errors minutes ++ errors hours ++ errors days ++ errors months ++ errors weekdays,
  )
parse_fields _ = ok (empty_expression, not_expression ∷ [])

unfoldable pub parse : Text → Outcome (Expression × List Message)
unfolding parse_fields
parse s = parse_fields (split b' ' s)

abbrev pub occurs : List ℤ → ℤ → Bool
occurs [] v = false
occurs (x ∷ xs) v = eqb_ℤ x v || occurs xs v

-- The closure `contains` of `Match`: an empty field admits every value.
abbrev pub contains : List ℤ → ℤ → Bool
contains [] v = true
contains (x ∷ xs) v = occurs (x ∷ xs) v

unfoldable pub matches : Expression → Time → Bool
matches e t =
    contains e.minute (pos t.minute)
    && contains e.hour (pos t.hour)
    && contains e.day (pos t.day)
    && contains e.month (pos t.month)
    && contains e.weekday (pos t.weekday)
