-- ===== src/Cron/FieldBounds.antt =====
-- The bounds of what the five field parsers of cron/cron.go return.
use goscheduler.Shared.{ℕ, ◌+◌, ◌^◌, ◌≤◌, ◌<◌, List, [], ◌∷◌, ◌≡◌, arith, All, All-mono, length}
use goscheduler.Shared.Int.{ℤ, pos, ◌≤ℤ◌, ◌<ℤ◌}
use goscheduler.Shared.Text.{Text, Lacks, split}
use goscheduler.Cron.Outcome.{
  Outcome, ok, Message, OnOk, OnOk-apply, OnOk-mono, not_minute, not_hour, not_day, not_month,
  not_weekday,
}
use goscheduler.Cron.Steps.{parse_step}
use goscheduler.Cron.Fields.{
  parse_part, parse_parts, parse_numeric, to_day, parse_minute, parse_hour, parse_day, month_names,
  weekday_names, parse_named, parse_month, parse_weekday,
}
use goscheduler.Cron.RangeText.{Within}
use goscheduler.Cron.Bounds.{
  Below, parse_parts-All, parse_part-Within, parse_named-Within, parse_numeric-All,
  parse_step-Lacks, parse_step-Below,
}

-- The five fields, their parsers, and the bounds that the comments of the source give.
pub data FieldName : Type 0 where
  minute hour day month weekday : FieldName

abbrev pub parse_field : FieldName → Text → Outcome (List ℤ)
parse_field minute = parse_minute
parse_field hour = parse_hour
parse_field day = parse_day
parse_field month = parse_month
parse_field weekday = parse_weekday

abbrev pub low : FieldName → ℕ
low day = 1
low month = 1
low _ = 0

abbrev pub high : FieldName → ℕ
high minute = 59
high hour = 23
high day = 31
high month = 12
high weekday = 6

-- The parts of a numeric field.
parts_Within :
    (lo hi : ℕ) (message : Message) (convert : List ℤ → List ℤ) (s : Text)
    → hi + 2 < 2 ^ 63
    → ((l : List ℤ) → All (Within lo hi) l → All (Within lo hi) (convert l))
    → OnOk
        (All (Within lo hi))
        (parse_parts (parse_part (pos lo) (pos hi) message convert) (split b',' s))
parts_Within lo hi message convert s room conv =
    parse_parts-All (Within lo hi) _ (λ p. parse_part-Within lo hi message room convert p conv)
      (split b',' s)

to_day-All {ℓ} : (P : ℤ → Type ℓ) (l : List ℤ) → All P l → All P (to_day l)
unfolding to_day
to_day-All P [] h = tt
to_day-All P (v ∷ l) h = ground (arith, to_day-All P l h.1)

-- What the filter of the days leaves lies above 0.
to_day-Within : (l : List ℤ) → Below (pos 31) l → All (Within 1 31) (to_day l)
unfolding to_day
to_day-Within [] h = tt
to_day-Within (v ∷ l) h = ground (arith, to_day-Within l h.1)

no_slash :
    (range lo hi : ℕ) (message : Message) (convert : List ℤ → List ℤ) (s : Text)
    → hi + 2 < 2 ^ 63
    → ((l : List ℤ) → All (Within lo hi) l → All (Within lo hi) (convert l))
    → Lacks b'/' s
    → OnOk (All (Within lo hi)) (parse_numeric (pos range) (pos lo) (pos hi) message convert s)
no_slash range lo hi message convert s room conv h =
    parse_numeric-All (Within lo hi) (pos range) (pos lo) (pos hi) message convert s
      (rw (parse_step-Lacks s (pos range) h) (conv [] tt))
      (parts_Within lo hi message convert s room conv)

named :
    (names : List Text) (first lo hi : ℕ) (message : Message) (s : Text)
    → hi + 2 < 2 ^ 63
    → lo ≤ first
    → length names + first ≤ hi + 1
    → OnOk
        (All (Within lo hi))
        (parse_parts (parse_named names first (pos lo) (pos hi) message) (split b',' s))
named names first lo hi message s room h k =
    parse_parts-All (Within lo hi) _ (λ p. parse_named-Within lo hi message room names first p h k)
      (split b',' s)

field-Within :
    (f : FieldName) (s : Text)
    → Lacks b'/' s
    → OnOk (All (Within (low f) (high f))) (parse_field f s)
unfolding parse_minute parse_hour parse_day parse_month parse_weekday
field-Within minute s h = no_slash 60 0 59 not_minute (λ l. l) s (omega arith) (λ l w. w) h
field-Within hour s h = no_slash 24 0 23 not_hour (λ l. l) s (omega arith) (λ l w. w) h
field-Within day s h = no_slash 31 1 31 not_day to_day s (omega arith) (to_day-All (Within 1 31)) h
field-Within month s h =
    ground (arith, named month_names 1 1 12 not_month s (omega arith) (omega arith) (omega arith))
field-Within weekday s h =
    ground
      (arith, named weekday_names 0 0 6 not_weekday s (omega arith) (omega arith) (omega arith))

-- Whatever text without a slash a field accepts, its values lie within the bounds of that field.
pub parse_field-Within :
    (f : FieldName) (s : Text) {l : List ℤ}
    → Lacks b'/' s
    → parse_field f s ≡ ok l
    → All (Within (low f) (high f)) l
parse_field-Within f s h e =
    OnOk-apply (All (Within (low f) (high f))) (parse_field f s) (field-Within f s h) e

-- Whatever text the day field accepts, steps included, its values lie within 1 and 31.
parse_day-Within : (s : Text) {l : List ℤ} → parse_day s ≡ ok l → All (Within 1 31) l
unfolding parse_day
parse_day-Within s e = OnOk-apply (All (Within 1 31)) (parse_day s) within e
  where
    within : OnOk (All (Within 1 31)) (parse_day s)
    within =
        parse_numeric-All (Within 1 31) (pos 31) (pos 1) (pos 31) not_day to_day s
          (OnOk-mono (Below (pos 31)) _ (parse_step s (pos 31)) to_day-Within
            (parse_step-Below s (pos 31)))
          (parts_Within 1 31 not_day to_day s (omega arith) (to_day-All (Within 1 31)))

module _ (range hi : ℕ) (message : Message) (s : Text) (room : hi + 2 < 2 ^ 63) where
  -- Steps included, a numeric field whose steps end below its highest value stays below it.
  at_most :
      range ≤ hi + 1
      → OnOk
          (All (λ v. v ≤ℤ pos hi))
          (parse_numeric (pos range) (pos 0) (pos hi) message (λ l. l) s)
  at_most h =
      parse_numeric-All (λ v. v ≤ℤ pos hi) (pos range) (pos 0) (pos hi) message (λ l. l) s
        (OnOk-mono (Below (pos range)) _ (parse_step s (pos range))
          (λ l w. All-mono (λ v. v <ℤ pos range) (λ v. v ≤ℤ pos hi) (λ v p. omega arith) l w)
          (parse_step-Below s (pos range)))
        (OnOk-mono (All (Within 0 hi)) _ (parse_parts _ (split b',' s))
          (λ l w. All-mono (Within 0 hi) (λ v. v ≤ℤ pos hi) (λ v p. p.1) l w)
          (parts_Within 0 hi message (λ l. l) s room (λ l w. w)))

-- Whatever text the minute or the hour field accepts, steps included, its values are at most 59
-- and 23.
parse_time_at_most :
    (s t : Text) {l r : List ℤ}
    → parse_minute s ≡ ok l
    → parse_hour t ≡ ok r
    → All (λ v. v ≤ℤ pos 59) l × All (λ v. v ≤ℤ pos 23) r
unfolding parse_minute parse_hour
parse_time_at_most s t e f = (
  OnOk-apply _ (parse_minute s) (at_most 60 59 not_minute s (omega arith) (omega arith)) e,
  OnOk-apply _ (parse_hour t) (at_most 24 23 not_hour t (omega arith) (omega arith)) f,
)
