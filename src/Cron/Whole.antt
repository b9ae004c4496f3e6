-- ===== src/Cron/Whole.antt =====
-- `Parse` and `Match` of cron/cron.go on whole expressions.
use goscheduler.Shared.{List, [], ◌∷◌, ◌++◌, ◌≡◌, refl, ap, ◌∙◌, arith, ◌↔◌, ◌⊎◌, inl, Bool, ◌&&◌}
use goscheduler.Shared.Int.{ℤ}
use goscheduler.Shared.Text.{Text, Lacks, split, join}
use goscheduler.Shared.Text.Split.{split-join}
use goscheduler.Cron.Outcome.{Outcome, ok, fails, panics, runs_on, >>=_parts, Message}
use goscheduler.Cron.Fields.{parse_minute, parse_hour, parse_day, parse_month, parse_weekday}
use goscheduler.Cron.Expression.{
  Expression, Time, parse, parse_fields, matches, attempt, values, errors,
}
use goscheduler.Cron.StepText.{itoa-Lacks}
use goscheduler.Cron.FieldBounds.{minute, hour, day, month, weekday}
use goscheduler.Cron.RoundTrip.{join-Lacks, print_items}
use goscheduler.Cron.Meaning.{
  FieldSpec, any, listed, every, print_spec, IsSpec, admits, InField, spec-Reads,
}

-- An expression as its author means it, without names and without steps from a number on.
pub record Spec : Type 0 where
  pub minutes : FieldSpec
  pub hours : FieldSpec
  pub days : FieldSpec
  pub months : FieldSpec
  pub weekdays : FieldSpec

abbrev texts : Spec → List Text
texts x =
    print_spec x.minutes
    ∷ print_spec x.hours
    ∷ print_spec x.days
    ∷ print_spec x.months
    ∷ print_spec x.weekdays
    ∷ []

abbrev pub print : Spec → Text
print x = join b' ' (texts x)

pub record IsValid (x : Spec) : Type 0 where
  pub minutes : IsSpec minute x.minutes
  pub hours : IsSpec hour x.hours
  pub days : IsSpec day x.days
  pub months : IsSpec month x.months
  pub weekdays : IsSpec weekday x.weekdays

-- What the standard library's calendar guarantees of the fields of a time.
pub record IsTime (t : Time) : Type 0 where
  pub minutes : InField minute t.minute
  pub hours : InField hour t.hour
  pub days : InField day t.day
  pub months : InField month t.month
  pub weekdays : InField weekday t.weekday

abbrev pub meets : Spec → Time → Bool
meets x t =
    admits minute x.minutes t.minute
    && admits hour x.hours t.hour
    && admits day x.days t.day
    && admits month x.months t.month
    && admits weekday x.weekdays t.weekday

print_spec-Lacks : (sp : FieldSpec) → Lacks b' ' (print_spec sp)
unfolding print_spec print_items
print_spec-Lacks any = omega arith
print_spec-Lacks (listed i items) =
    join-Lacks b' ' (i ∷ items) (omega arith) (omega arith) (omega arith)
print_spec-Lacks (every n) = (omega arith, (omega arith, itoa-Lacks b' ' n (omega arith)))

five_parts : (x : Spec) → split b' ' (print x) ≡ texts x
five_parts x =
    split-join b' ' (print_spec x.minutes)
      (print_spec x.hours ∷ print_spec x.days ∷ print_spec x.months ∷ print_spec x.weekdays ∷ [])
      (
        print_spec-Lacks x.minutes,
        (
          print_spec-Lacks x.hours,
          (print_spec-Lacks x.days, (print_spec-Lacks x.months, (print_spec-Lacks x.weekdays, tt))),
        ),
      )

-- An expression of five fields, each of them `*`, a list of numbers and of ranges within the field's
-- bounds, or `*/n` with n from 1 to 60 for the minutes, from 1 to 24 for the hours and from 2 to 30 for
-- the days, is read without an error. The result matches exactly the times at which each field is any
-- value for `*`, one of the list, or a multiple of n.
pub parse-meets :
    (x : Spec)
    → IsValid x
    → (e : Expression) × (parse (print x) ≡ ok (e, []))
      × ((t : Time) → IsTime t → matches e t ≡ meets x t)
unfolding parse parse_fields matches
parse-meets x v =
    let (a, ra, ma) = spec-Reads minute x.minutes v.minutes in
    let (b, rb, mb) = spec-Reads hour x.hours v.hours in
    let (c, rc, mc) = spec-Reads day x.days v.days in
    let (d, rd, md) = spec-Reads month x.months v.months in
    let (w, rw', mw) = spec-Reads weekday x.weekdays v.weekdays in
    (
      record { minute = a; hour = b; day = c; month = d; weekday = w },
      rw (five_parts x, ra, rb, rc, rd, rw'),
      λ t k. rw (
        ma t.minute k.minutes,
        mb t.hour k.hours,
        mc t.day k.days,
        md t.month k.months,
        mw t.weekday k.weekdays,
      ),
    )

attempt-eq-inl : (m : Outcome (List ℤ)) (l : List ℤ) → attempt m ≡ ok (inl l) → m ≡ ok l
attempt-eq-inl (ok r) l h = ground arith
attempt-eq-inl (fails m) l h = absurd (ground arith)
attempt-eq-inl panics l h = absurd (ground arith)
attempt-eq-inl runs_on l h = absurd (ground arith)

-- With no message left every field has its values.
no_errors :
    (a b c d w : List ℤ ⊎ Message) (e : Expression)
    → ◌≡◌ {A = Outcome (Expression × List Message)}
        (ok (
          record {
            minute = values a;
            hour = values b;
            day = values c;
            month = values d;
            weekday = values w;
          },
          errors a ++ errors b ++ errors c ++ errors d ++ errors w,
        ))
        (ok (e, []))
    → (a ≡ inl e.minute)
      × (b ≡ inl e.hour)
      × (c ≡ inl e.day)
      × (d ≡ inl e.month)
      × (w ≡ inl e.weekday)
no_errors a b c d w e h = ground arith

-- Five parts, each accepted by its field parser with the values that the expression holds.
abbrev pub AllRead : Expression → List Text → Type 0
AllRead e parts =
    (a : Text) × (b : Text) × (c : Text) × (d : Text) × (w : Text) × (parts
      ≡ a ∷ b ∷ c ∷ d ∷ w ∷ [])
    × (parse_minute a ≡ ok e.minute)
    × (parse_hour b ≡ ok e.hour)
    × (parse_day c ≡ ok e.day)
    × (parse_month d ≡ ok e.month)
    × (parse_weekday w ≡ ok e.weekday)

fields_read :
    (parts : List Text) (e : Expression) → parse_fields parts ≡ ok (e, []) → AllRead e parts
unfolding parse_fields
fields_read (a ∷ b ∷ c ∷ d ∷ w ∷ []) e h =
    let (ra, ha, pa) = >>=_parts _ (attempt (parse_minute a)) h in
    let (rb, hb, pb) = >>=_parts _ (attempt (parse_hour b)) ha in
    let (rc, hc, pc) = >>=_parts _ (attempt (parse_day c)) hb in
    let (rd, hd, pd) = >>=_parts _ (attempt (parse_month d)) hc in
    let (re, he, pe) = >>=_parts _ (attempt (parse_weekday w)) hd in
    let (ea, eb, ec, ed, ee) = no_errors ra rb rc rd re e he in
    (
      a,
      b,
      c,
      d,
      w,
      refl,
      attempt-eq-inl (parse_minute a) e.minute (pa ∙ ap ok ea),
      attempt-eq-inl (parse_hour b) e.hour (pb ∙ ap ok eb),
      attempt-eq-inl (parse_day c) e.day (pc ∙ ap ok ec),
      attempt-eq-inl (parse_month d) e.month (pd ∙ ap ok ed),
      attempt-eq-inl (parse_weekday w) e.weekday (pe ∙ ap ok ee),
    )
fields_read _ e h = absurd (ground arith)

-- `Parse` reports no error exactly for five parts that the five field parsers accept, and then the
-- expression holds what they returned.
pub parse-ok_iff : (s : Text) (e : Expression) → (parse s ≡ ok (e, [])) ↔ AllRead e (split b' ' s)
unfolding parse parse_fields
parse-ok_iff s e = (
  fields_read (split b' ' s) e,
  λ (a, b, c, d, w, h, ra, rb, rc, rd, re). rw (h, parse, parse_fields, ra, rb, rc, rd, re),
)
