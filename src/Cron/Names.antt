-- ===== src/Cron/Names.antt =====
-- The short names of months and weekdays in cron/cron.go, and the round trip of all five fields.
use goscheduler.Shared.{
  ℕ, ◌+◌, ◌<◌, List, [], ◌∷◌, ◌≡◌, refl, arith, some, none, All, get_elem?, get_elem?-All,
  passes_under, passes_under-apply, get_elem?-lt, Bool, true, false, ◌==◌,
}
use goscheduler.Shared.Int.{ℤ, pos}
use goscheduler.Shared.Text.{Text, Lacks, split, to_upper}
use goscheduler.Shared.Text.Split.{split_single}
use goscheduler.Cron.Outcome.{ok, Message, not_month, not_weekday}
use goscheduler.Cron.Fields.{
  name_index, parse_named, parse_parts, month_names, weekday_names, parse_month, parse_weekday,
}
use goscheduler.Cron.RoundTrip.{Lacks-ne-star}

-- `to_upper` neither makes nor removes a comma or a star.
to_upper-Lacks : (c : ℕ) (s : Text) → c < b'A' → Lacks c (to_upper s) → Lacks c s
to_upper-Lacks c [] h k = tt
to_upper-Lacks c (d ∷ s) h k = ((λ e. ground arith), to_upper-Lacks c s h k.1)

-- Every name is found at its own index.
finds : List Text → ℕ → Bool
finds names i = elim (get_elem? names i) [
  | none ↦ true
  | some n ↦ elim (name_index 0 names n) [ none ↦ false | some k ↦ k == i ]
]

name_index_found :
    (names : List Text) (i : ℕ) (n : Text)
    → finds names i ≡ true
    → get_elem? names i ≡ some n
    → name_index 0 names n ≡ some i
unfolding finds
name_index_found names i n h e = ground (arith, h, e)

months_found : passes_under (finds month_names) 12 ≡ true
unfolding passes_under finds name_index
months_found = refl

weekdays_found : passes_under (finds weekday_names) 7 ≡ true
unfolding passes_under finds name_index
weekdays_found = refl

-- A part whose upper case is a name is read as that name's number.
parse_parts-name :
    (names : List Text) (first : ℕ) (min max : ℤ) (message : Message) (part : Text) (i : ℕ)
    → finds names i ≡ true
    → get_elem? names i ≡ some (to_upper part)
    → Lacks b',' part
    → parse_parts (parse_named names first min max message) (split b',' part)
      ≡ ok (pos (i + first) ∷ [])
unfolding parse_parts parse_named
parse_parts-name names first min max message part i f e h =
    rw (split_single b',' part h, parse_named, name_index_found names i (to_upper part) f e)

name_Lacks :
    (c : ℕ) (names : List Text) (part : Text) (i : ℕ)
    → c < b'A'
    → All (Lacks c) names
    → get_elem? names i ≡ some (to_upper part)
    → Lacks c part
name_Lacks c names part i h a e = to_upper-Lacks c part h (get_elem?-All (Lacks c) names i a e)

-- A month's short name, in any mix of cases, is read as the number of the month.
parse_month-name :
    (part : Text) (i : ℕ)
    → get_elem? month_names i ≡ some (to_upper part)
    → parse_month part ≡ ok (pos (i + 1) ∷ [])
unfolding parse_month
parse_month-name part i e =
    let found =
      passes_under-apply (finds month_names) 12 i months_found (get_elem?-lt month_names i _ e) in
    let comma = name_Lacks b',' month_names part i (omega arith) (omega arith) e in
    let star = name_Lacks b'*' month_names part i (omega arith) (omega arith) e in
    rw (Lacks-ne-star part star)
      (parse_parts-name month_names 1 (pos 1) (pos 12) not_month part i found e comma)

-- A weekday's short name, in any mix of cases, is read as the number of the weekday.
pub parse_weekday-name :
    (part : Text) (i : ℕ)
    → get_elem? weekday_names i ≡ some (to_upper part)
    → parse_weekday part ≡ ok (pos i ∷ [])
unfolding parse_weekday
parse_weekday-name part i e =
    let found =
      passes_under-apply (finds weekday_names) 7 i weekdays_found
        (get_elem?-lt weekday_names i _ e) in
    let comma = name_Lacks b',' weekday_names part i (omega arith) (omega arith) e in
    let star = name_Lacks b'*' weekday_names part i (omega arith) (omega arith) e in
    let same : i + 0 ≡ i = omega arith in
    rw (Lacks-ne-star part star, ← same)
      (parse_parts-name weekday_names 0 (pos 0) (pos 6) not_weekday part i found e comma)
