-- ===== src/Cron/Meaning.antt =====
-- What a whole cron expression means: `Parse` and `Match` of cron/cron.go against the notation.
use mathlib.Core.List.{cons-ne-nil}
use native.Mathlib.Nat.{zero-mod, mod_self}
use goscheduler.Shared.{
  ℕ, zero, suc, ◌+◌, ◌-◌, ◌^◌, ◌≤◌, ◌<◌, List, [], ◌∷◌, ◌≡◌, ◌≢◌, refl, ap, ◌∙◌, arith, map, keep,
  Bool, Bool-cases, true, false, inl, inr, leb, ◌&&◌, ◌||◌, ◌==◌, ltb, All,
}
use goscheduler.Shared.Int.{ℤ, pos}
use goscheduler.Shared.Text.{Text, codes, itoa}
use goscheduler.Cron.Outcome.{ok, Message, not_minute, not_hour, not_day}
use goscheduler.Cron.Steps.{parse_step}
use goscheduler.Cron.Fields.{
  parse_minute, parse_hour, parse_day, parse_month, parse_weekday, parse_numeric, to_day,
}
use goscheduler.Cron.Expression.{contains, occurs}
use goscheduler.Cron.Progression.{upto, divides, keep_multiple}
use goscheduler.Cron.StepText.{parse_step_star}
use goscheduler.Cron.FieldBounds.{
  FieldName, minute, hour, day, month, weekday, parse_field, low, high,
}
use goscheduler.Cron.RoundTrip.{Item, single, range, print_items, IsItem, items_values}
use goscheduler.Cron.FieldRoundTrip.{parse_field-items}

-- One field: `*`, a list of numbers and ranges, or `*/n`.
pub data FieldSpec : Type 0 where
  any : FieldSpec
  listed : Item → List Item → FieldSpec
  every : ℕ → FieldSpec

unfoldable pub print_spec : FieldSpec → Text
unfolding print_items
print_spec any = codes "*"
print_spec (listed i items) = print_items (i ∷ items)
print_spec (every n) = b'*' ∷ b'/' ∷ itoa n

-- Only the first three fields have steps. A step of the days is from 2 to 30: the code takes `*/1` for
-- the days up to the 30th, and steps from 31 on for every day.
abbrev pub IsSpec : FieldName → FieldSpec → Type 0
IsSpec f any = Unit {0}
IsSpec f (listed i items) = All (IsItem (low f) (high f)) (i ∷ items)
IsSpec minute (every n) = (0 < n) × (n ≤ 60)
IsSpec hour (every n) = (0 < n) × (n ≤ 24)
IsSpec day (every n) = (1 < n) × (n ≤ 30)
IsSpec month (every n) = ⊥
IsSpec weekday (every n) = ⊥

abbrev pub mem : ℕ → List ℕ → Bool
mem v [] = false
mem v (x ∷ xs) = x == v || mem v xs

-- Which values the notation stands for: every value, those listed, or the multiples of the step.
abbrev pub admits : FieldName → FieldSpec → ℕ → Bool
admits f any v = true
admits f (listed i items) v = mem v (items_values (i ∷ items))
admits f (every n) v = divides n v

occurs-map : (v : ℕ) (xs : List ℕ) → occurs (map pos xs) (pos v) ≡ mem v xs
occurs-map v [] = refl
occurs-map v (x ∷ xs) = ground (arith, occurs-map v xs)

pub contains-map : (v : ℕ) (xs : List ℕ) → xs ≢ [] → contains (map pos xs) (pos v) ≡ mem v xs
contains-map v [] h = absurd (h refl)
contains-map v (x ∷ xs) h = occurs-map v (x ∷ xs)

mem-keep :
    (p : ℕ → Bool) (v lo n : ℕ) → mem v (keep p (upto lo n)) ≡ (p v && (leb lo v && ltb v (lo + n)))
mem-keep p v lo zero = ground arith
mem-keep p v lo (suc n) = ground (arith, mem-keep p v (lo + 1) n)

-- Values between the bounds of a field.
abbrev pub InField : FieldName → ℕ → Type 0
InField f v = (low f ≤ v) × (v ≤ high f)

pub to_day-map : (xs : List ℕ) → to_day (map pos xs) ≡ map pos (keep (ltb 0) xs)
unfolding to_day
to_day-map [] = refl
to_day-map (x ∷ xs) = ground (arith, to_day-map xs)

pub mem-positive : (v : ℕ) (xs : List ℕ) → 0 < v → mem v (keep (ltb 0) xs) ≡ mem v xs
mem-positive v [] h = refl
mem-positive v (x ∷ xs) h = ground (arith, mem-positive v xs h)

mem-ne-nil : (v : ℕ) (xs : List ℕ) → mem v xs ≡ true → xs ≢ []
mem-ne-nil v [] h e = cc
mem-ne-nil v (x ∷ xs) h e = cc

listed-ne-nil :
    (lo hi : ℕ) (i : Item) (items : List Item) → IsItem lo hi i → items_values (i ∷ items) ≢ []
listed-ne-nil lo hi (single n) items h e = cons-ne-nil n (items_values items) e
listed-ne-nil lo hi (range a b) items (h, k, m) e =
    let count : b + 1 - a ≡ suc (b - a) = omega arith in ground (arith, ap (upto a) count, e)

-- What a field's text is read as, and which values it admits.
abbrev Reads : FieldName → FieldSpec → Type 0
Reads f sp =
    (l : List ℤ) × (parse_field f (print_spec sp) ≡ ok l)
    × ((v : ℕ) → InField f v → contains l (pos v) ≡ admits f sp v)

any-Reads : (f : FieldName) → Reads f any
unfolding print_spec parse_minute parse_hour parse_day parse_month parse_weekday parse_numeric
any-Reads minute = ([], refl, λ v h. refl)
any-Reads hour = ([], refl, λ v h. refl)
any-Reads day = ([], refl, λ v h. refl)
any-Reads month = ([], refl, λ v h. refl)
any-Reads weekday = ([], refl, λ v h. refl)

listed-Reads :
    (f : FieldName) (i : Item) (items : List Item)
    → All (IsItem (low f) (high f)) (i ∷ items)
    → Reads f (listed i items)
unfolding print_spec
listed-Reads f i items h = (
  map pos (items_values (i ∷ items)),
  parse_field-items f i items h,
  λ v k. contains-map v _ (listed-ne-nil (low f) (high f) i items h.0),
)

-- The multiples of `n` below `e`.
unfoldable pub multiples : ℕ → ℕ → List ℕ
multiples n e = keep (divides n) (upto 0 e)

pub mem-multiples : (v n e : ℕ) → mem v (multiples n e) ≡ (divides n v && ltb v e)
unfolding multiples
mem-multiples v n e = ground (arith, mem-keep (divides n) v 0 e)

pub multiples-cons :
    (n e : ℕ) → 0 < n → multiples n (suc e) ≡ 0 ∷ keep (divides n) (upto (0 + n) (suc e - (0 + n)))
unfolding multiples
multiples-cons n e h = keep_multiple n 0 (suc e) e h (omega arith) (zero-mod n)

parse_step-multiples :
    (n e : ℕ)
    → 0 < n
    → e + n < 2 ^ 63
    → parse_step (b'*' ∷ b'/' ∷ itoa n) (pos e) ≡ ok (map pos (multiples n e))
unfolding multiples
parse_step-multiples n e h k = parse_step_star n e h k

pub parse_numeric_star :
    (n e : ℕ) (min max : ℤ) (message : Message) (convert : List ℤ → List ℤ)
    → 0 < n
    → suc e + n < 2 ^ 63
    → parse_numeric (pos (suc e)) min max message convert (b'*' ∷ b'/' ∷ itoa n)
      ≡ ok (convert (map pos (multiples n (suc e))))
unfolding parse_numeric
parse_numeric_star n e min max message convert h k =
    rw (parse_step-multiples n (suc e) h k, multiples-cons n e h)

multiples-ne-nil : (n e : ℕ) → 0 < n → multiples n (suc e) ≢ []
multiples-ne-nil n e h = rw (multiples-cons n e h) (cons-ne-nil 0 _)

-- With a step of at most 30 a day is left: the step itself.
pub positive_multiples : (n : ℕ) → 0 < n → n ≤ 30 → keep (ltb 0) (multiples n 31) ≢ []
positive_multiples n h k =
    mem-ne-nil n (keep (ltb 0) (multiples n 31))
      (mem-positive n (multiples n 31) h ∙ (mem-multiples n n 31 ∙ ground (arith, mod_self n)))

-- No step from 2 to 30 leads to the 31st.
divides_31 : (n : ℕ) → 1 < n → n ≤ 30 → divides n 31 ≡ false
divides_31 n h k =
    let none_left : mem n (keep (λ m. divides m 31) (upto 2 29)) ≡ false = refl in
    ground (arith, mem-keep (λ m. divides m 31) n 2 29, none_left)

below_31 : (n v : ℕ) → 1 < n → n ≤ 30 → v ≤ 31 → (divides n v && ltb v 31) ≡ divides n v
below_31 n v h k m = elim (Bool-cases (v == 31)) [
  | inl y ↦ let last : v ≡ 31 = ground arith in rw (last, divides_31 n h k) refl
  | inr z ↦ let inside : ltb v 31 ≡ true = ground arith in rw inside (ground arith)
]

every-Reads : (f : FieldName) (n : ℕ) → IsSpec f (every n) → Reads f (every n)
unfolding print_spec parse_minute parse_hour parse_day
every-Reads minute n (h, k) = (
  map pos (multiples n 60),
  parse_numeric_star n 59 (pos 0) (pos 59) not_minute (λ l. l) h (omega arith),
  λ v w.
      contains-map v (multiples n 60) (multiples-ne-nil n 59 h)
      ∙ ground (arith, mem-multiples v n 60),
)
every-Reads hour n (h, k) = (
  map pos (multiples n 24),
  parse_numeric_star n 23 (pos 0) (pos 23) not_hour (λ l. l) h (omega arith),
  λ v w.
      contains-map v (multiples n 24) (multiples-ne-nil n 23 h)
      ∙ ground (arith, mem-multiples v n 24),
)
every-Reads day n (h, k) = (
  to_day (map pos (multiples n 31)),
  parse_numeric_star n 30 (pos 1) (pos 31) not_day to_day (omega arith) (omega arith),
  λ v w. rw (to_day-map (multiples n 31)) (
      contains-map v (keep (ltb 0) (multiples n 31)) (positive_multiples n (omega arith) k)
      ∙ (mem-positive v (multiples n 31) w.0 ∙ (mem-multiples v n 31 ∙ below_31 n v h k w.1))),
)
every-Reads month n h = absurd h
every-Reads weekday n h = absurd h

pub spec-Reads : (f : FieldName) (sp : FieldSpec) → IsSpec f sp → Reads f sp
spec-Reads f any h = any-Reads f
spec-Reads f (listed i items) h = listed-Reads f i items h
spec-Reads f (every n) h = every-Reads f n h
