-- ===== src/Cron/RoundTrip.antt =====
-- What the field parsers of cron/cron.go read back from a printed list of numbers and ranges.
use goscheduler.Shared.{
  ℕ, zero, suc, ◌+◌, ◌-◌, ◌^◌, ◌≤◌, ◌<◌, List, [], ◌∷◌, ◌++◌, ◌≡◌, ◌≢◌, refl, sym, ap, arith, map,
  map-append, concat, All, All-append, All-mono, false,
}
use goscheduler.Shared.Int.{ℤ, pos}
use goscheduler.Shared.Text.{Text, Lacks, codes, text_eq, join, itoa}
use goscheduler.Shared.Text.Split.{split-join, split_single}
use goscheduler.Shared.Text.Decimal.{parse_int-itoa}
use goscheduler.Cron.Outcome.{Outcome, ok, Message}
use goscheduler.Cron.Steps.{parse_range, range_parts}
use goscheduler.Cron.Fields.{parse_number, parse_part, parse_parts, parse_numeric, to_day}
use goscheduler.Cron.Progression.{upto}
use goscheduler.Cron.StepText.{itoa-Lacks}
use goscheduler.Cron.RangeText.{parse_range_numbers}
use goscheduler.Cron.Bounds.{parse_step-Lacks}

-- One part of a field: a number, or a range with both ends.
pub data Item : Type 0 where
  single : ℕ → Item
  range : ℕ → ℕ → Item

unfoldable pub print_item : Item → Text
print_item (single n) = itoa n
print_item (range a b) = itoa a ++ b'-' ∷ itoa b

abbrev pub item_values : Item → List ℕ
item_values (single n) = n ∷ []
item_values (range a b) = upto a (b + 1 - a)

abbrev pub IsItem : ℕ → ℕ → Item → Type 0
IsItem lo hi (single n) = (lo ≤ n) × (n ≤ hi)
IsItem lo hi (range a b) = (lo ≤ a) × (a ≤ b) × (b ≤ hi)

unfoldable pub print_items : List Item → Text
unfolding print_item
print_items items = join b',' (map print_item items)

abbrev pub items_values : List Item → List ℕ
items_values items = concat (map item_values items)

-- A character that is no digit, dash or comma is in no printed list.
print_item-Lacks : (c : ℕ) (i : Item) → c < b'0' → c ≢ b'-' → Lacks c (print_item i)
unfolding print_item
print_item-Lacks c (single n) h k = itoa-Lacks c n h
print_item-Lacks c (range a b) h k =
    All-append _ (itoa a) (b'-' ∷ itoa b) (itoa-Lacks c a h) ((λ e. k (sym e)), itoa-Lacks c b h)

pub join-Lacks :
    (c : ℕ) (items : List Item)
    → c < b'0'
    → c ≢ b'-'
    → c ≢ b','
    → Lacks c (join b',' (map print_item items))
join-Lacks c [] h k m = tt
join-Lacks c (i ∷ []) h k m = print_item-Lacks c i h k
join-Lacks c (i ∷ j ∷ items) h k m =
    All-append _ (print_item i) (b',' ∷ join b',' (map print_item (j ∷ items)))
      (print_item-Lacks c i h k) ((λ e. m (sym e)), join-Lacks c (j ∷ items) h k m)

pub commas : (items : List Item) → All (Lacks b',') (map print_item items)
commas [] = tt
commas (i ∷ items) = (print_item-Lacks b',' i (omega arith) (omega arith), commas items)

pub Lacks-ne-star : (s : Text) → Lacks b'*' s → text_eq s (codes "*") ≡ false
Lacks-ne-star [] h = refl
Lacks-ne-star (c ∷ s) h = ground arith

-- If each printed item is read back, so is the list of them.
pub parse_parts-each :
    (parse : Text → Outcome (List ℤ)) (items : List Item)
    → All (λ i. parse (print_item i) ≡ ok (map pos (item_values i))) items
    → parse_parts parse (map print_item items) ≡ ok (map pos (items_values items))
unfolding parse_parts
parse_parts-each parse [] h = refl
parse_parts-each parse (i ∷ items) h = rw (h.0, parse_parts-each parse items h.1, map-append)

module _ (lo hi : ℕ) (message : Message) (room : hi + 2 < 2 ^ 63) where
  -- `itoa` holds no dash, so no range is read.
  pub parse_number-itoa :
      (n : ℕ) → lo ≤ n → n ≤ hi → parse_number (pos lo) (pos hi) message (itoa n) ≡ ok (pos n ∷ [])
  unfolding parse_number
  parse_number-itoa n h k = rw (parse_int-itoa n (omega arith), parse_number) (ground arith)

  parse_range-itoa : (n : ℕ) → parse_range (itoa n) (pos lo) (pos hi) ≡ ok []
  unfolding parse_range range_parts
  parse_range-itoa n = rw (split_single b'-' (itoa n) (itoa-Lacks b'-' n (omega arith)))

  -- A range that lies within the bounds is read, and is not empty.
  parse_range-valid :
      (a b : ℕ)
      → lo ≤ a
      → a ≤ b
      → b ≤ hi
      → parse_range (itoa a ++ b'-' ∷ itoa b) (pos lo) (pos hi)
        ≡ ok (map pos (upto a (suc (b - a))))
  parse_range-valid a b h k m =
      let count : b + 1 - a ≡ suc (b - a) = omega arith in
      ground (arith, ap (λ n. map pos (upto a n)) count, parse_range_numbers a b lo hi)

  module _ (convert : List ℤ → List ℤ)
      (fixed : (x n : ℕ) → lo ≤ x → convert (map pos (upto x n)) ≡ map pos (upto x n)) where
    pub parse_part-item :
        (i : Item)
        → IsItem lo hi i
        → parse_part (pos lo) (pos hi) message convert (print_item i) ≡ ok (map pos (item_values i))
    unfolding parse_part print_item
    parse_part-item (single n) (h, k) = rw (parse_range-itoa n) (parse_number-itoa n h k)
    parse_part-item (range a b) (h, k, m) =
        let count : b + 1 - a ≡ suc (b - a) = omega arith in
        rw (parse_range-valid a b h k m, parse_part, count) (ap ok (fixed a (suc (b - a)) h))

    pub parse_numeric-items :
        (steps : ℤ) (i : Item) (items : List Item)
        → All (IsItem lo hi) (i ∷ items)
        → parse_numeric steps (pos lo) (pos hi) message convert (print_items (i ∷ items))
          ≡ ok (map pos (items_values (i ∷ items)))
    unfolding parse_numeric print_items
    parse_numeric-items steps i items h =
        let text = join b',' (map print_item (i ∷ items)) in
        rw
          (
            Lacks-ne-star text
                (join-Lacks b'*' (i ∷ items) (omega arith) (omega arith) (omega arith)),
            parse_step-Lacks text steps
                (join-Lacks b'/' (i ∷ items) (omega arith) (omega arith) (omega arith)),
            split-join b',' (print_item i) (map print_item items) (commas (i ∷ items)),
          )
          (parse_parts-each (parse_part (pos lo) (pos hi) message convert) (i ∷ items)
            (All-mono (IsItem lo hi) _ parse_part-item (i ∷ items) h))

pub to_day_fixed : (x n : ℕ) → 1 ≤ x → to_day (map pos (upto x n)) ≡ map pos (upto x n)
unfolding to_day
to_day_fixed x zero h = refl
to_day_fixed x (suc n) h = ground (arith, to_day_fixed (x + 1) n)
