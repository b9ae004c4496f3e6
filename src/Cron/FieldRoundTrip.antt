-- ===== src/Cron/FieldRoundTrip.antt =====
-- All five fields of cron/cron.go read back a printed list of numbers and ranges.
use goscheduler.Shared.{
  ℕ, ◌+◌, ◌^◌, ◌≤◌, ◌<◌, List, [], ◌∷◌, ◌≡◌, refl, arith, false, none, map, All, All-append,
  All-mono,
}
use goscheduler.Shared.Int.{pos}
use goscheduler.Shared.Text.{Text, codes, text_eq, split, itoa, to_upper}
use goscheduler.Shared.Text.Split.{split-join}
use goscheduler.Shared.Text.Decimal.{IsDigit, itoa-IsDigit}
use goscheduler.Cron.Outcome.{ok, Message, not_minute, not_hour, not_day, not_month, not_weekday}
use goscheduler.Cron.Fields.{
  name_index, parse_named, parse_parts, month_names, weekday_names, parse_minute, parse_hour,
  parse_day, parse_month, parse_weekday, to_day,
}
use goscheduler.Cron.FieldBounds.{
  FieldName, minute, hour, day, month, weekday, parse_field, low, high,
}
use goscheduler.Cron.RoundTrip.{
  Item, single, range, print_item, print_items, IsItem, item_values, items_values, parse_part-item,
  parse_parts-each, parse_numeric-items, to_day_fixed, Lacks-ne-star, commas, join-Lacks,
}

abbrev IsPlain : Text → Type 0
IsPlain = All (λ c. c ≤ b'9')

print_item-IsPlain : (i : Item) → IsPlain (print_item i)
unfolding print_item
print_item-IsPlain (single n) = All-mono IsDigit _ (λ c h. h.1) (itoa n) (itoa-IsDigit n)
print_item-IsPlain (range a b) =
    All-append _ (itoa a) (b'-' ∷ itoa b)
      (All-mono IsDigit _ (λ c h. h.1) (itoa a) (itoa-IsDigit a))
      (omega arith, All-mono IsDigit _ (λ c h. h.1) (itoa b) (itoa-IsDigit b))

abbrev StartsUpper : Text → Type 0
StartsUpper [] = ⊥
StartsUpper (c ∷ s) = b'A' ≤ c

plain-ne-name : (n s : Text) → StartsUpper n → IsPlain s → text_eq n (to_upper s) ≡ false
plain-ne-name [] s h k = absurd h
plain-ne-name (d ∷ n) [] h k = refl
plain-ne-name (d ∷ n) (c ∷ s) h k = ground arith

-- Digits and dashes spell no name.
no_name :
    (names : List Text) (i : ℕ) (s : Text)
    → All StartsUpper names
    → IsPlain s
    → name_index i names (to_upper s) ≡ none
unfolding name_index
no_name [] i s h k = refl
no_name (n ∷ names) i s h k = rw (plain-ne-name n s h.0 k, no_name names (i + 1) s h.1 k)

print-ne-star : (items : List Item) → text_eq (print_items items) (codes "*") ≡ false
unfolding print_items
print-ne-star items =
    Lacks-ne-star _ (join-Lacks b'*' items (omega arith) (omega arith) (omega arith))

parse_named-items :
    (names : List Text) (first lo hi : ℕ) (message : Message) (i : Item) (items : List Item)
    → hi + 2 < 2 ^ 63
    → All StartsUpper names
    → All (IsItem lo hi) (i ∷ items)
    → parse_parts
        (parse_named names first (pos lo) (pos hi) message)
        (split b',' (print_items (i ∷ items)))
      ≡ ok (map pos (items_values (i ∷ items)))
unfolding print_items parse_named
parse_named-items names first lo hi message i items room upper h =
    rw (split-join b',' (print_item i) (map print_item items) (commas (i ∷ items)))
      (parse_parts-each _ (i ∷ items) (All-mono (IsItem lo hi) _ each (i ∷ items) h))
  where
    each :
        (j : Item)
        → IsItem lo hi j
        → parse_named names first (pos lo) (pos hi) message (print_item j)
          ≡ ok (map pos (item_values j))
    each j k =
        rw (no_name names 0 (print_item j) upper (print_item-IsPlain j), parse_named)
          (parse_part-item lo hi message room (λ l. l) (λ x n m. refl) j k)

-- Every field reads a printed list of numbers and ranges within its bounds as the numbers that the
-- list stands for, in its order.
pub parse_field-items :
    (f : FieldName) (i : Item) (items : List Item)
    → All (IsItem (low f) (high f)) (i ∷ items)
    → parse_field f (print_items (i ∷ items)) ≡ ok (map pos (items_values (i ∷ items)))
unfolding parse_minute parse_hour parse_day parse_month parse_weekday
parse_field-items minute i items h =
    parse_numeric-items 0 59 not_minute (omega arith) (λ l. l) (λ x n m. refl) (pos 60) i items h
parse_field-items hour i items h =
    parse_numeric-items 0 23 not_hour (omega arith) (λ l. l) (λ x n m. refl) (pos 24) i items h
parse_field-items day i items h =
    parse_numeric-items 1 31 not_day (omega arith) to_day to_day_fixed (pos 31) i items h
parse_field-items month i items h =
    rw (print-ne-star (i ∷ items))
      (parse_named-items month_names 1 1 12 not_month i items (omega arith) (omega arith) h)
parse_field-items weekday i items h =
    rw (print-ne-star (i ∷ items))
      (parse_named-items weekday_names 0 0 6 not_weekday i items (omega arith) (omega arith) h)
