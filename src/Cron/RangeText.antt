-- ===== src/Cron/RangeText.antt =====
-- `ParseRange` of cron/cron.go, and what any text that it accepts gives.
use goscheduler.Shared.{
  ℕ, zero, suc, ◌+◌, ◌-◌, ◌^◌, ◌≤◌, ◌<◌, List, [], ◌∷◌, ◌++◌, ◌≡◌, refl, arith, none, some, map,
  All, Option, ◌&&◌, leb, if◌then◌else◌,
}
use goscheduler.Shared.Int.{ℤ, pos, negsuc, ◌≤ℤ◌, add64_pos}
use goscheduler.Shared.Text.{Text, split, itoa, parse_int}
use goscheduler.Shared.Text.Split.{split-append, split_single}
use goscheduler.Shared.Text.Decimal.{parse_int-itoa}
use goscheduler.Cron.Outcome.{ok, fails, OnOk, invalid_range}
use goscheduler.Cron.Steps.{range_parts, parse_range}
use goscheduler.Cron.Progression.{upto, steps_one}
use goscheduler.Cron.StepText.{itoa-Lacks}

-- Two numbers that are not negative.
range_parts_numbers :
    (s a b : Text) (x y lo hi : ℕ)
    → parse_int a ≡ some (pos x)
    → parse_int b ≡ some (pos y)
    → hi + 2 < 2 ^ 63
    → range_parts s (pos lo) (pos hi) (a ∷ b ∷ []) ≡ (
        if leb x y && leb lo x && leb y hi
        then ok (map pos (upto x (y + 1 - x)))
        else fails (invalid_range s))
unfolding range_parts
range_parts_numbers s a b x y lo hi p q h =
    rw (range_parts, p, q) (ground (arith, add64_pos y 1, steps_one x (y + 1)))

-- `a-b` gives all numbers from a to b, both included, if they lie within the bounds in this order;
-- else it gives the message that names the text.
pub parse_range_numbers :
    (a b lo hi : ℕ)
    → a < 2 ^ 63
    → b < 2 ^ 63
    → hi + 2 < 2 ^ 63
    → parse_range (itoa a ++ b'-' ∷ itoa b) (pos lo) (pos hi) ≡ (
        if leb a b && leb lo a && leb b hi
        then ok (map pos (upto a (b + 1 - a)))
        else fails (invalid_range (itoa a ++ b'-' ∷ itoa b)))
unfolding parse_range
parse_range_numbers a b lo hi h k m =
    rw
      (
        split-append b'-' (itoa a) (itoa b) (itoa-Lacks b'-' a (omega arith)),
        split_single b'-' (itoa b) (itoa-Lacks b'-' b (omega arith)),
      )
      (range_parts_numbers _ (itoa a) (itoa b) a b lo hi (parse_int-itoa a h) (parse_int-itoa b k)
        m)

-- Within the bounds of a field.
abbrev pub Within : ℕ → ℕ → ℤ → Type 0
Within lo hi v = (pos lo ≤ℤ v) × (v ≤ℤ pos hi)

upto-Within : (lo hi x n : ℕ) → lo ≤ x → x + n ≤ hi + 1 → All (Within lo hi) (map pos (upto x n))
upto-Within lo hi x zero h k = tt
upto-Within lo hi x (suc n) h k =
    (omega arith, upto-Within lo hi (x + 1) n (omega arith) (omega arith))

module _ (s : Text) (lo hi : ℕ) (room : hi + 2 < 2 ^ 63) where
  -- Whatever the two parts are, values that come back lie within the bounds.
  range_two_Within :
      (a b : Text) (p q : Option ℤ)
      → parse_int a ≡ p
      → parse_int b ≡ q
      → OnOk (All (Within lo hi)) (range_parts s (pos lo) (pos hi) (a ∷ b ∷ []))
  unfolding range_parts
  range_two_Within a b none q e f = rw (range_parts, e) tt
  range_two_Within a b (some v) none e f = rw (range_parts, e, f) tt
  range_two_Within a b (some (negsuc x)) (some w) e f = rw (range_parts, e, f) (ground arith)
  range_two_Within a b (some (pos x)) (some (negsuc y)) e f = rw (range_parts, e, f) (ground arith)
  range_two_Within a b (some (pos x)) (some (pos y)) e f =
      rw (range_parts_numbers s a b x y lo hi e f room)
        (ground (arith, upto-Within lo hi x (y + 1 - x)))

  range_parts-Within :
      (parts : List Text) → OnOk (All (Within lo hi)) (range_parts s (pos lo) (pos hi) parts)
  unfolding range_parts
  range_parts-Within [] = tt
  range_parts-Within (a ∷ []) = tt
  range_parts-Within (a ∷ b ∷ []) = range_two_Within a b (parse_int a) (parse_int b) refl refl
  range_parts-Within (a ∷ b ∷ c ∷ r) = tt

  pub parse_range-Within : OnOk (All (Within lo hi)) (parse_range s (pos lo) (pos hi))
  unfolding parse_range
  parse_range-Within = range_parts-Within (split b'-' s)
