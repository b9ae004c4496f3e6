-- ===== src/Shared/Text/Decimal.antt =====
-- Laws of `strconv`: a number is read back from its decimal print.
use mathlib.Core.List.{concat-ne-nil}
use goscheduler.Shared.{
  ℕ, zero, suc, ◌+◌, ◌-◌, ◌*◌, ◌/◌, ◌%◌, ◌^◌, ◌≤◌, ◌<◌, [], ◌∷◌, ◌++◌, ◌≡◌, ◌≢◌, refl, arith, All,
  All-append, some,
}
use goscheduler.Shared.Int.{pos}
use goscheduler.Shared.Text.{Text, digits, digits_value, itoa, parse_int}

abbrev pub IsDigit : ℕ → Type 0
IsDigit c = (b'0' ≤ c) × (c ≤ b'9')

digits_value-append :
    (s : Text) (d acc n : ℕ)
    → digits_value acc s ≡ some n
    → d < 10
    → digits_value acc (s ++ (b'0' + d) ∷ []) ≡ some (n * 10 + d)
unfolding digits_value
digits_value-append [] d acc n h k = ground arith
digits_value-append (c ∷ s) d acc n h k =
    ground (arith, digits_value-append s d (acc * 10 + (c - b'0')) n)

digits_value-digits : (fuel n : ℕ) → n < fuel → digits_value 0 (digits fuel n) ≡ some n
unfolding digits digits_value
digits_value-digits zero n h = absurd (omega arith)
digits_value-digits (suc fuel) n h = ground (
  arith,
  digits_value-digits fuel (n / 10),
  digits_value-append (digits fuel (n / 10)) (n % 10) 0 (n / 10),
)

digits-IsDigit : (fuel n : ℕ) → All IsDigit (digits fuel n)
unfolding digits
digits-IsDigit zero n = tt
digits-IsDigit (suc fuel) n = ground (
  arith,
  digits-IsDigit fuel (n / 10),
  All-append IsDigit (digits fuel (n / 10)) ((b'0' + n % 10) ∷ []) (digits-IsDigit fuel (n / 10)),
)

pub itoa-IsDigit : (n : ℕ) → All IsDigit (itoa n)
unfolding itoa
itoa-IsDigit n = digits-IsDigit (suc n) n

-- A digit is the first character of what is printed, so no sign is read.
parse_int_digits :
    (s : Text) (n : ℕ)
    → All IsDigit s
    → s ≢ []
    → digits_value 0 s ≡ some n
    → n < 2 ^ 63
    → parse_int s ≡ some (pos n)
unfolding parse_int
parse_int_digits [] n ds ne h k = absurd (ne refl)
parse_int_digits (c ∷ s) n ds ne h k = ground arith

digits-ne-nil : (fuel n : ℕ) → digits (suc fuel) n ≢ []
unfolding digits
digits-ne-nil fuel n = ground (arith, concat-ne-nil (b'0' + n % 10) (digits fuel (n / 10)))

pub itoa-ne-nil : (n : ℕ) → itoa n ≢ []
unfolding itoa
itoa-ne-nil n = digits-ne-nil n n

-- Every number below 2 ^ 63 is read back from its print.
pub parse_int-itoa : (n : ℕ) → n < 2 ^ 63 → parse_int (itoa n) ≡ some (pos n)
unfolding itoa
parse_int-itoa n h =
    parse_int_digits (itoa n) n (itoa-IsDigit n) (itoa-ne-nil n)
      (digits_value-digits (suc n) n (omega arith)) h
