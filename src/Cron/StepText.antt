-- ===== src/Cron/StepText.antt =====
-- `ParseStep` and `ParseRange` of cron/cron.go against what their notations mean.
use native.Mathlib.Nat.{
  zero-mod, div-mul-le_self, mul-mod_left, div-add-mod', mod-lt, mod-eq-sub-mod,
}
use native.Mathlib.Decide.{dec_lt}
use goscheduler.Shared.{
  ℕ, zero, suc, ◌+◌, ◌-◌, ◌*◌, ◌/◌, ◌%◌, ◌^◌, ◌≤◌, ◌<◌, [], ◌∷◌, ◌++◌, ◌≡◌, refl, sym, ◌∙◌, arith,
  map, keep, All, false, if◌then◌else◌, ltb,
}
use goscheduler.Shared.Int.{ℤ, pos, add64_pos, sub64_pos, quot64_pos, mul64_pos}
use goscheduler.Shared.Text.{Text, Lacks, codes, text_eq, itoa}
use goscheduler.Shared.Text.Split.{split-append, split_single}
use goscheduler.Shared.Text.Decimal.{IsDigit, itoa-IsDigit, parse_int-itoa}
use goscheduler.Cron.Outcome.{ok, fails, past_range}
use goscheduler.Cron.Steps.{step_start, step_parts, parse_step}
use goscheduler.Cron.Progression.{upto, divides, steps_lem, keep_from_multiple}

-- Digits hold none of the separators.
IsDigit-Lacks : (sep : ℕ) (s : Text) → sep < b'0' → All IsDigit s → Lacks sep s
IsDigit-Lacks sep [] h ds = tt
IsDigit-Lacks sep (c ∷ s) h ds = (ground arith, IsDigit-Lacks sep s h ds.1)

pub itoa-Lacks : (sep n : ℕ) → sep < b'0' → Lacks sep (itoa n)
itoa-Lacks sep n h = IsDigit-Lacks sep (itoa n) h (itoa-IsDigit n)

digits-ne-star : (s : Text) → All IsDigit s → text_eq s (codes "*") ≡ false
digits-ne-star [] h = refl
digits-ne-star (c ∷ s) h = ground arith

itoa-ne-star : (n : ℕ) → text_eq (itoa n) (codes "*") ≡ false
itoa-ne-star n = digits-ne-star (itoa n) (itoa-IsDigit n)

-- `*/b`, where `b` is any text without a slash.
pub step_star :
    (b : Text) (range : ℤ)
    → Lacks b'/' b
    → parse_step (b'*' ∷ b'/' ∷ b) range ≡ step_parts (b'*' ∷ b'/' ∷ b) range ((b'*' ∷ []) ∷ b ∷ [])
unfolding parse_step
step_star b range h = rw (split-append b'/' (b'*' ∷ []) b (omega arith), split_single b'/' b h)

-- `*/n` for n above 0 gives the multiples of n below the range.
pub parse_step_star :
    (n range : ℕ)
    → 0 < n
    → range + n < 2 ^ 63
    → parse_step (b'*' ∷ b'/' ∷ itoa n) (pos range) ≡ ok (map pos (keep (divides n) (upto 0 range)))
unfolding step_parts step_start
parse_step_star n range p b =
    rw
      (
        step_star (itoa n) (pos range) (itoa-Lacks b'/' n (omega arith)),
        step_parts,
        parse_int-itoa n (omega arith),
      )
      (ground (arith, steps_lem n 0 range p b (zero-mod n)))

-- The first multiple of `n` that is not below `a`.
abbrev pub round_up : ℕ → ℕ → ℕ
round_up a n = (a + n - 1) / n * n

round_up-multiple : (a n : ℕ) → round_up a n % n ≡ 0
round_up-multiple a n = mul-mod_left ((a + n - 1) / n) n

pub round_up_bounds : (a n : ℕ) → 0 < n → (a ≤ round_up a n) × (round_up a n < a + n)
round_up_bounds a n p =
    let whole = div-add-mod' (a + n - 1) n in
    let small = mod-lt (a + n - 1) p in (omega arith, omega arith)

multiple_ge : (q n : ℕ) → 0 < q * n → n ≤ q * n
multiple_ge zero n h = absurd (omega arith)
multiple_ge (suc q) n h = omega arith

keep-round_up :
    (a n e : ℕ)
    → 0 < n
    → keep (divides n) (upto (round_up a n) (e - round_up a n)) ≡ keep (divides n) (upto a (e - a))
keep-round_up a n e p = from (round_up_bounds a n p) (dec_lt a (round_up a n))
  where
    from :
        (a ≤ round_up a n) × (round_up a n < a + n)
        → Dec (a < round_up a n)
        → keep (divides n) (upto (round_up a n) (e - round_up a n))
          ≡ keep (divides n) (upto a (e - a))
    from (l, u) (no h) = let same : round_up a n ≡ a = omega arith in rw same
    from (l, u) (yes h) =
        let whole = multiple_ge ((a + n - 1) / n) n (omega arith) in
        sym (
          keep_from_multiple n (round_up a n - n) e a (round_up a n)
            (sym (mod-eq-sub-mod whole) ∙ round_up-multiple a n) (omega arith) l (omega arith))

step_start_number :
    (s : Text) (a n : ℕ)
    → 0 < n
    → a + n < 2 ^ 63
    → step_start s (itoa a) (pos n) ≡ ok (pos (round_up a n))
unfolding step_start
step_start_number s a n p b =
    rw
      (
        not_star,
        parse_int-itoa a (omega arith),
        add64_pos a n b,
        sub64_pos (a + n) 1 (omega arith) b,
        quot64_pos (a + n - 1) n (omega arith),
        mul64_pos ((a + n - 1) / n) n (omega (arith, div-mul-le_self (a + n - 1) n)),
      )
      (ground arith)
  where
    not_star : text_eq (itoa a) (codes "*") ≡ false
    not_star = itoa-ne-star a

-- `a/n` for n above 0 gives the multiples of n from a on and below the range, or the message that
-- the start is past the range, when the first multiple is.
parse_step_from :
    (a n range : ℕ)
    → 0 < n
    → a + n < 2 ^ 63
    → range + n < 2 ^ 63
    → parse_step (itoa a ++ b'/' ∷ itoa n) (pos range) ≡ (
        if ltb range (round_up a n)
        then fails past_range
        else ok (map pos (keep (divides n) (upto a (range - a)))))
unfolding parse_step step_parts
parse_step_from a n range p b c =
    rw
      (
        split-append b'/' (itoa a) (itoa n) (itoa-Lacks b'/' a (omega arith)),
        split_single b'/' (itoa n) (itoa-Lacks b'/' n (omega arith)),
        step_parts,
        parse_int-itoa n (omega arith),
        step_start_number (itoa a ++ b'/' ∷ itoa n) a n p b,
      )
      (ground (
        arith,
        steps_lem n (round_up a n) range p c (round_up-multiple a n),
        keep-round_up a n range p,
      ))
