-- ===== src/Cron/Progression.antt =====
-- What the loop `steps` of cron/cron.go collects.
use native.Mathlib.Nat.{mod-add-mod, mod-eq_of_lt, add-mod_right, mod-one, zero-add}
use goscheduler.Shared.{
  ℕ, zero, suc, ◌+◌, ◌-◌, ◌%◌, ◌^◌, ◌≤◌, ◌<◌, List, [], ◌∷◌, ◌≡◌, ◌≢◌, ==_ne, refl, sym, ap, ◌∙◌,
  none, some, arith, map, keep, ◌==◌, Bool,
}
use goscheduler.Shared.Int.{pos, add64_pos}
use goscheduler.Cron.Outcome.{ok}
use goscheduler.Cron.Steps.{steps_loop, steps}

-- The numbers from `lo` on, `n` of them.
abbrev pub upto : ℕ → ℕ → List ℕ
upto lo zero = []
upto lo (suc n) = lo ∷ upto (lo + 1) n

abbrev pub divides : ℕ → ℕ → Bool
divides n v = v % n == 0

-- Strictly between two multiples of `n` there is none.
mod-multiple-add : (n s j : ℕ) → s % n ≡ 0 → j < n → (s + j) % n ≡ j
mod-multiple-add n s j h k = sym (mod-add-mod s n j) ∙ rw (h, zero-add) (mod-eq_of_lt k)

between_multiples : (n s a : ℕ) → s % n ≡ 0 → s < a → a < s + n → a % n ≢ 0
between_multiples n s a h l u e =
    let split : s + (a - s) ≡ a = omega arith in
    let rest : (s + (a - s)) % n ≡ a - s = mod-multiple-add n s (a - s) h (omega arith) in
    let other : (s + (a - s)) % n ≡ 0 = rw split e in omega arith

keep_skip :
    (n s e k a m m' : ℕ)
    → m ≡ e - a
    → m' ≡ e - (a + k)
    → s % n ≡ 0
    → s < a
    → a + k ≤ s + n
    → keep (divides n) (upto a m) ≡ keep (divides n) (upto (a + k) m')
keep_skip n s e zero a m m' p q h l u =
    let same : m' ≡ m = omega arith in let stay : a + 0 ≡ a = omega arith in rw (same, stay)
keep_skip n s e (suc k) a zero m' p q h l u = let done : m' ≡ 0 = omega arith in rw done
keep_skip n s e (suc k) a (suc m) m' p q h l u =
    let shift : a + suc k ≡ a + 1 + k = omega arith in
    rw (shift, ==_ne (a % n) 0 (between_multiples n s a h l (omega arith)))
      (keep_skip n s e k (a + 1) m m' (omega arith) (omega arith) h (omega arith) (omega arith))

pub keep_multiple :
    (n s e m : ℕ)
    → 0 < n
    → suc m ≡ e - s
    → s % n ≡ 0
    → keep (divides n) (upto s (suc m)) ≡ s ∷ keep (divides n) (upto (s + n) (e - (s + n)))
keep_multiple n s e m p d h =
    let jump : s + 1 + (n - 1) ≡ s + n = omega arith in
    rw (h, ← jump)
      (ap (◌∷◌ s) (
        keep_skip n s e (n - 1) (s + 1) m (e - (s + 1 + (n - 1))) (omega arith) refl h (omega arith)
          (omega arith)))

-- From `a` on and from the first multiple `b` behind it the same numbers are kept.
pub keep_from_multiple :
    (n s e a b : ℕ)
    → s % n ≡ 0
    → s < a
    → a ≤ b
    → b ≤ s + n
    → keep (divides n) (upto a (e - a)) ≡ keep (divides n) (upto b (e - b))
keep_from_multiple n s e a b h l m u =
    let there : a + (b - a) ≡ b = omega arith in
    rw (← there) (keep_skip n s e (b - a) a (e - a) (e - (a + (b - a))) refl refl h l (omega arith))

-- For an increment above 0 the loop ends, and collects the multiples below the end.
steps_loop_lem :
    (n : ℕ)
    → 0 < n
    → (fuel s e m : ℕ) → m ≡ e - s
    → m < fuel
    → e + n < 2 ^ 63
    → s % n ≡ 0
    → steps_loop fuel (pos s) (pos e) (pos n) ≡ some (map pos (keep (divides n) (upto s m)))
unfolding steps_loop
steps_loop_lem n p zero s e m d f b h = absurd (omega arith)
steps_loop_lem n p (suc fuel) s e zero d f b h = ground arith
steps_loop_lem n p (suc fuel) s e (suc m) d f b h =
    rw
      (
        add64_pos s n (omega arith),
        steps_loop_lem n p fuel (s + n) e (e - (s + n)) refl (omega arith) b
            (add-mod_right s n ∙ h),
        keep_multiple n s e m p d h,
      )
      (ground arith)

-- The same of `steps`: the rounds that it is given are enough.
pub steps_lem :
    (n s e : ℕ)
    → 0 < n
    → e + n < 2 ^ 63
    → s % n ≡ 0
    → steps (pos s) (pos e) (pos n) ≡ ok (map pos (keep (divides n) (upto s (e - s))))
unfolding steps
steps_lem n s e p b h =
    rw (steps_loop_lem n p (suc (e + 0 - (s + 0))) s e (e - s) refl (omega arith) b h, steps)

keep_one : (l : List ℕ) → keep (divides 1) l ≡ l
keep_one [] = refl
keep_one (x ∷ l) = ground (arith, keep_one l, mod-one x)

-- With increment 1 every number of the range is collected.
pub steps_one :
    (s e : ℕ) → e + 1 < 2 ^ 63 → steps (pos s) (pos e) (pos 1) ≡ ok (map pos (upto s (e - s)))
steps_one s e b = steps_lem 1 s e (omega arith) b (mod-one s) ∙ rw (keep_one (upto s (e - s)))

-- The loop with increment 0 ends after no number of rounds.
pub steps_loop_stuck :
    (fuel s e : ℕ) → s < e → s < 2 ^ 63 → steps_loop fuel (pos s) (pos e) (pos 0) ≡ none
unfolding steps_loop
steps_loop_stuck zero s e h k = refl
steps_loop_stuck (suc fuel) s e h k =
    let same : s + 0 ≡ s = omega arith in
    rw (add64_pos s 0 (omega arith), same, steps_loop_stuck fuel s e h k) (ground arith)
