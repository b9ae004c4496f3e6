-- ===== src/Cron/Bounds.antt =====
-- Bounds of what the parts of the field parsers of cron/cron.go return.
use goscheduler.Shared.{
  ℕ, zero, suc, ◌+◌, ◌^◌, ◌≤◌, ◌<◌, List, [], ◌∷◌, ◌≡◌, arith, some, All, All-append, Option-cases,
  Bool-cases, inl, inr, length,
}
use goscheduler.Shared.Int.{ℤ, pos, ◌<ℤ◌, add64}
use goscheduler.Shared.Text.{Text, Lacks, codes, text_eq, split, parse_int, to_upper}
use goscheduler.Shared.Text.Split.{split_single}
use goscheduler.Cron.Outcome.{Outcome, ok, Message, OnOk, OnOk->>=, OnOk-Unit}
use goscheduler.Cron.Steps.{
  steps_loop, steps, step_start, step_parts, parse_step, parse_range, rounds,
}
use goscheduler.Cron.Fields.{
  parse_number, parse_part, parse_parts, parse_numeric, name_index, parse_named,
}
use goscheduler.Cron.RangeText.{Within, parse_range-Within}

-- What the loop collects is below its end, for every increment.
steps_loop_below :
    (fuel : ℕ) (s e i : ℤ) (l : List ℤ) → steps_loop fuel s e i ≡ some l → All (λ v. v <ℤ e) l
unfolding steps_loop
steps_loop_below zero s e i l h = absurd (ground arith)
steps_loop_below (suc fuel) s e i l h = elim (Option-cases (steps_loop fuel (add64 s i) e i)) [
  | inl none_left ↦ ground (arith, none_left)
  | inr (r, more) ↦ ground (arith, more, steps_loop_below fuel (add64 s i) e i r more)
]

abbrev pub Below : ℤ → List ℤ → Type 0
Below e = All (λ v. v <ℤ e)

steps-Below : (s e i : ℤ) → OnOk (Below e) (steps s e i)
unfolding steps
steps-Below s e i = elim (Option-cases (steps_loop (rounds s e i) s e i)) [
  | inl p ↦ rw (steps, p) tt
  | inr (l, p) ↦ rw (steps, p) (steps_loop_below (rounds s e i) s e i l p)
]

step_parts-Below :
    (s : Text) (range : ℤ) (parts : List Text) → OnOk (Below range) (step_parts s range parts)
unfolding step_parts
step_parts-Below s range [] = tt
step_parts-Below s range (a ∷ []) = tt
step_parts-Below s range (a ∷ b ∷ []) = elim (Option-cases (parse_int b)) [
  | inl p ↦ rw (step_parts, p) tt
  | inr (i, p) ↦
      rw (step_parts, p)
        (OnOk->>= (λ _. Unit {0}) (Below range) (step_start s a i) _ (OnOk-Unit (step_start s a i))
          λ start _. ground (arith, steps-Below start range i))
]
step_parts-Below s range (a ∷ b ∷ c ∷ r) = tt

module _ {ℓ} (P : ℤ → Type ℓ) where
  pub parse_parts-All :
      (parse : Text → Outcome (List ℤ))
      → ((p : Text) → OnOk (All P) (parse p))
      → (ps : List Text) → OnOk (All P) (parse_parts parse ps)
  unfolding parse_parts
  parse_parts-All parse each [] = tt
  parse_parts-All parse each (p ∷ ps) = OnOk->>= (All P) (All P) (parse p) _ (each p) λ v hv.
      OnOk->>= (All P) (All P) (parse_parts parse ps) _ (parse_parts-All parse each ps)
        λ vs hvs. All-append P v vs hv hvs

-- A number that is accepted lies within the bounds.
parse_number-Within :
    (lo hi : ℕ) (message : Message) (p : Text)
    → OnOk (All (Within lo hi)) (parse_number (pos lo) (pos hi) message p)
unfolding parse_number
parse_number-Within lo hi message p = elim (Option-cases (parse_int p)) [
  | inl e ↦ rw (e, parse_number) tt
  | inr (v, e) ↦ rw (e, parse_number) (ground arith)
]

name_index-lt :
    (names : List Text) (t : Text) (i k : ℕ)
    → name_index i names t ≡ some k
    → (i ≤ k) × (k < i + length names)
unfolding name_index
name_index-lt [] t i k h = absurd (ground arith)
name_index-lt (n ∷ names) t i k h = ground (arith, name_index-lt names t (i + 1) k)

-- The two parsers that fall back on others when nothing came back.
or_else-All {ℓ} :
    (P : ℤ → Type ℓ) (convert : List ℤ → List ℤ) (other : Outcome (List ℤ)) (l : List ℤ)
    → All P (convert l)
    → OnOk (All P) other
    → OnOk (All P) (elim l [ [] ↦ other | v ∷ vs ↦ ok (convert (v ∷ vs)) ])
or_else-All P convert other [] h k = k
or_else-All P convert other (v ∷ vs) h k = h

module _ (lo hi : ℕ) (message : Message) (room : hi + 2 < 2 ^ 63) where
  pub parse_part-Within :
      (convert : List ℤ → List ℤ) (p : Text)
      → ((l : List ℤ) → All (Within lo hi) l → All (Within lo hi) (convert l))
      → OnOk (All (Within lo hi)) (parse_part (pos lo) (pos hi) message convert p)
  unfolding parse_part
  parse_part-Within convert p conv =
      OnOk->>= (All (Within lo hi)) (All (Within lo hi)) (parse_range p (pos lo) (pos hi)) _
        (parse_range-Within p lo hi room)
        λ l h.
          or_else-All (Within lo hi) convert (parse_number (pos lo) (pos hi) message p) l (conv l h)
            (parse_number-Within lo hi message p)

  pub parse_named-Within :
      (names : List Text) (first : ℕ) (p : Text)
      → lo ≤ first
      → length names + first ≤ hi + 1
      → OnOk (All (Within lo hi)) (parse_named names first (pos lo) (pos hi) message p)
  unfolding parse_named
  parse_named-Within names first p h k = elim (Option-cases (name_index 0 names (to_upper p))) [
    | inl e ↦ rw (e, parse_named) (parse_part-Within (λ l. l) p (λ l w. w))
    | inr (i, e) ↦ rw (e, parse_named) (ground (arith, name_index-lt names (to_upper p) 0 i e))
  ]

-- A numeric field: what holds of a converted step and of the parts holds of the values.
pub parse_numeric-All {ℓ} :
    (P : ℤ → Type ℓ) (range min max : ℤ) (message : Message) (convert : List ℤ → List ℤ) (s : Text)
    → OnOk (λ l. All P (convert l)) (parse_step s range)
    → OnOk (All P) (parse_parts (parse_part min max message convert) (split b',' s))
    → OnOk (All P) (parse_numeric range min max message convert s)
unfolding parse_numeric
parse_numeric-All P range min max message convert s h k =
    elim (Bool-cases (text_eq s (codes "*"))) [
      | inl e ↦ rw (e, parse_numeric) tt
      | inr e ↦
          rw (e, parse_numeric)
            (OnOk->>= (λ l. All P (convert l)) (All P) (parse_step s range) _ h
              λ l w.
                or_else-All P convert
                  (parse_parts (parse_part min max message convert) (split b',' s)) l w k)
    ]

-- With no slash in the text no step is read.
pub parse_step-Lacks : (s : Text) (range : ℤ) → Lacks b'/' s → parse_step s range ≡ ok []
unfolding parse_step step_parts
parse_step-Lacks s range h = rw (split_single b'/' s h)

pub parse_step-Below : (s : Text) (range : ℤ) → OnOk (Below range) (parse_step s range)
unfolding parse_step
parse_step-Below s range = step_parts-Below s range (split b'/' s)
