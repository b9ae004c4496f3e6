-- ===== src/Schedules/RunsPages.antt =====
-- The page loop of dao/schedule_dao_impl.go: that it ends, and what its pages amount to.
use goscheduler.Shared.{
  ℕ, zero, suc, ◌+◌, ◌-◌, ◌^◌, ◌≤◌, ◌<◌, List, [], ◌∷◌, ◌++◌, ◌≡◌, refl, arith, Option, none, some,
  Bool, true, false, Bool-cases, Option-cases, inl, inr, ◌⊎◌, if◌then◌else◌, length, length-append,
  append_assoc, append-nil, All, keep,
}
use mathlib.Core.Path.{subst}
use goscheduler.Shared.Int.{pos, sub64, sub64_pos}
use goscheduler.Store.Schedule.{Schedule}
use goscheduler.Schedules.Session.{Row}
use goscheduler.Schedules.Runs.{Page, Query, full, scan, get_filtered_runs}

-- The rows that the query has from a page state on; none from an empty state that a page gave.
abbrev pub from_next : (Option ℕ → List Row) → Option ℕ → List Row
from_next remaining none = []
from_next remaining (some state) = remaining (some state)

-- What the driver documents of a query's pages: each has at most as many rows as asked for, its
-- rows are the next of `remaining`, it closes without an error, and `rank` falls from page to page.
pub record Pages (query : Query) (remaining : Option ℕ → List Row) (rank : Option ℕ → ℕ)
    : Type 0 where
  pub bounded : (state : Option ℕ) (n : ℕ) → 0 < n → length (query state (pos n)).rows ≤ n
  pub complete :
      (state : Option ℕ) (n : ℕ)
      → remaining state
        ≡ (query state (pos n)).rows ++ from_next remaining (query state (pos n)).next
  pub closing : (state : Option ℕ) (n : ℕ) → (query state (pos n)).closes ≡ true
  pub advances :
      (state : Option ℕ) (n k : ℕ)
      → (query state (pos n)).next ≡ some k
      → rank (some k) < rank state

pub All-split {ℓ κ} :
    {A : Type ℓ} (P : A → Type κ) (xs ys : List A) → All P (xs ++ ys) → All P xs × All P ys
All-split P [] ys h = (tt, h)
All-split P (x ∷ xs) ys (p, h) = let (a, b) = All-split P xs ys h in ((p, a), b)

keep-append {ℓ} :
    {A : Type ℓ} (p : A → Bool) (xs ys : List A) → keep p (xs ++ ys) ≡ keep p xs ++ keep p ys
keep-append p [] ys = refl
keep-append p (x ∷ xs) ys = elim (Bool-cases (p x)) [
  | inl e ↦ rw (e, keep-append p xs ys) refl
  | inr e ↦ rw (e, keep-append p xs ys) refl
]

abbrev pub Decodes : Row → Type 0
Decodes row = row.decodes ≡ true

module _ (enrich : Schedule → Schedule) (filter : Schedule → Bool) where
  -- The schedules of rows that pass, enriched.
  abbrev pub passing : List Row → List Schedule
  passing [] = []
  passing (row ∷ rows) =
      (if filter (enrich row.entry) then enrich row.entry ∷ [] else []) ++ passing rows

  pub passing-append : (xs ys : List Row) → passing (xs ++ ys) ≡ passing xs ++ passing ys
  passing-append [] ys = refl
  passing-append (x ∷ xs) ys = rw (passing-append xs ys, append_assoc) refl

  pub length-passing : (rows : List Row) → length (passing rows) ≤ length rows
  length-passing [] = omega arith
  length-passing (row ∷ rows) = elim (Bool-cases (filter (enrich row.entry))) [
    | inl e ↦ rw e (omega (arith, length-passing rows))
    | inr e ↦ rw e (omega (arith, length-passing rows))
  ]

  length-one : (s : Schedule) → length (if filter s then s ∷ [] else []) ≤ 1
  length-one s = ground arith

  pub scan_lem :
      (n : ℕ) (out : List Schedule) (rows : List Row)
      → All Decodes rows
      → length out + length rows ≤ n
      → scan enrich filter (pos n) out rows ≡ (true, out ++ passing rows)
  unfolding scan
  scan_lem n out [] h k = rw (append-nil out) refl
  scan_lem n out (row ∷ rows) (d, h) k =
      let more : full (pos n) out ≡ false = ground arith in
      let one : List Schedule = if filter (enrich row.entry) then enrich row.entry ∷ [] else [] in
      rw (more, d)
        (let ih =
            scan_lem n (out ++ one) rows h
              (omega (arith, length-append out one, length-one (enrich row.entry))) in
          rw (ih, append_assoc out one (passing rows)) refl)

  module _ (query : Query) (remaining : Option ℕ → List Row) (rank : Option ℕ → ℕ) (n : ℕ) where
    -- For a query whose pages are as the driver documents, rows that decode, and a positive page size
    -- that is not reached yet, the page loop ends within fuel above the rank of its page state. The
    -- runs that it gives, followed by those of the page state that it leaves, are the runs found
    -- before, followed by those of the page state that it starts from: none is lost or comes twice.
    -- It gives at most as many as asked for, and fewer only at the end of the pages.
    pub get_filtered_runs_lem :
        (fuel : ℕ) (found : List Schedule) (state : Option ℕ)
        → Pages query remaining rank
        → n < 2 ^ 63
        → All Decodes (remaining state)
        → length found < n
        → rank state < fuel
        → (runs : List Schedule) × (next : Option ℕ) × (get_filtered_runs enrich query fuel filter
              (pos n)
              found
              state
            ≡ some (runs, next))
          × (runs ++ passing (from_next remaining next) ≡ found ++ passing (remaining state))
          × (length runs ≤ n)
          × ((length runs ≡ n) ⊎ (next ≡ none))
    unfolding get_filtered_runs
    get_filtered_runs_lem zero found state pages small h k r = absurd (omega arith)
    get_filtered_runs_lem (suc fuel) found state pages small h k r =
        let m : ℕ = n - length found in
        let size : sub64 (pos n) (pos (length found)) ≡ pos m =
          sub64_pos n (length found) (omega arith) small in
        let page : Page = query state (pos m) in
        let whole : remaining state ≡ page.rows ++ from_next remaining page.next =
          pages.complete state m in
        let (here, later) =
          All-split Decodes page.rows (from_next remaining page.next)
            (subst (All Decodes) whole h) in
        let fits : length page.rows ≤ m = pages.bounded state m (omega arith) in
        let out : List Schedule = found ++ passing page.rows in
        let scanned = scan_lem n found page.rows here (omega arith) in
        let total : out ++ passing (from_next remaining page.next)
            ≡ found ++ passing (remaining state) =
          rw (whole, passing-append, append_assoc) refl in
        let so_far = λ (next : Option ℕ) (e : page.next ≡ next).
          subst
            (λ next. out ++ passing (from_next remaining next) ≡ found ++ passing (remaining state))
            e total in
        let short : length out ≤ n =
          omega (arith, length-append found (passing page.rows), length-passing page.rows) in
        rw (size, scanned, pages.closing state m)
          (elim (Option-cases page.next) [
            | inl none_left ↦ rw none_left (out, none, refl, so_far none none_left, short, inr refl)
            | inr (at, e) ↦ rw e (elim (Bool-cases (full (pos n) out)) [
              | inl done ↦
                  rw done (out, some at, refl, so_far (some at) e, short, inl (ground arith))
              | inr open_ ↦
                  let (runs, next, ih, same, few, all) =
                    get_filtered_runs_lem fuel out (some at) pages small
                      (subst (λ next. All Decodes (from_next remaining next)) e later)
                      (ground arith) (omega (arith, pages.advances state m at e)) in
                  rw open_ (runs, next, ih, (let t = so_far (some at) e in cc), few, all)
            ])
          ])
