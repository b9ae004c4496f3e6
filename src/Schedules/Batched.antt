-- ===== src/Schedules/Batched.antt =====
-- What the batches of dao/schedule_dao_impl.go and retrievers/schedule_retriver.go amount to.
use goscheduler.Shared.{
  ℕ, ◌≤◌, ◌<◌, List, [], ◌∷◌, ◌++◌, ◌≡◌, refl, sym, arith, Option, none, Bool, true, ◌==◌,
  Bool-cases, inl, inr, length, length-append, concat, All-mono, append_assoc, append-nil, All,
  All-append,
}
use goscheduler.Shared.Int.{pos}
use goscheduler.Store.Schedule.{Schedule}
use goscheduler.Schedules.Session.{Row}
use goscheduler.Schedules.Runs.{Page, Query}
use goscheduler.Schedules.RunsPages.{Pages, Decodes, from_next}
use goscheduler.Schedules.Batching.{act_rows, act_last, bulk_action}

-- The schedules of rows.
abbrev pub entries : List Row → List Schedule
entries [] = []
entries (row ∷ rows) = row.entry ∷ entries rows

pub entries-append : (xs ys : List Row) → entries (xs ++ ys) ≡ entries xs ++ entries ys
entries-append [] ys = refl
entries-append (x ∷ xs) ys = rw (entries-append xs ys) refl

module _ (acts : List Schedule → Bool) (fine : (batch : List Schedule) → acts batch ≡ true) where
  pub act_rows_lem :
      (rows : List Row) (batch : List Schedule)
      → All Decodes rows
      → length batch < 50
      → (acted : List (List Schedule)) × (left : List Schedule) × (act_rows acts rows batch
          ≡ record { going = true; acted = acted; batch = left })
        × (concat acted ++ left ≡ batch ++ entries rows)
        × (length left < 50)
        × All (λ b. length b ≡ 50) acted
  unfolding act_rows
  act_rows_lem [] batch h k = ([], batch, refl, rw (append-nil batch) refl, k, tt)
  act_rows_lem (row ∷ rows) batch (d, h) k =
      let grown : List Schedule = batch ++ row.entry ∷ [] in
      elim (Bool-cases (length grown == 50)) [
        | inl full ↦
            let (acted, left, ih, same, small, sizes) = act_rows_lem rows [] h (omega arith) in
            let size : length grown ≡ 50 = ground arith in
            (
              grown ∷ acted,
              left,
              rw (d, full, fine grown, ih) refl,
              (rw
                  (
                    append_assoc grown (concat acted) left,
                    same,
                    append_assoc batch (row.entry ∷ []) (entries rows),
                  )
                  refl),
              small,
              (size, sizes),
            )
        | inr more ↦
            let n = length-append batch (row.entry ∷ []) in
            let (acted, left, ih, same, small, sizes) = act_rows_lem rows grown h (ground arith) in
            (
              acted,
              left,
              rw (d, more, ih) refl,
              (rw (same, append_assoc batch (row.entry ∷ []) (entries rows)) refl),
              small,
              sizes,
            )
      ]

  pub act_last_lem :
      (batch : List Schedule)
      → length batch < 50
      → ((act_last acts batch).0 ≡ true)
        × (concat (act_last acts batch).1 ≡ batch)
        × All (λ b. length b ≤ 50) (act_last acts batch).1
  act_last_lem [] h = (refl, refl, tt)
  act_last_lem (s ∷ batch) h = (fine (s ∷ batch), append-nil (s ∷ batch), (omega arith, tt))

  concat-append : (xs ys : List (List Schedule)) → concat (xs ++ ys) ≡ concat xs ++ concat ys
  concat-append [] ys = refl
  concat-append (x ∷ xs) ys = rw (concat-append xs ys, append_assoc) refl

  pub joined :
      (acted tail : List (List Schedule)) (left batch : List Schedule) (rows rest : List Row)
      → concat acted ++ left ≡ batch ++ entries rows
      → concat tail ≡ left ++ entries rest
      → concat (acted ++ tail) ≡ batch ++ entries (rows ++ rest)
  joined acted tail left batch rows rest same more =
      rw
        (
          concat-append acted tail,
          more,
          sym (append_assoc (concat acted) left (entries rest)),
          same,
          append_assoc batch (entries rows) (entries rest),
          entries-append rows rest,
        )
        refl

  -- If each action gives no error and the rows of the first page decode, `BulkAction` of the dao acts on
  -- each schedule of the first page once and in order, in batches of at most fifty, and gives no error,
  -- for pages as the driver documents: the schedules of the later pages are left out.
  pub first_page_lem :
      (query : Query) (remaining : Option ℕ → List Row) (rank : Option ℕ → ℕ) (n : ℕ)
      → Pages query remaining rank
      → All Decodes (query none (pos n)).rows
      → (batches : List (List Schedule)) × (bulk_action acts (query none (pos n)) ≡ (true, batches))
        × All (λ b. length b ≤ 50) batches
        × (concat batches ≡ entries (query none (pos n)).rows)
        × (concat batches ++ entries (from_next remaining (query none (pos n)).next)
            ≡ entries (remaining none))
  unfolding bulk_action
  first_page_lem query remaining rank n pages h =
      let page : Page = query none (pos n) in
      let (acted, left, did, same, small, sizes) = act_rows_lem page.rows [] h (omega arith) in
      let (good, all, few) = act_last_lem left small in
      let short =
        All-mono (λ b. length b ≡ 50) (λ b. length b ≤ 50) (λ b e. omega (arith, e)) acted sizes in
      let exact : concat (acted ++ (act_last acts left).1) ≡ entries page.rows =
        rw (concat-append acted (act_last acts left).1, all, same) refl in
      (
        acted ++ (act_last acts left).1,
        rw (did, good, pages.closing none n) refl,
        All-append _ acted _ short few,
        exact,
        rw (exact, pages.complete none n, entries-append) refl,
      )
