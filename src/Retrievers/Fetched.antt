-- ===== src/Retrievers/Fetched.antt =====
-- What the pollers' fetching amounts to, over the pages of retrievers/schedule_retriver.go.
use goscheduler.Shared.{
  ℕ, zero, suc, ◌+◌, ◌≤◌, ◌<◌, List, [], ◌∷◌, ◌++◌, ◌≡◌, refl, sym, arith, Option, none, some, Bool,
  true, false, ◌||◌, ltb, Bool-cases, Option-cases, inl, inr, length, concat, All-mono, append-nil,
  All, All-append,
}
use mathlib.Core.Path.{subst}
use goscheduler.Shared.Int.{pos}
use goscheduler.Store.Schedule.{Schedule}
use goscheduler.Schedules.Session.{Row}
use goscheduler.Schedules.Runs.{Page, Query, is_empty_state}
use goscheduler.Schedules.RunsPages.{Pages, Decodes, from_next, All-split}
use goscheduler.Schedules.Batching.{act_last}
use goscheduler.Schedules.Batched.{entries, entries-append, act_rows_lem, act_last_lem, joined}
use goscheduler.Retrievers.Fetching.{read_rows, fetch_loop, before, bulk_action}

read_rows_lem : (rows : List Row) → All Decodes rows → read_rows rows ≡ (true, entries rows)
unfolding read_rows
read_rows_lem [] h = refl
read_rows_lem (row ∷ rows) (d, h) = rw (d, read_rows_lem rows h) refl

before-some {ℓ} :
    {A : Type ℓ} (xs : List A) (o : Option (Bool × List A)) (r : Bool × List A)
    → o ≡ some r
    → (q : Bool × List A) × (before xs o ≡ some q)
before-some xs none r e = absurd cc
before-some xs (some (fine, more)) r e = ((fine, xs ++ more), refl)

-- Whatever the pages are, the loop of `GetSchedules` ends on fuel for one query more than the limit on
-- queries, those so far included.
fetch_loop-ends :
    (query : Option ℕ → Page) (fuel max_queries queries : ℕ) (state : Option ℕ)
    → 0 < fuel
    → max_queries < queries + fuel
    → (r : Bool × List Schedule) × (fetch_loop query fuel max_queries queries state ≡ some r)
unfolding fetch_loop
fetch_loop-ends query zero max_queries queries state h k = absurd (omega arith)
fetch_loop-ends query (suc fuel) max_queries queries state h k =
    let page : Page = query state in
    elim (Bool-cases (read_rows page.rows).0) [
      | inr bad ↦ rw bad (_, refl)
      | inl good ↦ elim (Bool-cases page.closes) [
        | inr bad ↦ rw (good, bad) (_, refl)
        | inl closed ↦
            elim (Bool-cases (is_empty_state page.next || ltb max_queries (suc queries))) [
              | inl last ↦ rw (good, closed, last) (_, refl)
              | inr more ↦
                  let within : suc queries ≤ max_queries = ground arith in
                  let (r, ih) =
                    fetch_loop-ends query fuel max_queries (suc queries) page.next (omega arith)
                      (omega arith) in
                  rw (good, closed, more) (before-some (read_rows page.rows).1 _ r ih)
            ]
      ]
    ]

module _ (query : Query) (remaining : Option ℕ → List Row) (rank : Option ℕ → ℕ) (n : ℕ) where
  -- For a query whose pages are as the driver documents and rows that decode, the loop of
  -- `GetSchedules` invokes the callback of each schedule once and in order, and gives no error, if the
  -- fuel is above the rank of the page state, and the rank and the queries so far are together at most
  -- the limit on queries.
  pub fetch_loop_lem :
      (fuel max_queries queries : ℕ) (state : Option ℕ)
      → Pages query remaining rank
      → All Decodes (remaining state)
      → rank state < fuel
      → rank state + queries ≤ max_queries
      → fetch_loop (λ state. query state (pos n)) fuel max_queries queries state
        ≡ some (true, entries (remaining state))
  unfolding fetch_loop
  fetch_loop_lem zero max_queries queries state pages h k m = absurd (omega arith)
  fetch_loop_lem (suc fuel) max_queries queries state pages h k m =
      let page : Page = query state (pos n) in
      let whole : remaining state ≡ page.rows ++ from_next remaining page.next =
        pages.complete state n in
      let (here, later) =
        All-split Decodes page.rows (from_next remaining page.next) (subst (All Decodes) whole h) in
      rw (read_rows_lem page.rows here, pages.closing state n, whole, entries-append)
        (elim (Option-cases page.next) [
          | inl last ↦ rw (last, append-nil) refl
          | inr (at, e) ↦
              let within : ltb max_queries (suc queries) ≡ false =
                ground (arith, pages.advances state n at e) in
              let ih =
                fetch_loop_lem fuel max_queries (suc queries) (some at) pages
                  (subst (λ next. All Decodes (from_next remaining next)) e later)
                  (omega (arith, pages.advances state n at e))
                  (omega (arith, pages.advances state n at e)) in
              rw (e, within, ih) refl
        ])

module _ (acts : List Schedule → Bool) (fine : (batch : List Schedule) → acts batch ≡ true) where
  module _ (query : Query) (remaining : Option ℕ → List Row) (rank : Option ℕ → ℕ) (n : ℕ) where
    -- For a query whose pages are as the driver documents, rows that decode, and actions that give no
    -- error, the loop of `BulkAction` ends within fuel above the rank of its page state: it acts on each
    -- schedule once and in order, in batches of at most fifty.
    pub bulk_action_lem :
        (fuel : ℕ) (state : Option ℕ) (batch : List Schedule)
        → Pages query remaining rank
        → All Decodes (remaining state)
        → rank state < fuel
        → length batch < 50
        → (batches : List (List Schedule)) × (bulk_action acts
              (λ state. query state (pos n))
              fuel
              state
              batch
            ≡ some (true, batches))
          × (concat batches ≡ batch ++ entries (remaining state))
          × All (λ b. length b ≤ 50) batches
    unfolding bulk_action
    bulk_action_lem zero state batch pages h k m = absurd (omega arith)
    bulk_action_lem (suc fuel) state batch pages h k m =
        let page : Page = query state (pos n) in
        let whole : remaining state ≡ page.rows ++ from_next remaining page.next =
          pages.complete state n in
        let (here, later) =
          All-split Decodes page.rows (from_next remaining page.next)
            (subst (All Decodes) whole h) in
        let (acted, left, did, same, small, sizes) =
          act_rows_lem acts fine page.rows batch here m in
        let rest =
          λ (next : Option ℕ) (tail : List (List Schedule)) (e : page.next ≡ next)
              (t : concat tail ≡ left ++ entries (from_next remaining next)).
            subst (λ rows. concat (acted ++ tail) ≡ batch ++ entries rows) (sym whole)
              (joined acts fine acted tail left batch page.rows (from_next remaining page.next) same
                (subst (λ next. concat tail ≡ left ++ entries (from_next remaining next)) (sym e)
                  t)) in
        let short =
          All-mono (λ b. length b ≡ 50) (λ b. length b ≤ 50) (λ b e. omega (arith, e)) acted
            sizes in
        rw (did, pages.closing state n)
          (elim (Option-cases page.next) [
            | inl end ↦
                let (good, all, few) = act_last_lem acts fine left small in
                rw end (
                  acted ++ (act_last acts left).1,
                  rw good refl,
                  rest none (act_last acts left).1 end (rw (all, append-nil left) refl),
                  All-append _ acted _ short few,
                )
            | inr (at, e) ↦
                let (more, ih, all, few) =
                  bulk_action_lem fuel (some at) left pages
                    (subst (λ next. All Decodes (from_next remaining next)) e later)
                    (omega (arith, pages.advances state n at e)) small in
                rw (e, ih)
                  (
                    acted ++ more,
                    refl,
                    rest (some at) more e all,
                    All-append _ acted more short few,
                  )
          ])
