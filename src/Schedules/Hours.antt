-- ===== src/Schedules/Hours.antt =====
-- dao/schedule_dao_impl.go: the loop of `getFilteredSchedules` over the hours of a range, and what
-- becomes of a range whose first hour has exactly as many schedules as asked for.
use goscheduler.Shared.{
  ◌/◌, All-append, ◌∙◌, ℕ, zero, suc, ◌+◌, ◌-◌, ◌^◌, ◌≤◌, ◌<◌, List, [], ◌++◌, ◌≡◌, refl, arith,
  Option, none, some, Bool, true, false, Bool-cases, Option-cases, inl, inr, ◌⊎◌, length,
  length-append, append_assoc, All,
}
use mathlib.Core.Path.{subst}
use goscheduler.Shared.Int.{ℤ, pos, sub64, sub64_pos, eqb_ℤ}
use goscheduler.Store.Schedule.{Schedule}
use goscheduler.Schedules.Session.{Row}
use goscheduler.Schedules.Runs.{Page, Query, full}
use goscheduler.Schedules.RunsPages.{
  Pages, Decodes, from_next, passing, All-split, passing-append, length-passing, scan_lem,
}
use goscheduler.Schedules.Windows.{Found, next_end, time_stamps, get_filtered_loop}

-- How many windows follow the first one.
abbrev pub windows : ℕ → ℕ → ℕ
windows start end = (end - start - 1) / 3600

module _ (end : ℤ) where
  -- There are k windows from a time on up to the end, and none of them starts at 0.
  abbrev pub Ends : ℕ → ℤ → Type 0
  Ends zero start = eqb_ℤ start (next_end end start) ≡ true
  Ends (suc k) start =
      (eqb_ℤ start (next_end end start) ≡ false)
      × (eqb_ℤ start (pos 0) ≡ false)
      × Ends k (next_end end start)

  -- The times of the window that starts at a time.
  abbrev pub window : ℤ → List ℤ
  window start = time_stamps start (next_end end start)

  module _ (rank : List ℤ → Option ℕ → ℕ) where
    -- Rounds that are enough for k windows.
    abbrev pub later_work : ℕ → ℤ → ℕ
    later_work zero start = 1
    later_work (suc k) start = suc (rank (window start) none + later_work k (next_end end start))

    abbrev pub work_from : Option ℕ → ℕ → ℤ → ℕ
    work_from state k start = rank (window start) state + later_work k (next_end end start)

  module _ (remaining : List ℤ → Option ℕ → List Row) where
    -- The rows of k windows.
    abbrev pub later : ℕ → ℤ → List Row
    later zero start = []
    later (suc k) start = remaining (window start) none ++ later k (next_end end start)

    -- The rows from a page state of a window on, with those of the k windows behind it.
    abbrev pub rows_from : Option ℕ → ℕ → ℤ → List Row
    rows_from state k start = remaining (window start) state ++ later k (next_end end start)

    -- The rows that a call has not read: those from the page state on that the window's query gave, and
    -- those of the windows behind it.
    abbrev pub Unread : Found → List Row → Type 0
    Unread found rest =
        (k : ℕ) × Ends (suc k) found.window_start
        × All Decodes rest
        × (rest
            ≡ from_next (remaining (window found.window_start)) found.page_state
              ++ later k (next_end end found.window_start))

    module _ (rank : List ℤ → Option ℕ → ℕ) (enrich : Schedule → Schedule)
        (filter : Schedule → Bool) (query : List ℤ → Query) (n : ℕ) where
      abbrev pub Listed : Option Found → List Schedule → List Row → Type 0
      Listed result before rows =
          (found : Found) × (rest : List Row) × (result ≡ some found)
          × Unread found rest
          × (found.schedules ++ passing enrich filter rest ≡ before ++ passing enrich filter rows)
          × (length found.schedules ≤ n)
          × ((length found.schedules ≡ n) ⊎ (rest ≡ []))

      onwards :
          (result : Option Found) (before out : List Schedule) (rows more : List Row)
          → out ++ passing enrich filter more ≡ before ++ passing enrich filter rows
          → Listed result out more
          → Listed result before rows
      onwards result before out rows more e (found, rest, given, behind, same, few, all) =
          (found, rest, given, behind, same ∙ e, few, all)

      -- Past the last window the loop ends.
      loop_over :
          (fuel : ℕ) (out : List Schedule) (start last : ℤ)
          → 0 < fuel
          → eqb_ℤ start (next_end end start) ≡ true
          → get_filtered_loop enrich query filter
              (pos n)
              fuel
              end
              out
              start
              (next_end end start)
              none
              last
            ≡ some (record { schedules = out; page_state = none; window_start = last })
      unfolding get_filtered_loop
      loop_over zero out start last r over = absurd (omega arith)
      loop_over (suc fuel) out start last r over = rw over refl

      abbrev pub Loops : ℕ → ℕ → List Schedule → ℤ → Option ℕ → ℤ → Type 0
      Loops fuel k before start state last =
          Ends (suc k) start
          → All Decodes (remaining (window start) state ++ later k (next_end end start))
          → length before < n
          → rank (window start) state + later_work rank k (next_end end start) < fuel
          → Listed
              (get_filtered_loop enrich query filter (pos n) fuel end before start
                (next_end end start) state last)
              before (remaining (window start) state ++ later k (next_end end start))

      -- From a window to the next.
      next_window :
          (fuel k : ℕ) (out : List Schedule) (start : ℤ)
          → ((j : ℕ) → Loops fuel j out (next_end end start) none start)
          → Ends (suc k) start
          → All Decodes (later k (next_end end start))
          → length out < n
          → later_work rank k (next_end end start) ≤ fuel
          → Listed
              (get_filtered_loop enrich query filter
                (pos n)
                fuel
                end
                out
                (next_end end start)
                (next_end end (next_end end start))
                none
                start)
              out
              (later k (next_end end start))
      next_window fuel zero out start ih (differ, late, ends) h few r = (
        record { schedules = out; page_state = none; window_start = start },
        [],
        loop_over fuel out (next_end end start) start (omega arith) ends,
        (0, (differ, late, ends), tt, refl),
        refl,
        omega arith,
        inr refl,
      )
      next_window fuel (suc j) out start ih (differ, late, ends) h few r =
          ih j ends h few (omega arith)

      module _ (pages : (times : List ℤ) → Pages (query times) (remaining times) (rank times))
          (small : n < 2 ^ 63) where
        pub hours_loop :
            (fuel k : ℕ) (before : List Schedule) (start : ℤ) (state : Option ℕ) (last : ℤ)
            → Loops fuel k before start state last
        unfolding get_filtered_loop
        hours_loop zero k before start state last ends h some_left r = absurd (omega arith)
        hours_loop (suc fuel) k before start state last (differ, late, ends) h some_left r =
            let m : ℕ = n - length before in
            let stop = next_end end start in
            let times = window start in
            let size : sub64 (pos n) (pos (length before)) ≡ pos m =
              sub64_pos n (length before) (omega arith) small in
            let page : Page = query times state (pos m) in
            let whole : remaining times state ≡ page.rows ++ from_next (remaining times) page.next =
              (pages times).complete state m in
            let (window_rows, others) =
              All-split Decodes (remaining times state) (later k stop) h in
            let (here, behind) =
              All-split Decodes page.rows (from_next (remaining times) page.next)
                (subst (All Decodes) whole window_rows) in
            let fits : length page.rows ≤ m = (pages times).bounded state m (omega arith) in
            let out : List Schedule = before ++ passing enrich filter page.rows in
            let scanned = scan_lem enrich filter n before page.rows here (omega arith) in
            let short : length out ≤ n = omega (
              arith,
              length-append before (passing enrich filter page.rows),
              length-passing enrich filter page.rows,
            ) in
            let total : out
                  ++ passing enrich filter (from_next (remaining times) page.next ++ later k stop)
                ≡ before ++ passing enrich filter (remaining times state ++ later k stop) =
              simp (whole, passing-append, append_assoc) refl in
            let so_far = λ (next : Option ℕ) (e : page.next ≡ next).
              subst
                (λ next.
                  out ++ passing enrich filter (from_next (remaining times) next ++ later k stop)
                  ≡ before ++ passing enrich filter (remaining times state ++ later k stop))
                e total in
            rw (differ, size, scanned, (pages times).closing state m)
              (elim (Bool-cases (full (pos n) out)) [
                | inl done ↦ rw done (
                  record { schedules = out; page_state = page.next; window_start = start },
                  from_next (remaining times) page.next ++ later k stop,
                  refl,
                  (
                    k,
                    (differ, late, ends),
                    All-append Decodes (from_next (remaining times) page.next) (later k stop) behind
                        others,
                    refl,
                  ),
                  total,
                  short,
                  inl (ground arith),
                )
                | inr open_ ↦ rw open_ (elim (Option-cases page.next) [
                  | inl none_left ↦ rw none_left (
                      onwards _ before out _ (later k stop) (so_far none none_left) (
                        next_window fuel k out start (λ j. hours_loop fuel j out stop none start)
                          (differ, late, ends) others (ground arith) (omega arith)))
                  | inr (at, e) ↦ rw e (
                      onwards _ before out _ (remaining times (some at) ++ later k stop)
                        (so_far (some at) e)
                        (hours_loop fuel k out start (some at) start (differ, late, ends)
                          (All-append Decodes (remaining times (some at)) (later k stop)
                            (subst (λ next. All Decodes (from_next (remaining times) next)) e
                              behind)
                            others)
                          (ground arith) (omega (arith, (pages times).advances state m at e))))
                ])
              ])
