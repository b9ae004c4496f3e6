-- ===== src/Schedules/Resuming.antt =====
-- dao/schedule_dao_impl.go: the call of `getFilteredSchedules` that goes on where another stopped.
use mathlib.Core.Path.{subst}
use goscheduler.Shared.{
  ap, ◌∙◌, ℕ, suc, ◌^◌, ◌≤◌, ◌<◌, List, [], ◌++◌, ◌≡◌, arith, Option, none, some, Bool,
  Option-cases, sym, inl, inr, ◌⊎◌, length, All,
}
use goscheduler.Shared.Int.{ℤ, pos}
use goscheduler.Store.Schedule.{Schedule}
use goscheduler.Schedules.Session.{Row}
use goscheduler.Schedules.Runs.{Query}
use goscheduler.Schedules.RunsPages.{Pages, Decodes, from_next, passing}
use goscheduler.Schedules.Windows.{Range, Found, next_end, get_filtered_schedules}
use goscheduler.Schedules.Hours.{Ends, window, Unread, later, rows_from, work_from, hours_loop}

module _ (enrich : Schedule → Schedule) (filter : Schedule → Bool) (query : List ℤ → Query)
    (remaining : List ℤ → Option ℕ → List Row) (n end : ℕ) (range : Range) where
  -- That the next call, with the page state and the start that a call gave, returns with some fuel, and
  -- goes on with the rows that are left: the schedules that it gives, followed by those of the rows
  -- that are left then, are those of the rows that were left.
  abbrev pub Continues : Found → List Row → Type 0
  Continues found rest =
      (fuel : ℕ) × (next : Found) × (others : List Row) × (get_filtered_schedules enrich query
          filter (pos n) fuel range found.page_state found.window_start
        ≡ some next)
      × (next.schedules ++ passing enrich filter others ≡ passing enrich filter rest)
      × (length next.schedules ≤ n)
      × ((length next.schedules ≡ n) ⊎ (others ≡ []))

  -- Either there is a page state and the next call goes on with the rows that are left, or there is none
  -- and these are the rows of the windows behind the one whose start was given.
  abbrev pub Left : Found → List Row → Type 0
  Left found rest =
      ((state : ℕ) × (found.page_state ≡ some state) × Continues found rest)
      ⊎ ((k : ℕ) × (found.page_state ≡ none)
          × Ends (pos end) (suc k) found.window_start
          × (rest ≡ later (pos end) remaining k (next_end (pos end) found.window_start)))

  pub Unread-Left :
      (rank : List ℤ → Option ℕ → ℕ) (found : Found) (rest : List Row)
      → ((times : List ℤ) → Pages (query times) (remaining times) (rank times))
      → 0 < n
      → n < 2 ^ 63
      → range.end_time ≡ pos end
      → Unread (pos end) remaining found rest
      → Left found rest
  unfolding get_filtered_schedules
  Unread-Left rank found rest pages some_ small same_end (k, (differ, late, ends), h, left) =
      elim (Option-cases found.page_state) [
        | inl e ↦ inr (
          k,
          e,
          (differ, late, ends),
          left
              ∙ ap
                  (λ state.
                    from_next (remaining (window (pos end) found.window_start)) state
                    ++ later (pos end) remaining k (next_end (pos end) found.window_start))
                  e,
        )
        | inr (state, e) ↦
            let here : rest ≡ rows_from (pos end) remaining (some state) k found.window_start =
              left
              ∙ ap
                  (λ state.
                    from_next (remaining (window (pos end) found.window_start)) state
                    ++ later (pos end) remaining k (next_end (pos end) found.window_start))
                  e in
            let fuel : ℕ = suc (work_from (pos end) rank (some state) k found.window_start) in
            let (next, others, given, _, same, few, all) =
              hours_loop (pos end) remaining rank enrich filter query n pages small fuel k []
                found.window_start (some state) found.window_start (differ, late, ends)
                (subst (All Decodes) here h) some_ (omega arith) in
            inl (
              state,
              e,
              (
                fuel,
                next,
                others,
                rw (e, same_end, late) given,
                same ∙ ap (passing enrich filter) (sym here),
                few,
                all,
              ),
            )
      ]
