-- ===== src/Schedules/Runs.antt =====
-- dao/schedule_dao_impl.go: the runs of a recurring schedule, page by page: `getFilteredRuns`, its
-- three callers and `GetScheduleRuns`. The query is a parameter, from a page state and a page size
-- to a page; a page state is a number, `none` the empty one. A writer is passed by value, so that
-- `writer.err = &err` reports nothing: the error that is returned is always nil, and left out.
use goscheduler.Shared.{
  ℕ, zero, suc, List, [], ◌∷◌, ◌++◌, Option, none, some, Bool, true, false, ◌||◌, if◌then◌else◌,
  length, reverse,
}
use goscheduler.Shared.Int.{ℤ, pos, ltb_ℤ, eqb_ℤ, sub64}
use goscheduler.Shared.Text.{Text, codes, text_eq}
use goscheduler.Store.Schedule.{Schedule, nanos}
use goscheduler.Schedules.Session.{Row}

-- `closes` is false if `Close` of the iterator gives an error.
pub record Page : Type 0 where
  pub rows : List Row
  pub next : Option ℕ
  pub closes : Bool

abbrev pub Query : Type 0
Query = Option ℕ → ℤ → Page

abbrev pub is_empty_state : Option ℕ → Bool
is_empty_state none = true
is_empty_state (some state) = false

-- `terminate`.
abbrev pub full : ℤ → List Schedule → Bool
full size found = eqb_ℤ (pos (length found)) size

-- The loop that takes from the back until there are `size`.
abbrev pub up_to : ℤ → ℕ → List Schedule → List Schedule
up_to size taken [] = []
up_to size taken (s ∷ rest) =
    let more = up_to size (suc taken) rest in if eqb_ℤ (pos taken) size then [] else s ∷ more

module _ (enrich : Schedule → Schedule) where
  -- The rows of one page: false if a row does not decode.
  unfoldable pub scan : (Schedule → Bool) → ℤ → List Schedule → List Row → Bool × List Schedule
  scan filter size found [] = (true, found)
  scan filter size found (row ∷ rows) =
      let entry = enrich row.entry in
      let rest = scan filter size (found ++ (if filter entry then entry ∷ [] else [])) rows in
      if full size found then (true, found) else if row.decodes then rest else (false, found)

  module _ (query : Query) where
    -- `getFilteredRuns`, on fuel: the runs found and the last page state.
    unfoldable pub get_filtered_runs :
        ℕ → (Schedule → Bool) → ℤ → List Schedule → Option ℕ → Option (List Schedule × Option ℕ)
    unfolding scan
    get_filtered_runs zero filter size found state = none
    get_filtered_runs (suc fuel) filter size found state =
        let page : Page = query state (sub64 size (pos (length found))) in
        let scanned = scan filter size found page.rows in
        let rest = get_filtered_runs fuel filter size scanned.1 page.next in
        if scanned.0
        then (if page.closes
            then (if is_empty_state page.next || full size scanned.1
                then some (scanned.1, page.next)
                else rest)
            else some (scanned.1, page.next))
        else some (scanned.1, state)

    -- `getAllRuns`.
    unfoldable pub get_all_runs : ℕ → ℤ → Option ℕ → Option (List Schedule × Option ℕ)
    unfolding get_filtered_runs
    get_all_runs fuel size state = get_filtered_runs fuel (λ s. true) size [] state

    -- `getPastRuns`, with the time in nanoseconds.
    unfoldable pub get_past_runs : ℤ → ℕ → ℤ → Option ℕ → Option (List Schedule × Option ℕ)
    unfolding get_filtered_runs
    get_past_runs now fuel size state =
        get_filtered_runs fuel (λ s. ltb_ℤ (nanos s.schedule_group) now) size [] state

    abbrev back_to_front : ℤ → Option (List Schedule × Option ℕ) → Option (List Schedule × Option ℕ)
    back_to_front size none = none
    back_to_front size (some (found, state)) = some (up_to size 0 (reverse found), state)

    -- `getFutureRuns`.
    unfoldable pub get_future_runs : ℤ → ℕ → ℤ → Option ℕ → Option (List Schedule × Option ℕ)
    unfolding get_filtered_runs
    get_future_runs now fuel size state =
        back_to_front size
          (get_filtered_runs fuel (λ s. ltb_ℤ now (nanos s.schedule_group)) size [] state)

    -- `GetScheduleRuns`.
    unfoldable pub get_schedule_runs :
        Text → ℤ → ℕ → ℤ → Option ℕ → Option (List Schedule × Option ℕ)
    unfolding get_all_runs get_past_runs get_future_runs
    get_schedule_runs when now fuel size state =
        if text_eq when (codes "past")
        then get_past_runs now fuel size state
        else if text_eq when (codes "future")
        then get_future_runs now fuel size state
        else get_all_runs fuel size state
