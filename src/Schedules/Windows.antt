-- ===== src/Schedules/Windows.antt =====
-- dao/schedule_dao_impl.go: the schedules of an app in a range of time, hour by hour and page by page:
-- `getSchedules`, `getFilteredSchedules`, `GetPaginatedSchedules`. A time is in seconds. The query is a
-- parameter, from the times of a window to a query with pages; the app and its partitions are fixed.
-- As for the runs, the error of the writer is lost, and left out.
use goscheduler.Shared.{
  ℕ, zero, suc, ◌/◌, List, [], ◌∷◌, Option, none, some, Bool, true, ◌||◌, if◌then◌else◌, length,
}
use goscheduler.Shared.Int.{ℤ, pos, pos_part, ltb_ℤ, eqb_ℤ, add64, sub64}
use goscheduler.Shared.Text.{text_eq}
use goscheduler.Store.Schedule.{Schedule, Status, scheduled, success, failure, miss}
use goscheduler.Schedules.Runs.{Page, Query, is_empty_state, full, scan}

-- A range of time, without its end.
pub record Range : Type 0 where
  pub start_time : ℤ
  pub end_time : ℤ

-- The loop from minute to minute, on fuel.
unfoldable pub minutes_from : ℕ → ℤ → ℤ → List ℤ
minutes_from zero time end = []
minutes_from (suc fuel) time end =
    let rest = minutes_from fuel (add64 time (pos 60)) end in
    if ltb_ℤ time end then time ∷ rest else []

-- `timeStamps`; there is a round for each minute that begins in the range.
unfoldable pub time_stamps : ℤ → ℤ → List ℤ
unfolding minutes_from
time_stamps start end = minutes_from (suc (pos_part (sub64 end start) / 60)) start end

-- `next`: an hour on, or the end.
unfoldable pub next_end : ℤ → ℤ → ℤ
next_end end start = if ltb_ℤ (sub64 end start) (pos 3600) then end else add64 start (pos 3600)

-- What a call gives: the schedules, the last page state, and the start of the last window.
pub record Found : Type 0 where
  pub schedules : List Schedule
  pub page_state : Option ℕ
  pub window_start : ℤ

-- The start that is continued from takes the place of the range's.
abbrev pub start_of : Range → ℤ → ℤ
start_of range continuation = if eqb_ℤ continuation (pos 0) then range.start_time else continuation

module _ (enrich : Schedule → Schedule) (query : List ℤ → Query) (filter : Schedule → Bool)
    (size : ℤ) where
  -- The loop of `getFilteredSchedules`, on fuel, over windows that end at `end` at the latest. `last` is
  -- the start of the last window that was asked for.
  unfoldable pub get_filtered_loop : ℕ → ℤ → List Schedule → ℤ → ℤ → Option ℕ → ℤ → Option Found
  get_filtered_loop zero end found start stop state last = none
  get_filtered_loop (suc fuel) end found start stop state last =
      let page : Page = query (time_stamps start stop) state (sub64 size (pos (length found))) in
      let scanned = scan enrich filter size found page.rows in
      let over = is_empty_state page.next in
      let rest =
        get_filtered_loop fuel end scanned.1 (if over then stop else start)
          (if over then next_end end stop else stop) page.next start in
      if eqb_ℤ start stop
      then some (record { schedules = found; page_state = state; window_start = last })
      else if scanned.0
      then (if page.closes
          then (if full size scanned.1
              then some
                  (record { schedules = scanned.1; page_state = page.next; window_start = start })
              else rest)
          else some
              (record { schedules = scanned.1; page_state = page.next; window_start = start }))
      else some (record { schedules = scanned.1; page_state = state; window_start = last })

  -- `getFilteredSchedules`.
  unfoldable pub get_filtered_schedules : ℕ → Range → Option ℕ → ℤ → Option Found
  get_filtered_schedules fuel range state continuation =
      let start = start_of range continuation in
      get_filtered_loop fuel range.end_time [] start (next_end range.end_time start) state
        continuation

-- The statuses that `GetPaginatedSchedules` filters by; any other takes all schedules.
abbrev pub status_filter : Status → Schedule → Bool
status_filter status s =
    if text_eq status success
      || (text_eq status failure || (text_eq status miss || text_eq status scheduled))
    then text_eq s.status status
    else true

-- `GetPaginatedSchedules`.
unfoldable pub get_paginated_schedules :
    (Schedule → Schedule) → (List ℤ → Query) → ℕ → Range → ℤ → Status → Option ℕ → ℤ → Option Found
get_paginated_schedules enrich query fuel range size status state continuation =
    get_filtered_schedules enrich query (status_filter status) size fuel range state continuation
