-- ===== src/Schedules/Listing.antt =====
-- dao/schedule_dao_impl.go: what a call of `getFilteredSchedules` lists, and what becomes of a range
-- whose first hour has exactly as many schedules as asked for.
use goscheduler.Shared.{
  ap, ◌*◌, ltb, ◌∙◌, ℕ, zero, suc, ◌+◌, ◌-◌, ◌^◌, ◌≤◌, ◌<◌, List, [], ◌++◌, ◌≡◌, refl, arith,
  Option, none, some, Bool, true, false, Bool-cases, inl, inr, ◌⊎◌, length, All,
}
use goscheduler.Shared.Int.{ℤ, pos, sub64, sub64_pos, eqb_ℤ, add64_pos}
use goscheduler.Store.Schedule.{Schedule}
use goscheduler.Schedules.Session.{Row}
use goscheduler.Schedules.Runs.{Page, Query, full}
use goscheduler.Schedules.RunsPages.{Pages, Decodes, passing, scan_lem}
use goscheduler.Schedules.Windows.{
  start_of, Range, Found, next_end, get_filtered_loop, get_filtered_schedules,
}
use goscheduler.Schedules.Resuming.{Left, Unread-Left}
use goscheduler.Schedules.Hours.{windows, Ends, window, rows_from, work_from, hours_loop}

module _ (end : ℕ) (fits : end + 3600 < 2 ^ 63) where
  next_inside :
      (start : ℕ) → start + 3600 ≤ end → next_end (pos end) (pos start) ≡ pos (start + 3600)
  unfolding next_end
  next_inside start low =
      rw (sub64_pos end start (omega arith) (omega arith), add64_pos start 3600 (omega arith))
        (let long : ltb (end - start + 0) (3600 + 0) ≡ false = ground arith in rw long refl)

  next_last :
      (start : ℕ) → start ≤ end → end < start + 3600 → next_end (pos end) (pos start) ≡ pos end
  unfolding next_end
  next_last start low high =
      rw (sub64_pos end start low (omega arith))
        (let short : ltb (end - start + 0) (3600 + 0) ≡ true = ground arith in rw short refl)

  -- How many windows a range has.
  Ends_lem :
      (k start : ℕ)
      → 0 < start
      → start ≤ end
      → end ≤ start + 3600 * k
      → start + 3600 * k < end + 3600
      → Ends (pos end) k (pos start)
  Ends_lem zero start above low most least = rw (next_last start low (omega arith)) (ground arith)
  Ends_lem (suc k) start above low most least = elim (Bool-cases (ltb end (start + 3600))) [
    | inl y ↦
        let near : end < start + 3600 = ground arith in
        rw (next_last start low near) (
          ground arith,
          ground arith,
          Ends_lem k end (omega arith) (omega arith) (omega arith) (omega arith),
        )
    | inr z ↦ rw (next_inside start (ground arith)) (
      ground arith,
      ground arith,
      Ends_lem k (start + 3600) (omega arith) (ground arith) (omega arith) (omega arith),
    )
  ]

-- For a range of seconds above 0, that begins before its end and ends at least an hour before 2 ^ 63,
-- with pages as the driver documents for the query of each window, rows that decode, and a positive
-- size below 2 ^ 63: a listing that begins at the range's start, or at the start that is continued
-- from, and with the page state given for its first window, returns within fuel above the pages and
-- the windows. The schedules that it gives, followed by those of the rows that are left, are those
-- from the page state of the first window on, to the end of the range, that pass the filter, enriched,
-- in the order of the windows. It gives at most as many as asked for, and fewer only if no row is left.
-- If it returns a page state, the next call of the same range, with this page state and the start
-- that was returned, returns with some fuel and does the same from the rows that are left. If it
-- returns none, the rows that are left are those of the windows behind the start that was returned;
-- of the next call nothing is said then.
pub get_filtered_schedules_lem :
    (enrich : Schedule → Schedule) (filter : Schedule → Bool) (query : List ℤ → Query)
    (remaining : List ℤ → Option ℕ → List Row) (rank : List ℤ → Option ℕ → ℕ) (n start end fuel : ℕ)
    (range : Range) (state : Option ℕ) (continuation : ℤ)
    → ((times : List ℤ) → Pages (query times) (remaining times) (rank times))
    → 0 < n
    → n < 2 ^ 63
    → 0 < start
    → start < end
    → end + 3600 < 2 ^ 63
    → range.end_time ≡ pos end
    → start_of range continuation ≡ pos start
    → All Decodes (rows_from (pos end) remaining state (windows start end) (pos start))
    → work_from (pos end) rank state (windows start end) (pos start) < fuel
    → (found : Found) × (rest : List Row) × (get_filtered_schedules enrich query filter
          (pos n)
          fuel
          range
          state
          continuation
        ≡ some found)
      × (found.schedules ++ passing enrich filter rest
          ≡ passing enrich filter
              (rows_from (pos end) remaining state (windows start end) (pos start)))
      × (length found.schedules ≤ n)
      × ((length found.schedules ≡ n) ⊎ (rest ≡ []))
      × Left enrich filter query remaining n end range found rest
unfolding get_filtered_schedules
get_filtered_schedules_lem enrich filter query remaining rank n start end fuel range state
      continuation pages some_ small above low fits same_end same_start h r =
    let k : ℕ = windows start end in
    let ends : Ends (pos end) (suc k) (pos start) =
      Ends_lem end fits (suc k) start above (omega arith) (omega arith) (omega arith) in
    let (found, rest, given, unread, same, few, all) =
      hours_loop (pos end) remaining rank enrich filter query n pages small fuel k [] (pos start)
        state continuation ends h some_ r in
    (
      found,
      rest,
      rw (same_end, same_start) given,
      same,
      few,
      all,
      Unread-Left enrich filter query remaining n end range rank found rest pages some_ small
          same_end unread,
    )

-- A window whose only page fills the size ends the loop, whether its query closes without an error or not.
filled :
    (enrich : Schedule → Schedule) (filter : Schedule → Bool) (query : List ℤ → Query) (n fuel : ℕ)
    (end start last : ℤ)
    → 0 < n
    → n < 2 ^ 63
    → eqb_ℤ start (next_end end start) ≡ false
    → All Decodes (query (window end start) none (pos n)).rows
    → (query (window end start) none (pos n)).next ≡ none
    → length (query (window end start) none (pos n)).rows ≤ n
    → length (passing enrich filter (query (window end start) none (pos n)).rows) ≡ n
    → get_filtered_loop enrich query filter
        (pos n)
        (suc fuel)
        end
        []
        start
        (next_end end start)
        none
        last
      ≡ some (record {
        schedules = passing enrich filter (query (window end start) none (pos n)).rows;
        page_state = none;
        window_start = start;
      })
unfolding get_filtered_loop
filled enrich filter query n fuel end start last some_ small differ h last_page few exact =
    let page : Page = query (window end start) none (pos n) in
    let size : sub64 (pos n) (pos 0) ≡ pos n =
      sub64_pos n 0 (omega arith) small ∙ ap pos (omega arith) in
    let scanned = scan_lem enrich filter n [] page.rows h (omega arith) in
    let done : full (pos n) (passing enrich filter page.rows) ≡ true = ground arith in
    elim (Bool-cases page.closes) [
      | inl y ↦ rw (differ, size, scanned, done, last_page, y) refl
      | inr z ↦ rw (differ, size, scanned, done, last_page, z) refl
    ]

-- The first window of the range is read in one page that has as many schedules that pass as are asked
-- for; the range begins after 0 and before its end, which is at least an hour before 2 ^ 63, and the
-- rows of the page decode and are at most as many as asked for. Then the call gives these schedules,
-- an empty page state and the start of the range; and the call with the page state and the start that
-- it gave gives the very same again, whatever lies in the rest of the range.
pub get_filtered_schedules-again :
    (enrich : Schedule → Schedule) (filter : Schedule → Bool) (query : List ℤ → Query)
    (n start end fuel : ℕ) (range : Range)
    → 0 < n
    → n < 2 ^ 63
    → 0 < start
    → start < end
    → end + 3600 < 2 ^ 63
    → range.start_time ≡ pos start
    → range.end_time ≡ pos end
    → All Decodes (query (window (pos end) (pos start)) none (pos n)).rows
    → (query (window (pos end) (pos start)) none (pos n)).next ≡ none
    → length (query (window (pos end) (pos start)) none (pos n)).rows ≤ n
    → length (passing enrich filter (query (window (pos end) (pos start)) none (pos n)).rows) ≡ n
    → (found : Found) × (get_filtered_schedules enrich query filter
          (pos n)
          (suc fuel)
          range
          none
          (pos 0)
        ≡ some found)
      × (get_filtered_schedules enrich query filter
            (pos n)
            (suc fuel)
            range
            found.page_state
            found.window_start
          ≡ some found)
      × (found.schedules
          ≡ passing enrich filter (query (window (pos end) (pos start)) none (pos n)).rows)
unfolding get_filtered_schedules
get_filtered_schedules-again enrich filter query n start end fuel range some_ small late low fits
      same_start same_end h last_page few exact =
    let (differ, later_start, ends) =
      Ends_lem end fits (suc (windows start end)) start late (omega arith) (omega arith)
        (omega arith) in
    let once = λ (last : ℤ).
      filled enrich filter query n fuel (pos end) (pos start) last some_ small differ h last_page
        few exact in
    (
      record {
        schedules = passing enrich filter (query (window (pos end) (pos start)) none (pos n)).rows;
        page_state = none;
        window_start = pos start;
      },
      rw (same_end, same_start) (once (pos 0)),
      rw (same_end, later_start) (once (pos start)),
      refl,
    )
