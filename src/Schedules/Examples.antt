-- ===== src/Schedules/Examples.antt =====
-- The theorem on the page loop at a query of two pages.
use goscheduler.Shared.{
  ℕ, ◌≤◌, ◌<◌, List, [], ◌∷◌, ◌++◌, ◌≡◌, refl, arith, Option, none, some, true, ◌⊎◌, length,
}
use goscheduler.Shared.Int.{pos}
use goscheduler.Shared.Text.{codes}
use goscheduler.Store.Schedule.{Schedule, no_schedule}
use goscheduler.Schedules.Session.{Row}
use goscheduler.Schedules.Runs.{Query, get_filtered_runs}
use goscheduler.Schedules.RunsPages.{Pages, from_next, passing, get_filtered_runs_lem}

abbrev pub first_run : Row
first_run = record { entry = record no_schedule { schedule_id = codes "run 1" }; decodes = true }

abbrev second_run : Row
second_run = record { entry = record no_schedule { schedule_id = codes "run 2" }; decodes = true }

abbrev pub two_pages : Query
two_pages none size = record { rows = first_run ∷ []; next = some 1; closes = true }
two_pages (some state) size = record { rows = second_run ∷ []; next = none; closes = true }

abbrev pub runs_from : Option ℕ → List Row
runs_from none = first_run ∷ second_run ∷ []
runs_from (some state) = second_run ∷ []

abbrev pub pages_from : Option ℕ → ℕ
pages_from none = 1
pages_from (some state) = 0

two_bounded : (state : Option ℕ) (n : ℕ) → 0 < n → length (two_pages state (pos n)).rows ≤ n
two_bounded none n h = h
two_bounded (some state) n h = h

two_complete :
    (state : Option ℕ) (n : ℕ)
    → runs_from state
      ≡ (two_pages state (pos n)).rows ++ from_next runs_from (two_pages state (pos n)).next
two_complete none n = refl
two_complete (some state) n = refl

two_closing : (state : Option ℕ) (n : ℕ) → (two_pages state (pos n)).closes ≡ true
two_closing none n = refl
two_closing (some state) n = refl

two_advances :
    (state : Option ℕ) (n k : ℕ)
    → (two_pages state (pos n)).next ≡ some k
    → pages_from (some k) < pages_from state
two_advances none n k e = omega arith
two_advances (some state) n k e = absurd cc

pub two_pages_fine : Pages two_pages runs_from pages_from
two_pages_fine = record {
  bounded = two_bounded;
  complete = two_complete;
  closing = two_closing;
  advances = two_advances;
}

get_filtered_runs_lem_example :
    (runs : List Schedule) × (next : Option ℕ) × (get_filtered_runs
        (λ s. s)
        two_pages
        2
        (λ s. true)
        (pos 5)
        []
        none
      ≡ some (runs, next))
    × (runs ++ passing (λ s. s) (λ s. true) (from_next runs_from next)
        ≡ passing (λ s. s) (λ s. true) (runs_from none))
    × (length runs ≤ 5)
    × ((length runs ≡ 5) ⊎ (next ≡ none))
get_filtered_runs_lem_example =
    get_filtered_runs_lem (λ s. s) (λ s. true) two_pages runs_from pages_from 5 2 [] none
      two_pages_fine (omega arith) (refl, (refl, tt)) (omega arith) (omega arith)
