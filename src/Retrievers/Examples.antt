-- ===== src/Retrievers/Examples.antt =====
-- The theorems on the pollers' fetching at a query of two pages.
use goscheduler.Shared.{◌≤◌, List, [], ◌≡◌, refl, arith, none, some, true, length, concat, All}
use goscheduler.Shared.Int.{pos}
use goscheduler.Store.Schedule.{Schedule}
use goscheduler.Schedules.Examples.{two_pages, runs_from, pages_from, two_pages_fine}
use goscheduler.Retrievers.Fetching.{fetch_loop, bulk_action}
use goscheduler.Schedules.Batched.{entries}
use goscheduler.Retrievers.Fetched.{fetch_loop_lem, bulk_action_lem}

fetch_loop_lem_example :
    fetch_loop (λ state. two_pages state (pos 5)) 11 10 0 none
    ≡ some (true, entries (runs_from none))
fetch_loop_lem_example =
    fetch_loop_lem two_pages runs_from pages_from 5 11 10 0 none two_pages_fine (refl, (refl, tt))
      (omega arith) (omega arith)

bulk_action_lem_example :
    (batches : List (List Schedule)) × (bulk_action
        (λ batch. true)
        (λ state. two_pages state (pos 5))
        2
        none
        []
      ≡ some (true, batches))
    × (concat batches ≡ entries (runs_from none))
    × All (λ b. length b ≤ 50) batches
bulk_action_lem_example =
    bulk_action_lem (λ batch. true) (λ batch. refl) two_pages runs_from pages_from 5 2 none []
      two_pages_fine (refl, (refl, tt)) (omega arith) (omega arith)
