-- ===== src/Entity/Examples.antt =====
-- The theorems on the ids of entities at concrete names.
use goscheduler.Shared.{ℕ, suc, ◌+◌, ◌*◌, ◌⊎◌, Has, ◌∷◌, ◌++◌, ◌≡◌, refl, arith, some, none}
use goscheduler.Shared.Int.{pos}
use goscheduler.Shared.Text.{codes, Lacks, parse_int}
use goscheduler.Entity.{entity_id, get_app_name, partition_text, create_entity}
use goscheduler.Entity.Polling.{
  start_poller, fetch_and_retry_schedule, start_poller-fetch_and_retry_schedule,
}
use goscheduler.Entity.Naming.{get_app_name-entity_id, create_entity_dotted}

shop-Lacks : Lacks b'.' (codes "shop")
shop-Lacks = ground arith

no_number : parse_int (codes "shop") ≡ none
unfolding parse_int
no_number = refl

get_app_name-entity_id_example :
    (get_app_name (entity_id (codes "my.shop") 12) ≡ some (codes "my.shop"))
    × (parse_int (partition_text (entity_id (codes "my.shop") 12)) ≡ some (pos 12))
get_app_name-entity_id_example = get_app_name-entity_id (codes "my.shop") 12 (omega arith)

create_entity_dotted_example :
    (create_entity (entity_id (codes "my" ++ b'.' ∷ codes "shop") 12) ≡ none)
    × (get_app_name (entity_id (codes "my" ++ b'.' ∷ codes "shop") 12)
        ≡ some (codes "my" ++ b'.' ∷ codes "shop"))
create_entity_dotted_example =
    create_entity_dotted (codes "my") (codes "shop") 12 (ground arith) shop-Lacks no_number

abbrev each_minute : ℕ → ℕ
each_minute i = 245 + 60 * suc i

start_poller-fetch_and_retry_schedule_example :
    Has (pos 360) (start_poller each_minute 3)
    ⊎ Has (pos 360) (fetch_and_retry_schedule 250 (pos 3))
start_poller-fetch_and_retry_schedule_example =
    start_poller-fetch_and_retry_schedule each_minute 60 245 250 3 3 360 (λ i. refl) (omega arith)
      (omega arith) (omega arith) (omega arith) (omega arith) (omega arith) (omega arith)
