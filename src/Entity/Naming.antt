-- ===== src/Entity/Naming.antt =====
-- What the id of an entity says, to the two places that take it apart.
use goscheduler.Shared.{ℕ, ◌^◌, ◌<◌, [], ◌∷◌, ◌++◌, append_assoc, ◌≡◌, refl, arith, none, some}
use goscheduler.Shared.Int.{pos}
use goscheduler.Shared.Text.{Text, Lacks, itoa, parse_int}
use goscheduler.Shared.Text.Split.{split-append, split_single}
use goscheduler.Shared.Text.Decimal.{parse_int-itoa}
use goscheduler.Cron.StepText.{itoa-Lacks}
use goscheduler.Entity.{
  split_last, entity_id, get_app_name, partition_text, poller_of_parts, create_entity,
}

split_last-none : (sep : ℕ) (s : Text) → Lacks sep s → split_last sep s ≡ none
unfolding split_last
split_last-none sep [] h = refl
split_last-none sep (c ∷ s) h = ground (arith, split_last-none sep s h.1)

split_last-append :
    (sep : ℕ) (p s : Text) → Lacks sep s → split_last sep (p ++ sep ∷ s) ≡ some (p, s)
unfolding split_last
split_last-append sep [] s h = ground (arith, split_last-none sep s h)
split_last-append sep (c ∷ p) s h = ground (arith, split_last-append sep p s h)

-- The app's name and the partition's number are read back from an entity's id, also if the name
-- holds dots.
pub get_app_name-entity_id :
    (app : Text) (partition : ℕ)
    → partition < 2 ^ 63
    → (get_app_name (entity_id app partition) ≡ some app)
      × (parse_int (partition_text (entity_id app partition)) ≡ some (pos partition))
unfolding get_app_name partition_text
get_app_name-entity_id app n h =
    let parts = split_last-append b'.' app (itoa n) (itoa-Lacks b'.' n (omega arith)) in
    (rw (parts, get_app_name), rw (parts, partition_text) (parse_int-itoa n h))

-- The factory reads the same from the id of an app whose name holds no dot.
pub create_entity-entity_id :
    (app : Text) (partition : ℕ)
    → Lacks b'.' app
    → partition < 2 ^ 63
    → create_entity (entity_id app partition) ≡ some (app, pos partition)
unfolding create_entity
create_entity-entity_id app n h k = rw (
  split-append b'.' app (itoa n) h,
  split_single b'.' (itoa n) (itoa-Lacks b'.' n (omega arith)),
  poller_of_parts,
  parse_int-itoa n k,
)

-- For an app whose name has a dot, the factory takes the text between the first two dots for the
-- partition, and panics if that is no number; `GetAppName` still gives the whole name.
pub create_entity_dotted :
    (a b : Text) (partition : ℕ)
    → Lacks b'.' a
    → Lacks b'.' b
    → parse_int b ≡ none
    → (create_entity (entity_id (a ++ b'.' ∷ b) partition) ≡ none)
      × (get_app_name (entity_id (a ++ b'.' ∷ b) partition) ≡ some (a ++ b'.' ∷ b))
unfolding create_entity get_app_name
create_entity_dotted a b n ha hb e = (
  rw (
    append_assoc,
    split-append b'.' a (b ++ b'.' ∷ itoa n) ha,
    split-append b'.' b (itoa n) hb,
    poller_of_parts,
    e,
  ),
  rw (
    split_last-append b'.' (a ++ b'.' ∷ b) (itoa n) (itoa-Lacks b'.' n (omega arith)),
    get_app_name,
  ),
)
