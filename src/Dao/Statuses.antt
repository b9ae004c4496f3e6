-- ===== src/Dao/Statuses.antt =====
-- `UpdateEntityStatus` of dao/cluster_dao_impl.go on the table of entities.
use goscheduler.Shared.{
  if◌then◌else◌, ℕ, zero, suc, ◌-◌, ◌≤◌, List, [], ◌∷◌, ◌++◌, ◌≡◌, refl, ap, ◌∙◌, arith, none, some,
  Option, length, drop, List-cases, Bool-cases, false, ltb, ◌&&◌, ◌⊎◌, All, inl, inr,
}
use goscheduler.Shared.Text.{Text, codes, text_eq, itoa}
use goscheduler.Shared.Dict.{lookup, lookup-insert, lookup-insert_self, insert, All-insert}
use goscheduler.Entity.{EntityInfo}
use goscheduler.Dao.Session.{
  EntityRow, Db, Dao, Conf, Reply, served, failed, lost, Result, ok, write, read, set_entities,
}
use goscheduler.Dao.Entities.{
  get_entity_info, longer_history, last_part, update_entity_status, info_or_none,
}

length-drop : {A : Type 0} (n : ℕ) (xs : List A) → length (drop n xs) ≡ length xs - n
length-drop zero xs = omega arith
length-drop (suc n) [] = omega arith
length-drop (suc n) (x ∷ xs) = ground (arith, length-drop n xs)

last_part-length : (size : ℕ) (s : Text) → length (last_part size s) ≤ size
unfolding last_part
last_part-length size s = ground (arith, length-drop (length s - size) s)

drop-parts : {A : Type 0} (n : ℕ) (xs : List A) → (cut : List A) × (cut ++ drop n xs ≡ xs)
drop-parts zero xs = ([], refl)
drop-parts (suc n) [] = ([], refl)
drop-parts (suc n) (x ∷ xs) = let (cut, whole) = drop-parts n xs in (x ∷ cut, ap (x ∷◌) whole)

-- What is cut off, followed by the last part.
last_part-parts :
    (size : ℕ) (s : Text)
    → (cut : Text) × (cut ++ last_part size s ≡ s)
      × ((cut ≡ []) ⊎ (length (last_part size s) ≡ size))
unfolding last_part
last_part-parts size s = elim (Bool-cases (ltb size (length s))) [
  | inl y ↦
      let (cut, whole) = drop-parts (length s - size) s in
      (cut, rw y whole, inr (rw y (ground (arith, length-drop (length s - size) s))))
  | inr z ↦ ([], rw z refl, inl refl)
]

-- The history that an entity has after its row is left: nothing without a row, else that of the row
-- and `->{node:status}`. A row without a history and a node counts as none.
abbrev pub whole_history : Option EntityRow → Text
whole_history none = []
whole_history (some row) =
    if text_eq row.history [] && text_eq row.node []
    then []
    else row.history ++ codes "->{" ++ row.node ++ b':' ∷ itoa row.status ++ codes "}"

longer_history-whole :
    (id : Text) (row : Option EntityRow)
    → longer_history (info_or_none id (ok row)) ≡ whole_history row
unfolding longer_history
longer_history-whole id none = refl
longer_history-whole id (some row) = refl

abbrev pub new_row : Conf → Text → ℕ → EntityInfo → EntityRow
new_row conf node status old = record {
  node = node;
  status = status;
  history = last_part conf.history_size (longer_history old);
}

-- When its two queries are served, `UpdateEntityStatus` succeeds. The entity's row then has the node
-- and the status given; its history is the end of the whole one, which is the old row's history with
-- `->{node:status}` of the old row behind it, or empty without an old row. It is no longer than the
-- history's size, and exactly as long if anything was cut off. Every other row is as before, and so
-- are the apps and the cache.
pub update_entity_status_lem :
    (conf : Conf) (id node : Text) (status : ℕ) (other : Text) (d : Dao)
    → d.db.replies ≡ []
    → text_eq id other ≡ false
    → (row : EntityRow) × (cut : Text) × ((update_entity_status conf id node status d).0 ≡ ok tt)
      × (lookup id (update_entity_status conf id node status d).1.db.entities ≡ some row)
      × (row.node ≡ node)
      × (row.status ≡ status)
      × (cut ++ row.history ≡ whole_history (lookup id d.db.entities))
      × (length row.history ≤ conf.history_size)
      × ((cut ≡ []) ⊎ (length row.history ≡ conf.history_size))
      × (lookup other (update_entity_status conf id node status d).1.db.entities
          ≡ lookup other d.db.entities)
      × ((update_entity_status conf id node status d).1.db.apps ≡ d.db.apps)
      × ((update_entity_status conf id node status d).1.cache ≡ d.cache)
unfolding update_entity_status get_entity_info
update_entity_status_lem conf id node status other d r differ =
    let old = info_or_none id (ok (lookup id d.db.entities)) in
    let (cut, whole, full) = last_part-parts conf.history_size (longer_history old) in
    (
      new_row conf node status old,
      cut,
      rw r refl,
      rw (r, lookup-insert_self) refl,
      refl,
      refl,
      whole ∙ longer_history-whole id (lookup id d.db.entities),
      last_part-length conf.history_size (longer_history old),
      full,
      rw (r, lookup-insert, differ) refl,
      rw r refl,
      rw r refl,
    )

abbrev pub ShortHistory : ℕ → Text × EntityRow → Type 0
ShortHistory size entry = length entry.1.history ≤ size

write-ShortHistory :
    (conf : Conf) (id node : Text) (status : ℕ) (old : EntityInfo) (d : Dao)
    → All (ShortHistory conf.history_size) d.db.entities
    → All
        (ShortHistory conf.history_size)
        (write (set_entities (insert id (new_row conf node status old))) d).1.db.entities
write-ShortHistory conf id node status old d h =
    let short : All (ShortHistory conf.history_size)
        (insert id (new_row conf node status old) d.db.entities) =
      All-insert (ShortHistory conf.history_size) id (new_row conf node status old) d.db.entities
        (last_part-length conf.history_size (longer_history old)) h in
    elim (List-cases d.db.replies) [
      | inl r ↦ rw r short
      | inr (served, rest, r) ↦ rw r short
      | inr (failed, rest, r) ↦ rw r h
      | inr (lost, rest, r) ↦ rw r short
    ]

read-entities : {A : Type 0} (f : Db → A) (d : Dao) → (read f d).1.db.entities ≡ d.db.entities
read-entities f d = elim (List-cases d.db.replies) [
  | inl r ↦ rw r refl
  | inr (served, rest, r) ↦ rw r refl
  | inr (failed, rest, r) ↦ rw r refl
  | inr (lost, rest, r) ↦ rw r refl
]

-- When all histories are within the history's size they still are after `UpdateEntityStatus`,
-- however its queries end.
update_entity_status-ShortHistory :
    (conf : Conf) (id node : Text) (status : ℕ) (d : Dao)
    → All (ShortHistory conf.history_size) d.db.entities
    → All
        (ShortHistory conf.history_size)
        (update_entity_status conf id node status d).1.db.entities
unfolding update_entity_status get_entity_info
update_entity_status-ShortHistory conf id node status d h =
    let row : Result (Option EntityRow) × Dao = read (λ db. lookup id db.entities) d in
    write-ShortHistory conf id node status (info_or_none id row.0) row.1
      (rw (read-entities (λ db. lookup id db.entities) d) h)

-- When the first query of `UpdateEntityStatus` fails and the second is served, the call succeeds
-- and the entity's history is gone.
pub update_entity_status_forgets :
    (conf : Conf) (id node : Text) (status : ℕ) (d : Dao) (rest : List Reply)
    → d.db.replies ≡ failed ∷ served ∷ rest
    → let after : Result (Unit {0}) × Dao = update_entity_status conf id node status d in
      (after.0 ≡ ok tt)
      × (lookup id after.1.db.entities
          ≡ some (record { node = node; status = status; history = [] }))
unfolding update_entity_status get_entity_info last_part longer_history
update_entity_status_forgets conf id node status d rest r =
    (rw r refl, rw (r, lookup-insert_self) (ground arith))
