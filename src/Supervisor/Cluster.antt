-- ===== src/Supervisor/Cluster.antt =====
-- What the supervisors of cluster/supervisor.go work on: for each node's address the ids in its
-- map of entities and its cache of apps, the database, and the network between them. An id in the
-- map stands for an entity that polls: `Init` of a poller stops the ticker of an earlier start.
use goscheduler.Shared.{
  List, [], ◌∷◌, Option, none, some, Bool, false, ◌||◌, if◌then◌else◌, ◌≡◌, refl, All, arith, true,
}
use goscheduler.Shared.Text.{Text, text_eq}
use goscheduler.Shared.Dict.{lookup, insert, text_eq_self}
use goscheduler.Store.App.{App}
use goscheduler.Dao.Session.{Db, Dao, fatal, Result, err, M}

-- How a forwarded request fares, after the retries of ringpop.
pub data Wire : Type 0 where
  delivered dropped : Wire

-- Past the end of `wires` every request is delivered.
pub record Cluster : Type 0 where
  pub running : List (Text × List Text)
  pub caches : List (Text × List (Text × App))
  pub db : Db
  pub wires : List Wire

-- The ring is ringpop's: what `Lookup` of an id and `GetReachableMembers` give at a node; `none` is
-- an error. `surfaces` says if an error of a handler is an error of the call that forwarded to it.
pub record Ring : Type 0 where
  pub owner : Text → Text → Option Text
  pub members : Text → Option (List Text)
  pub surfaces : Bool

-- `too_deep` is a chain of forwards that is longer than the model follows.
pub data Flow (A : Type 0) : Type 0 where
  returns : A → Flow A
  panics : Flow A
  exits : Flow A
  too_deep : Flow A

abbrev pub S : Type 0 → Type 0
S A = Cluster → Flow A × Cluster

abbrev pub give : {A : Type 0} → A → S A
give a c = (returns a, c)

abbrev pub panic : {A : Type 0} → S A
panic c = (panics, c)

abbrev pub proceed : {A B : Type 0} → (A → S B) → Flow A × Cluster → Flow B × Cluster
proceed f (returns a, c) = f a c
proceed f (panics, c) = (panics, c)
proceed f (exits, c) = (exits, c)
proceed f (too_deep, c) = (too_deep, c)

infixl 5 ◌>>=◌
abbrev pub ◌>>=◌ : {A B : Type 0} → S A → (A → S B) → S B
(m >>= f) c = proceed f (m c)

infixl 5 ◌>>◌
abbrev pub ◌>>◌ : {A B : Type 0} → S A → S B → S B
(m >> n) c = proceed (λ _. n) (m c)

-- `recover`: what the call has changed stays.
abbrev pub rescued : {A : Type 0} → A → Flow A × Cluster → Flow A × Cluster
rescued a (panics, c) = (returns a, c)
rescued a (returns b, c) = (returns b, c)
rescued a (exits, c) = (exits, c)
rescued a (too_deep, c) = (too_deep, c)

abbrev pub value_or {ℓ} : {A : Type ℓ} → A → Option A → A
value_or a none = a
value_or a (some b) = b

unfoldable pub member : Text → List Text → Bool
member s [] = false
member s (t ∷ ts) = text_eq t s || member s ts

pub member-All {κ} :
    (P : Text → Type κ) (ts : List Text) → ((t : Text) → member t ts ≡ true → P t) → All P ts
unfolding member
member-All P [] f = tt
member-All P (t ∷ ts) f =
    (f t (rw (text_eq_self t) refl), member-All P ts (λ s h. f s (rw h (ground arith))))

unfoldable pub leave : Text → List Text → List Text
leave s [] = []
leave s (t ∷ ts) = let rest = leave s ts in if text_eq t s then rest else t ∷ rest

abbrev pub running_at : Text → Cluster → List Text
running_at node c = value_or [] (lookup node c.running)

abbrev pub set_running : Text → List Text → Cluster → Cluster
set_running node ids c = record {
  running = insert node ids c.running;
  caches = c.caches;
  db = c.db;
  wires = c.wires;
}

abbrev pub dao_at : Text → Cluster → Dao
dao_at node c = record { cache = value_or [] (lookup node c.caches); db = c.db }

abbrev pub set_dao : Text → Dao → Cluster → Cluster
set_dao node d c = record {
  running = c.running;
  caches = insert node d.cache c.caches;
  db = d.db;
  wires = c.wires;
}

abbrev outcome : {A : Type 0} → Result A → Flow (Result A)
outcome (err fatal) = exits
outcome r = returns r

-- A call of the node's `clusterDao`.
abbrev pub on_dao : {A : Type 0} → Text → M A → S (Result A)
on_dao node m c = (outcome (m (dao_at node c)).0, set_dao node (m (dao_at node c)).1 c)
