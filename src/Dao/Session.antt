-- ===== src/Dao/Session.antt =====
-- What dao/cluster_dao_impl.go works on. The database session is the driver's: the model has the
-- two tables, and a list that says how each coming query ends. A write is Cassandra's: it sets the
-- named columns and makes the row if there is none. A query's text is built by formatting; the
-- model takes names and values without quotes in them.
use goscheduler.Shared.{ℕ, List, [], ◌∷◌, Option, Bool}
use goscheduler.Shared.Text.{Text}
use goscheduler.Store.App.{App, Configuration}

-- `configuration` is the stored JSON text as it decodes: `none` if it does not.
pub record AppRow : Type 0 where
  pub partitions : ℕ
  pub active : Bool
  pub configuration : Option Configuration

pub record EntityRow : Type 0 where
  pub node : Text
  pub status : ℕ
  pub history : Text

-- How a query ends: `lost` is a write that is done and yet reported as failed.
pub data Reply : Type 0 where
  served failed lost : Reply

-- Past the end of `replies` every query is served.
pub record Db : Type 0 where
  pub apps : List (Text × AppRow)
  pub entities : List (Text × EntityRow)
  pub replies : List Reply

-- One process's `ClusterDaoImplCassandra`: its `AppMap` and the session.
pub record Dao : Type 0 where
  pub cache : List (Text × App)
  pub db : Db

-- The fields of `conf.Configuration` that are read here; `history_size` is not negative.
pub record Conf : Type 0 where
  pub address : Text
  pub prefix : Text
  pub history_size : ℕ
  pub cron_app : Text
  pub default_count : ℕ
  pub app_level : Configuration

-- The five tests of `ValidateConfigurations`.
pub data Limit : Type 0 where
  payload_limit retries_limit timeout_limit retention_limit creation_limit : Limit

-- `fatal` is `glog.Fatal`, which ends the process.
pub data Error : Type 0 where
  not_found query_failed no_json no_merge fatal : Error
  exceeds : Limit → Error

pub data Result {ℓ} (Value : Type ℓ) : Type ℓ where
  ok : Value → Result Value
  err : Error → Result Value

abbrev pub M : Type 0 → Type 0
M A = Dao → Result A × Dao

abbrev pub pure : {A : Type 0} → A → M A
pure a d = (ok a, d)

abbrev pub fail : {A : Type 0} → Error → M A
fail e d = (err e, d)

abbrev pub continue : {A B : Type 0} → (A → M B) → Result A × Dao → Result B × Dao
continue f (ok a, d) = f a d
continue f (err e, d) = (err e, d)

infixl 5 ◌>>=◌
abbrev pub ◌>>=◌ : {A B : Type 0} → M A → (A → M B) → M B
(m >>= f) d = continue f (m d)

infixl 5 ◌>>◌
abbrev pub ◌>>◌ : {A B : Type 0} → M A → M B → M B
(m >> n) d = continue (λ _. n) (m d)

-- What became of a call, kept as a value: `if err := …; err != nil`.
abbrev pub attempt : {A : Type 0} → M A → M (Result A)
attempt m d = (ok (m d).0, (m d).1)

abbrev pub next_reply : Db → Reply × Db
next_reply db = elim db.replies [
  | [] ↦ (served, db)
  | reply ∷ rest ↦ (reply, record { apps = db.apps; entities = db.entities; replies = rest })
]

abbrev reply_read : {A : Type 0} → (Db → A) → List (Text × App) → Reply × Db → Result A × Dao
reply_read f m (served, db) = (ok (f db), record { cache = m; db = db })
reply_read f m (failed, db) = (err query_failed, record { cache = m; db = db })
reply_read f m (lost, db) = (err query_failed, record { cache = m; db = db })

-- A read sees the tables or fails.
abbrev pub read : {A : Type 0} → (Db → A) → M A
read f d = reply_read f d.cache (next_reply d.db)

abbrev reply_write : (Db → Db) → List (Text × App) → Reply × Db → Result (Unit {0}) × Dao
reply_write f m (served, db) = (ok tt, record { cache = m; db = f db })
reply_write f m (failed, db) = (err query_failed, record { cache = m; db = db })
reply_write f m (lost, db) = (err query_failed, record { cache = m; db = f db })

abbrev pub write : (Db → Db) → M (Unit {0})
write f d = reply_write f d.cache (next_reply d.db)

abbrev pub get_cache : M (List (Text × App))
get_cache d = (ok d.cache, d)

abbrev pub set_cache : List (Text × App) → M (Unit {0})
set_cache m d = (ok tt, record { cache = m; db = d.db })

abbrev pub set_apps : (List (Text × AppRow) → List (Text × AppRow)) → Db → Db
set_apps f db = record { apps = f db.apps; entities = db.entities; replies = db.replies }

abbrev pub set_entities : (List (Text × EntityRow) → List (Text × EntityRow)) → Db → Db
set_entities f db = record { apps = db.apps; entities = f db.entities; replies = db.replies }
