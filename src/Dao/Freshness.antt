-- ===== src/Dao/Freshness.antt =====
-- The cache of apps in dao/cluster_dao_impl.go against the table of apps.
use goscheduler.Shared.{
  List, [], ◌≡◌, refl, Option, none, some, All, Option-cases, List-cases, inl, inr,
}
use goscheduler.Shared.Text.{Text}
use goscheduler.Shared.Dict.{lookup, lookup-All, All-insert}
use goscheduler.Store.App.{App}
use goscheduler.Dao.Session.{
  AppRow, Db, Dao, next_reply, Reply, served, failed, lost, not_found, Result, ok, err,
}
use goscheduler.Dao.Apps.{app_of, check, cache_app, cache_row, load_app, app_or_load, get_app}

-- A cached app is the one of the table's row.
abbrev pub Matches : List (Text × AppRow) → Text × App → Type 0
Matches rows entry =
    (row : AppRow) × (lookup entry.0 rows ≡ some row) × (entry.1 ≡ app_of entry.0 row)

abbrev pub Coherent : Dao → Type 0
Coherent d = All (Matches d.db.apps) d.cache

abbrev pub found_app : Text → Option AppRow → Result App
found_app name none = err not_found
found_app name (some row) = ok (app_of name row)

next_reply-apps : (db : Db) → (next_reply db).1.apps ≡ db.apps
next_reply-apps db = elim (List-cases db.replies) [
  | inl e ↦ rw e refl
  | inr (reply, rest, e) ↦ rw e refl
]

cache_row-Coherent :
    (name : Text) (d : Dao) → Coherent d → Coherent (cache_row name (lookup name d.db.apps) d).1
unfolding cache_row cache_app
cache_row-Coherent name d h = elim (Option-cases (lookup name d.db.apps)) [
  | inl e ↦ rw e h
  | inr (row, e) ↦
      rw e (All-insert (Matches d.db.apps) name (app_of name row) d.cache (row, e, refl) h)
]

abbrev past_reply : Dao → List Reply → Dao
past_reply d rest = record {
  cache = d.cache;
  db = record { apps = d.db.apps; entities = d.db.entities; replies = rest };
}

load_app-Coherent : (name : Text) (d : Dao) → Coherent d → Coherent (load_app name d).1
unfolding load_app
load_app-Coherent name d h = elim (List-cases d.db.replies) [
  | inl e ↦ rw e (cache_row-Coherent name (past_reply d []) h)
  | inr (served, rest, e) ↦ rw e (cache_row-Coherent name (past_reply d rest) h)
  | inr (failed, rest, e) ↦ rw e h
  | inr (lost, rest, e) ↦ rw e h
]

-- Getting an app keeps the cache in step with the table, however the queries end.
get_app-Coherent : (name : Text) (d : Dao) → Coherent d → Coherent (get_app name d).1
unfolding get_app check app_or_load
get_app-Coherent name d h = elim (Option-cases (lookup name d.cache)) [
  | inl e ↦ rw e (load_app-Coherent name d h)
  | inr (app, e) ↦ rw e h
]

-- With a cache in step and queries that are served, `GetApp` gives the app of the table's row, or
-- the error of a missing row, from the cache or not.
pub get_app_lem :
    (name : Text) (d : Dao)
    → Coherent d
    → d.db.replies ≡ []
    → (get_app name d).0 ≡ found_app name (lookup name d.db.apps)
unfolding get_app check app_or_load load_app cache_row cache_app
get_app_lem name d h r = elim (Option-cases (lookup name d.cache)) [
  | inl e ↦ elim (Option-cases (lookup name d.db.apps)) [
    | inl f ↦ rw (e, r, f) refl
    | inr (row, f) ↦ rw (e, r, f) refl
  ]
  | inr (app, e) ↦
      let (row, f, g) = lookup-All (Matches d.db.apps) name d.cache h e in rw (e, f, g) refl
]
