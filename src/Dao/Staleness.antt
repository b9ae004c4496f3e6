-- ===== src/Dao/Staleness.antt =====
-- What the writes of configurations in dao/cluster_dao_impl.go leave of the cache of apps.
use goscheduler.Shared.{
  ◌≡◌, refl, Option, none, some, false, Bool-cases, Option-cases, List-cases, inl, inr,
}
use goscheduler.Shared.Text.{Text, text_eq}
use goscheduler.Shared.Dict.{lookup, lookup-insert, text_eq_sound, lookup-insert_self}
use goscheduler.Store.App.{App, Configuration, is_empty}
use goscheduler.Dao.Session.{
  AppRow, Db, Dao, Limit, served, failed, lost, Result, ok, err, M, ◌>>=◌, continue, read, write,
}
use goscheduler.Dao.Apps.{
  check, cache_app, cache_row, load_app, app_or_load, get_app, limit_passed, refuse,
  validate_configurations, validate_for, max_config_app,
}
use goscheduler.Dao.Configurations.{
  write_configuration, create_configurations, get_configuration, stored, write_merged,
  update_configuration,
}

-- The call leaves the app in the cache.
unfoldable pub Keeps : {A : Type 0} → Text → App → M A → Type 0
Keeps name app m = (d : Dao) → lookup name d.cache ≡ some app → lookup name (m d).1.cache ≡ some app

Keeps-continue :
    {A B : Type 0} (name : Text) (app : App) (f : A → M B)
    → ((a : A) → Keeps name app (f a))
    → (r : Result A × Dao) → lookup name r.1.cache ≡ some app
    → lookup name (continue f r).1.cache ≡ some app
unfolding Keeps
Keeps-continue name app f k (ok a, d) e = k a d e
Keeps-continue name app f k (err x, d) e = e

Keeps->>= :
    {A B : Type 0} (name : Text) (app : App) (m : M A) (f : A → M B)
    → Keeps name app m
    → ((a : A) → Keeps name app (f a))
    → Keeps name app (m >>= f)
unfolding Keeps
Keeps->>= name app m f h k d e = Keeps-continue name app f k (m d) (h d e)

write-Keeps : (name : Text) (app : App) (f : Db → Db) → Keeps name app (write f)
unfolding Keeps
write-Keeps name app f d e = elim (List-cases d.db.replies) [
  | inl r ↦ rw r e
  | inr (served, rest, r) ↦ rw r e
  | inr (failed, rest, r) ↦ rw r e
  | inr (lost, rest, r) ↦ rw r e
]

read-Keeps : {A : Type 0} (name : Text) (app : App) (f : Db → A) → Keeps name app (read f)
unfolding Keeps
read-Keeps name app f d e = elim (List-cases d.db.replies) [
  | inl r ↦ rw r e
  | inr (served, rest, r) ↦ rw r e
  | inr (failed, rest, r) ↦ rw r e
  | inr (lost, rest, r) ↦ rw r e
]

cache_row-Keeps :
    (other : Text) (name : Text) (app : App) (row : Option AppRow) (d : Dao)
    → text_eq other name ≡ false
    → lookup name d.cache ≡ some app
    → lookup name (cache_row other row d).1.cache ≡ some app
unfolding cache_row cache_app
cache_row-Keeps other name app none d t e = e
cache_row-Keeps other name app (some row) d t e = rw (lookup-insert, t) e

load_app-Keeps :
    (other : Text) (name : Text) (app : App) (d : Dao)
    → text_eq other name ≡ false
    → lookup name d.cache ≡ some app
    → lookup name (load_app other d).1.cache ≡ some app
unfolding load_app
load_app-Keeps other name app d t e = elim (List-cases d.db.replies) [
  | inl r ↦ rw r (cache_row-Keeps other name app _ _ t e)
  | inr (served, rest, r) ↦ rw r (cache_row-Keeps other name app _ _ t e)
  | inr (failed, rest, r) ↦ rw r e
  | inr (lost, rest, r) ↦ rw r e
]

get_app-Keeps : (other : Text) (name : Text) (app : App) → Keeps name app (get_app other)
unfolding get_app check app_or_load Keeps
get_app-Keeps other name app d e = elim (Option-cases (lookup other d.cache)) [
  | inr (found, f) ↦ rw f e
  | inl f ↦ elim (Bool-cases (text_eq other name)) [
    | inl t ↦ absurd (let s : other ≡ name = text_eq_sound other name t in cc)
    | inr t ↦ rw f (load_app-Keeps other name app d t e)
  ]
]

refuse-Keeps : (name : Text) (app : App) (l : Option Limit) → Keeps name app (refuse l)
unfolding Keeps
refuse-Keeps name app none d e = e
refuse-Keeps name app (some l) d e = e

validate_for-Keeps :
    (name : Text) (app : App) (other : Text) (c : Configuration)
    → Keeps name app (validate_for other c)
unfolding validate_for validate_configurations Keeps
validate_for-Keeps name app other c d e = elim (Bool-cases (text_eq other max_config_app)) [
  | inl t ↦ rw t e
  | inr t ↦ elim (Bool-cases (is_empty c)) [
    | inl s ↦ rw (t, s) e
    | inr s ↦
        rw (t, s)
          (Keeps->>= name app (get_app max_config_app) _ (get_app-Keeps max_config_app name app)
            (λ max. refuse-Keeps name app (limit_passed c max.configuration)) d e)
  ]
]

pub write_configuration-Keeps :
    (name : Text) (app : App) (other : Text) (c : Configuration)
    → Keeps name app (write_configuration other c)
unfolding write_configuration Keeps
write_configuration-Keeps name app other c =
    Keeps->>= name app _ _ (write-Keeps name app _) (λ _ d e. e)

stored-Keeps : (name : Text) (app : App) (row : Option AppRow) → Keeps name app (stored row)
unfolding Keeps
stored-Keeps name app none d e = e
stored-Keeps name app (some row) d e = elim (Option-cases row.configuration) [
  | inl f ↦ rw f e
  | inr (c, f) ↦ rw f e
]

write_merged-Keeps :
    (name : Text) (app : App) (other : Text) (c : Option Configuration)
    → Keeps name app (write_merged other c)
unfolding write_merged Keeps
write_merged-Keeps name app other none d e = e
write_merged-Keeps name app other (some c) d e = write_configuration-Keeps name app other c d e

pub update_configuration-Keeps :
    (merge : Configuration → Configuration → Option Configuration) (name : Text) (app : App)
    (other : Text) (c : Configuration)
    → Keeps name app (update_configuration merge other c)
unfolding update_configuration get_configuration
update_configuration-Keeps merge name app other c =
    Keeps->>= name app _ _ (validate_for-Keeps name app other c) (λ _.
      Keeps->>= name app _ _
        (Keeps->>= name app _ _ (read-Keeps name app _) (stored-Keeps name app))
        (λ existing. write_merged-Keeps name app other (merge c existing)))

pub create_configurations-Keeps :
    (name : Text) (app : App) (other : Text) (c : Configuration)
    → Keeps name app (create_configurations other c)
unfolding create_configurations
create_configurations-Keeps name app other c =
    Keeps->>= name app _ _ (validate_for-Keeps name app other c)
      (λ _. write_configuration-Keeps name app other c)

pub get_app-kept :
    (name : Text) (app : App) (d : Dao)
    → lookup name d.cache ≡ some app
    → (get_app name d).0 ≡ ok app
unfolding get_app check app_or_load
get_app-kept name app d e = rw e refl

cache_row-caches :
    (name : Text) (app : App) (row : Option AppRow) (d : Dao)
    → (cache_row name row d).0 ≡ ok app
    → lookup name (cache_row name row d).1.cache ≡ some app
unfolding cache_row cache_app
cache_row-caches name app none d h = absurd cc
cache_row-caches name app (some row) d h = rw lookup-insert_self cc

continue-caches :
    (name : Text) (app : App) (r : Result (Option AppRow) × Dao)
    → (continue (cache_row name) r).0 ≡ ok app
    → lookup name (continue (cache_row name) r).1.cache ≡ some app
continue-caches name app (ok row, d) h = cache_row-caches name app row d h
continue-caches name app (err e, d) h = absurd cc

app_or_load-caches :
    (name : Text) (app : App) (found : Option App) (d : Dao)
    → lookup name d.cache ≡ found
    → (app_or_load name found d).0 ≡ ok app
    → lookup name (app_or_load name found d).1.cache ≡ some app
unfolding app_or_load load_app
app_or_load-caches name app (some found) d e h = cc
app_or_load-caches name app none d e h =
    continue-caches name app (read (λ db. lookup name db.apps) d) h

-- The app that `GetApp` gives is in the cache behind it.
pub get_app-caches :
    (name : Text) (app : App) (d : Dao)
    → (get_app name d).0 ≡ ok app
    → lookup name (get_app name d).1.cache ≡ some app
unfolding get_app check
get_app-caches name app d h = app_or_load-caches name app (lookup name d.cache) d refl h
