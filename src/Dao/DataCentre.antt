-- ===== src/Dao/DataCentre.antt =====
-- `GetDCAwareApp` of dao/cluster_dao_impl.go and the key under which it caches.
use goscheduler.Shared.{
  List, ◌∷◌, ◌++◌, ◌≡◌, refl, arith, none, some, false, length, length-append, ◌<◌, ◌+◌, suc, ap,
}
use goscheduler.Shared.Text.{Text, text_eq}
use goscheduler.Shared.Dict.{lookup, lookup-insert, text_eq_ne, lookup-insert_self}
use goscheduler.Dao.Session.{AppRow, Dao, Conf, Reply, served, failed, err, query_failed}
use goscheduler.Dao.Apps.{
  app_of, check, cache_app, get_dc_aware_app, dc_app_or_load, load_dc_aware_app, rows_of,
  choose_row,
}

shorter-text_eq : (s t : Text) → length t < length s → text_eq s t ≡ false
shorter-text_eq s t h =
    text_eq_ne s t (λ e. let f : length s ≡ length t = ap length e in omega arith)

-- A call of `GetDCAwareApp` that finds the app of the data centre in the table caches it, and the
-- next call does not find it in the cache: when that call's query fails, so does the call.
pub get_dc_aware_app_again :
    (conf : Conf) (name : Text) (d : Dao) (row : AppRow) (rest : List Reply)
    → lookup (conf.prefix ++ name) d.cache ≡ none
    → lookup name d.cache ≡ none
    → lookup (conf.prefix ++ b'_' ∷ name) d.db.apps ≡ some row
    → d.db.replies ≡ served ∷ failed ∷ rest
    → let d1 : Dao = (get_dc_aware_app conf name d).1 in
      (lookup (conf.prefix ++ b'_' ∷ name) d1.cache
        ≡ some (app_of (conf.prefix ++ b'_' ∷ name) row))
      × ((get_dc_aware_app conf name d1).0 ≡ err query_failed)
unfolding get_dc_aware_app dc_app_or_load check load_dc_aware_app rows_of choose_row cache_app
get_dc_aware_app_again conf name d row rest p q r s =
    let longer : length (conf.prefix ++ b'_' ∷ name) ≡ length conf.prefix + suc (length name) =
      length-append conf.prefix _ in
    let plain : length (conf.prefix ++ name) ≡ length conf.prefix + length name =
      length-append conf.prefix name in
    let t : text_eq (conf.prefix ++ b'_' ∷ name) (conf.prefix ++ name) ≡ false =
      shorter-text_eq (conf.prefix ++ b'_' ∷ name) (conf.prefix ++ name) (omega arith) in
    let u : text_eq (conf.prefix ++ b'_' ∷ name) name ≡ false =
      shorter-text_eq (conf.prefix ++ b'_' ∷ name) name (omega arith) in
    (
      rw (p, q, s, r, lookup-insert_self) refl,
      rw (p, q, s, r, lookup-insert, t, p, lookup-insert, u, q) refl,
    )
