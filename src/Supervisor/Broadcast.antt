-- ===== src/Supervisor/Broadcast.antt =====
-- What `appDetailsUpdateBroadcast` of cluster/supervisor.go brings about when the network works.
use goscheduler.Shared.{
  ℕ, suc, List, [], ◌∷◌, ◌≡◌, refl, arith, none, true, Bool-cases, Option-cases, inl, inr,
}
use goscheduler.Shared.Text.{Text, text_eq}
use goscheduler.Shared.Dict.{
  lookup, insert, remove, lookup-insert, lookup-remove, text_eq_self, text_eq_sound,
}
use goscheduler.Store.App.{App}
use goscheduler.Dao.Session.{Conf}
use goscheduler.Dao.Apps.{invalidate_single_app_cache}
use goscheduler.Supervisor.Cluster.{Cluster, Ring, returns, member, value_or}
use goscheduler.Supervisor.Entities.{
  update_method, update_loop, run_method, forward_or_panic, next_wire, serve, send,
}
use goscheduler.Supervisor.Apps.{app_details_update, broadcast_to, broadcast}

abbrev pub cache_at : Text → Cluster → List (Text × App)
cache_at node c = value_or [] (lookup node c.caches)

-- A node drops an app from its cache.
abbrev pub told : Text → Text → Cluster → Cluster
told name node c = record {
  running = c.running;
  caches = insert node (remove name (cache_at node c)) c.caches;
  db = c.db;
  wires = c.wires;
}

unfoldable pub told_all : Text → List Text → Cluster → Cluster
told_all name [] c = c
told_all name (node ∷ nodes) c = told_all name nodes (told name node c)

send-told :
    (ring : Ring) (conf : Conf) (n : ℕ) (node name : Text) (c : Cluster)
    → c.wires ≡ []
    → send ring conf (suc n) update_method node (name ∷ []) c ≡ (returns tt, told name node c)
unfolding send forward_or_panic next_wire serve run_method update_loop invalidate_single_app_cache
send-told ring conf n node name c h = rw h refl

pub broadcast_to_lem :
    (ring : Ring) (conf : Conf) (n : ℕ) (at name : Text) (nodes : List Text) (c : Cluster)
    → c.wires ≡ []
    → broadcast_to ring conf (suc n) at name nodes c ≡ (returns tt, told_all name nodes c)
unfolding broadcast_to told_all app_details_update invalidate_single_app_cache
broadcast_to_lem ring conf n at name [] c h = refl
broadcast_to_lem ring conf n at name (node ∷ nodes) c h = elim (Bool-cases (text_eq node at)) [
  | inl t ↦
      let same : node ≡ at = text_eq_sound node at t in
      rw (t, same) (broadcast_to_lem ring conf n at name nodes (told name at c) h)
  | inr t ↦
      rw (t, send-told ring conf n node name c h)
        (broadcast_to_lem ring conf n at name nodes (told name node c) h)
]

-- Telling the nodes changes nothing but caches.
pub told_all-rest :
    (name : Text) (nodes : List Text) (c : Cluster)
    → ((told_all name nodes c).running ≡ c.running) × ((told_all name nodes c).db ≡ c.db)
unfolding told_all
told_all-rest name [] c = (refl, refl)
told_all-rest name (node ∷ nodes) c = told_all-rest name nodes (told name node c)

told_all-kept :
    (name : Text) (nodes : List Text) (place : Text) (c : Cluster)
    → lookup name (cache_at place c) ≡ none
    → lookup name (cache_at place (told_all name nodes c)) ≡ none
unfolding told_all
told_all-kept name [] place c h = h
told_all-kept name (node ∷ nodes) place c h =
    told_all-kept name nodes place (told name node c) (elim (Bool-cases (text_eq node place)) [
      | inl t ↦ rw (lookup-insert, t, lookup-remove, text_eq_self) refl
      | inr t ↦ rw (lookup-insert, t) h
    ])

-- Each node that is told has the app no longer in its cache.
pub told_all-forgets :
    (name : Text) (nodes : List Text) (place : Text) (c : Cluster)
    → member place nodes ≡ true
    → lookup name (cache_at place (told_all name nodes c)) ≡ none
unfolding told_all member
told_all-forgets name [] place c h = absurd cc
told_all-forgets name (node ∷ nodes) place c h = elim (Bool-cases (text_eq node place)) [
  | inl t ↦
      let same : node ≡ place = text_eq_sound node place t in
      told_all-kept name nodes place (told name node c)
        (rw (lookup-insert, t, lookup-remove, text_eq_self) refl)
  | inr t ↦ told_all-forgets name nodes place (told name node c) (ground (arith, t, h))
]

pub broadcast_lem :
    (ring : Ring) (conf : Conf) (n : ℕ) (at name : Text) (c : Cluster)
    → c.wires ≡ []
    → broadcast ring conf (suc n) at name c
      ≡ (returns tt, told_all name (value_or [] (ring.members at)) c)
unfolding broadcast told_all
broadcast_lem ring conf n at name c h = elim (Option-cases (ring.members at)) [
  | inl e ↦ rw (broadcast, e) refl
  | inr (nodes, e) ↦ rw (broadcast, e) (broadcast_to_lem ring conf n at name nodes c h)
]
