-- ===== src/Shared/Dict.antt =====
-- Maps and tables with text keys, as association lists.
use mathlib.Core.Path.{subst}
use goscheduler.Shared.{
  List, [], ◌∷◌, ◌≡◌, ◌≢◌, ◌↔◌, refl, arith, Option, none, some, true, false, if◌then◌else◌,
  Bool-cases, inl, inr, All,
}
use goscheduler.Shared.Text.{Text, text_eq}

pub text_eq_self : (s : Text) → text_eq s s ≡ true
text_eq_self [] = refl
text_eq_self (c ∷ s) = ground (arith, text_eq_self s)

pub text_eq_sound : (s t : Text) → text_eq s t ≡ true → s ≡ t
text_eq_sound [] [] h = refl
text_eq_sound [] (d ∷ t) h = cc
text_eq_sound (c ∷ s) [] h = cc
text_eq_sound (c ∷ s) (d ∷ t) h = ground (arith, text_eq_sound s t)

pub text_eq_iff : (s t : Text) → (text_eq s t ≡ true) ↔ (s ≡ t)
text_eq_iff s t = (text_eq_sound s t, λ e. rw e (text_eq_self t))

pub text_eq_ne : (s t : Text) → s ≢ t → text_eq s t ≡ false
text_eq_ne s t h = elim (Bool-cases (text_eq s t)) [
  | inl e ↦ absurd (h (text_eq_sound s t e))
  | inr e ↦ e
]

pub text_eq_comm : (s t : Text) → text_eq s t ≡ text_eq t s
text_eq_comm [] [] = refl
text_eq_comm [] (d ∷ t) = refl
text_eq_comm (c ∷ s) [] = refl
text_eq_comm (c ∷ s) (d ∷ t) = ground (arith, text_eq_comm s t)

module _ {ℓ} {V : Type ℓ} where
  unfoldable pub lookup : Text → List (Text × V) → Option V
  lookup name [] = none
  lookup name ((key, value) ∷ more) = if text_eq key name then some value else lookup name more

  unfoldable pub insert : Text → V → List (Text × V) → List (Text × V)
  insert name new [] = (name, new) ∷ []
  insert name new ((key, old) ∷ more) =
      if text_eq key name then (name, new) ∷ more else (key, old) ∷ insert name new more

  -- Every entry under the key goes.
  unfoldable pub remove : Text → List (Text × V) → List (Text × V)
  remove name [] = []
  remove name ((key, value) ∷ more) =
      let rest = remove name more in if text_eq key name then rest else (key, value) ∷ rest

  pub lookup-insert :
      (name other : Text) (new : V) (entries : List (Text × V))
      → lookup other (insert name new entries)
        ≡ (if text_eq name other then some new else lookup other entries)
  unfolding insert lookup
  lookup-insert name other new [] = refl
  lookup-insert name other new ((key, old) ∷ more) = ground (
    arith,
    lookup-insert name other new more,
    text_eq_iff key name,
    text_eq_iff key other,
    text_eq_iff name other,
  )

  pub lookup-remove :
      (k j : Text) (m : List (Text × V))
      → lookup j (remove k m) ≡ (if text_eq k j then none else lookup j m)
  unfolding lookup remove
  lookup-remove k j [] = ground arith
  lookup-remove k j ((i, w) ∷ m) =
      ground (arith, text_eq_iff k j, text_eq_iff i k, text_eq_iff i j, lookup-remove k j m)

  pub lookup-insert_self :
      (k : Text) (v : V) (m : List (Text × V)) → lookup k (insert k v m) ≡ some v
  lookup-insert_self k v m = rw (lookup-insert, text_eq_self k)

pair_eq {ℓ} : {V : Type ℓ} {j k : Text} {w v : V} → j ≡ k → w ≡ v → ◌≡◌ {A = Text × V} (j, w) (k, v)
pair_eq e f = rw (e, f) refl

module _ {ℓ κ} {V : Type ℓ} (P : Text × V → Type κ) where
  pub lookup-All :
      (k : Text) (m : List (Text × V)) {v : V} → All P m → lookup k m ≡ some v → P (k, v)
  unfolding lookup
  lookup-All k [] h e = absurd cc
  lookup-All k ((j, w) ∷ m) (p, h) e = elim (Bool-cases (text_eq j k)) [
    | inl t ↦ subst P (pair_eq (text_eq_sound j k t) cc) p
    | inr t ↦ lookup-All k m h cc
  ]

  pub All-insert :
      (k : Text) (v : V) (m : List (Text × V)) → P (k, v) → All P m → All P (insert k v m)
  unfolding insert
  All-insert k v [] p h = (p, tt)
  All-insert k v ((j, w) ∷ m) p (q, h) = elim (Bool-cases (text_eq j k)) [
    | inl e ↦ rw e (p, h)
    | inr e ↦ rw e (q, All-insert k v m p h)
  ]

  pub All-remove : (k : Text) (m : List (Text × V)) → All P m → All P (remove k m)
  unfolding remove
  All-remove k [] h = tt
  All-remove k ((j, w) ∷ m) (q, h) = elim (Bool-cases (text_eq j k)) [
    | inl e ↦ rw e (All-remove k m h)
    | inr e ↦ rw e (q, All-remove k m h)
  ]
