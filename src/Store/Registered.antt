-- ===== src/Store/Registered.antt =====
-- store/registry.go: which factory stands for a type.
use mathlib.Core.Path.{subst}
use goscheduler.Shared.{
  ap, List, [], ◌∷◌, ◌≡◌, refl, sym, ◌∙◌, Option, none, some, Bool, true, false, if◌then◌else◌, inl,
  inr, Bool-cases,
}
use goscheduler.Shared.Text.{Text, text_eq}
use goscheduler.Shared.Dict.{lookup, lookup-insert, text_eq_sound}
use goscheduler.Store.Schedule.{Schedule, Callback}
use goscheduler.Store.Registry.{
  Factory, Registry, default_callback, register, unless_registered, initialize_callback_registry,
  ◌>>=◌, unmarshal_schedule, by_type, create_callback_from_raw_message,
}

-- The first that is there.
abbrev pub or_else : Option Factory → Option Factory → Option Factory
or_else none other = other
or_else (some f) other = some f

or_else_if :
    (b : Bool) (f : Factory) (o other : Option Factory)
    → or_else (if b then some f else o) other ≡ (if b then some f else or_else o other)
or_else_if true f o other = refl
or_else_if false f o other = refl

lookup-register :
    (kind : Text) (client : List (Text × Factory)) (registry : Registry)
    → lookup kind (register client registry) ≡ or_else (lookup kind client) (lookup kind registry)
unfolding register lookup
lookup-register kind [] registry = refl
lookup-register kind ((key, f) ∷ more) registry =
    rw
      (
        lookup-insert key kind f (register more registry),
        lookup-register kind more registry,
        or_else_if (text_eq key kind) f (lookup kind more) (lookup kind registry),
      )
      refl

or_else-none : (o : Option Factory) → or_else o none ≡ o
or_else-none none = refl
or_else-none (some f) = refl

or_else_assoc : (o p q : Option Factory) → or_else (or_else o p) q ≡ or_else o (or_else p q)
or_else_assoc none p q = refl
or_else_assoc (some f) p q = refl

at_default :
    (http : Factory) (kind : Text) (registry : Registry) (found : Option Factory)
    → text_eq default_callback kind ≡ true
    → lookup kind registry ≡ found
    → lookup kind (unless_registered found default_callback http registry)
      ≡ or_else (lookup kind registry) (some http)
at_default http kind registry (some old) y e = rw e refl
at_default http kind registry none y e =
    rw (lookup-insert default_callback kind http registry, y, e) refl

elsewhere :
    (http : Factory) (kind : Text) (registry : Registry) (found : Option Factory)
    → text_eq default_callback kind ≡ false
    → lookup kind (unless_registered found default_callback http registry) ≡ lookup kind registry
elsewhere http kind registry (some old) z = refl
elsewhere http kind registry none z = rw (lookup-insert default_callback kind http registry, z) refl

unless_registered_lem :
    (http : Factory) (kind : Text) (registry : Registry) (found : Option Factory)
    → lookup default_callback registry ≡ found
    → lookup kind (unless_registered found default_callback http registry)
      ≡ or_else (lookup kind registry) (if text_eq default_callback kind then some http else none)
unless_registered_lem http kind registry found e =
    elim (Bool-cases (text_eq default_callback kind)) [
      | inl y ↦
          let here : lookup kind registry ≡ found =
            subst (λ k. lookup k registry ≡ found) (text_eq_sound default_callback kind y) e in
          rw y (at_default http kind registry found y here)
      | inr z ↦ rw (z, or_else-none (lookup kind registry)) (elsewhere http kind registry found z)
    ]

-- `InitializeCallbackRegistry` gives each type the factory that the client gives it, else the one that
-- it had, and else, if it is the default type, that of `HttpCallback`.
pub initialize_callback_registry_lem :
    (http : Factory) (client : List (Text × Factory)) (registry : Registry) (kind : Text)
    → lookup kind (initialize_callback_registry http client registry)
      ≡ or_else (lookup kind client) (
          or_else
            (lookup kind registry)
            (if text_eq default_callback kind then some http else none))
unfolding initialize_callback_registry
initialize_callback_registry_lem http client registry kind =
    let registered = register client registry in
    unless_registered_lem http kind registered (lookup default_callback registered) refl
    ∙ ap (λ o. or_else o (if text_eq default_callback kind then some http else none))
        (lookup-register kind client registry)
    ∙ or_else_assoc (lookup kind client) (lookup kind registry) _

made_alike :
    (made : Option Callback) (fields s : Schedule)
    → (do callback ← made; some (record fields { callback = some callback })) ≡ some s
    → (callback : Callback) × (s ≡ record fields { callback = some callback })
      × (made ≡ some callback)
made_alike none fields s e = absurd cc
made_alike (some callback) fields s e = (callback, cc, refl)

found_alike :
    (found : Option Factory) (fields s : Schedule) (raw : Text)
    → (do
      factory ← found
      callback ← factory.unmarshal raw
      some (record fields { callback = some callback }))
      ≡ some s
    → (callback : Callback) × (s ≡ record fields { callback = some callback })
      × ((do factory ← found; factory.unmarshal raw) ≡ some callback)
found_alike none fields s raw e = absurd cc
found_alike (some factory) fields s raw e = made_alike (factory.unmarshal raw) fields s e

unmarshal_lem :
    (registry : Registry) (kind_of : Text → Option Text) (fields : Schedule) (raw kind : Text)
    → text_eq raw [] ≡ false
    → kind_of raw ≡ some kind
    → unmarshal_schedule registry kind_of fields raw ≡ (do
      factory ← lookup kind registry
      callback ← factory.unmarshal raw
      some (record fields { callback = some callback }))
unfolding unmarshal_schedule
unmarshal_lem registry kind_of fields raw kind given typed = rw (given, typed) refl

create_lem :
    (registry : Registry) (kind_of : Text → Option Text) (raw kind : Text) (callback : Callback)
    → kind_of raw ≡ some kind
    → text_eq kind [] ≡ false
    → (do factory ← lookup kind registry; factory.unmarshal raw) ≡ some callback
    → create_callback_from_raw_message registry kind_of raw ≡ some callback
unfolding create_callback_from_raw_message by_type
create_lem registry kind_of raw kind callback typed named made = rw (typed, named, made) refl

-- A schedule with a raw callback of a type that is not the empty text: if it decodes, its callback is the
-- one that `CreateCallbackFromRawMessage` makes of the raw callback, and its other fields are as given.
pub unmarshal_schedule-create_callback :
    (registry : Registry) (kind_of : Text → Option Text) (fields s : Schedule) (raw kind : Text)
    → text_eq raw [] ≡ false
    → kind_of raw ≡ some kind
    → text_eq kind [] ≡ false
    → unmarshal_schedule registry kind_of fields raw ≡ some s
    → (callback : Callback) × (s ≡ record fields { callback = some callback })
      × (create_callback_from_raw_message registry kind_of raw ≡ some callback)
unmarshal_schedule-create_callback registry kind_of fields s raw kind given typed named e =
    let (callback, same, made) =
      found_alike (lookup kind registry) fields s raw
        (sym (unmarshal_lem registry kind_of fields raw kind given typed) ∙ e) in
    (callback, same, create_lem registry kind_of raw kind callback typed named made)
