-- ===== src/Store/Registry.antt =====
-- store/registry.go and store/schedule.go: the registry of callback types, and how a schedule and its
-- callback are decoded. JSON is a parameter: what `json.Unmarshal` makes of a text in the value that a
-- factory gives, what `Marshal` of the callback makes of the columns of a row, and the `type` of a
-- text; `none` is an error. A map is a list in the order in which `range` meets its keys.
use goscheduler.Shared.{List, [], ◌∷◌, Option, none, some, if◌then◌else◌}
use goscheduler.Shared.Text.{Text, codes, text_eq}
use goscheduler.Shared.Dict.{lookup, insert}
use goscheduler.Store.Schedule.{Schedule, Callback}

-- `Factory`, as what decoding does with the value that it makes.
pub record Factory : Type 0 where
  pub unmarshal : Text → Option Callback
  pub marshal : Text → Text → Option Callback

abbrev pub Registry : Type 0
Registry = List (Text × Factory)

-- `DefaultCallback`.
abbrev pub default_callback : Text
default_callback = codes "http"

-- The first loop of `InitializeCallbackRegistry`: the keys of the client's map differ, so that the
-- order does not matter.
unfoldable pub register : List (Text × Factory) → Registry → Registry
register [] registry = registry
register ((kind, factory) ∷ more) registry = insert kind factory (register more registry)

abbrev pub unless_registered : Option Factory → Text → Factory → Registry → Registry
unless_registered (some old) kind factory registry = registry
unless_registered none kind factory registry = insert kind factory registry

-- `InitializeCallbackRegistry`, with the factory of `HttpCallback`.
unfoldable pub initialize_callback_registry : Factory → List (Text × Factory) → Registry → Registry
initialize_callback_registry http client registry =
    let registered = register client registry in
    unless_registered (lookup default_callback registered) default_callback http registered

infixl 5 ◌>>=◌
abbrev pub ◌>>=◌ : {A B : Type 0} → Option A → (A → Option B) → Option B
none >>= f = none
(some a) >>= f = f a

-- `createCallbackFromMap`, on the columns of the callback.
unfoldable pub create_callback_from_map : Registry → Text → Text → Option Callback
create_callback_from_map registry kind details = do
  factory ← lookup kind registry
  factory.marshal kind details

-- `UnmarshalJSON` of a schedule, on its fields without the callback, and the raw callback, which is
-- empty if the request has none; with the `type` of a text.
unfoldable pub unmarshal_schedule :
    Registry → (Text → Option Text) → Schedule → Text → Option Schedule
unmarshal_schedule registry kind_of fields raw =
    if text_eq raw [] then some (record fields { callback = none }) else (do
      kind ← kind_of raw
      factory ← lookup kind registry
      callback ← factory.unmarshal raw
      some (record fields { callback = some callback }))

abbrev pub or_other : Option Callback → Option Callback → Option Callback
or_other none other = other
or_other (some callback) other = some callback

-- The first factory that takes the text.
unfoldable pub first_taking : Registry → Text → Option Callback
first_taking [] raw = none
first_taking ((kind, factory) ∷ more) raw = or_other (factory.unmarshal raw) (first_taking more raw)

-- The callback of the type that the text names.
unfoldable pub by_type : Registry → (Text → Option Text) → Text → Option Callback
by_type registry kind_of raw = do
  kind ← kind_of raw
  factory ← (if text_eq kind [] then none else lookup kind registry)
  factory.unmarshal raw

-- `CreateCallbackFromRawMessage`.
unfoldable pub create_callback_from_raw_message :
    Registry → (Text → Option Text) → Text → Option Callback
create_callback_from_raw_message registry kind_of raw =
    or_other (by_type registry kind_of raw) (first_taking registry raw)
