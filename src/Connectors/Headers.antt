-- ===== src/Connectors/Headers.antt =====
-- connectors/http.go: the headers of the request for a callback. `Header.Set` puts a header under the
-- canonical form of its name, which is a parameter; the headers of the callback come in the order in which
-- `range` meets them.
use goscheduler.Shared.{
  ◌⊎◌, List, [], ◌∷◌, ◌≡◌, ◌≢◌, refl, some, if◌then◌else◌, true, inl, inr, Bool-cases,
}
use goscheduler.Shared.Text.{Text, codes, text_eq}
use goscheduler.Shared.Dict.{lookup, insert, lookup-insert, lookup-insert_self, text_eq_ne}
use goscheduler.Store.Schedule.{Schedule, zero_uuid}

abbrev pub content_type : Text
content_type = codes "Content-Type"

abbrev pub schedule_id_header : Text
schedule_id_header = codes "Schedule-Id"

abbrev pub parent_schedule_id_header : Text
parent_schedule_id_header = codes "Parent-Schedule-Id"

module _ (canonical : Text → Text) where
  -- The loop over the headers of the callback.
  unfoldable pub set_each : List (Text × Text) → List (Text × Text) → List (Text × Text)
  set_each [] headers = headers
  set_each ((header, value) ∷ more) headers =
      set_each more (insert (canonical header) value headers)

  -- `setRequestHeaders`, on the headers of the callback.
  unfoldable pub set_request_headers : List (Text × Text) → Schedule → List (Text × Text)
  unfolding set_each
  set_request_headers headers s =
      let own =
        insert (canonical schedule_id_header) s.schedule_id
          (set_each headers (insert (canonical content_type) (codes "application/json") [])) in
      if text_eq s.parent_schedule_id zero_uuid
      then own
      else insert (canonical parent_schedule_id_header) s.parent_schedule_id own

  -- If the names of the two headers have different canonical forms, the request tells the id of its
  -- schedule, and of the parent where there is one, whatever headers the callback has.
  set_request_headers_lem :
      (headers : List (Text × Text)) (s : Schedule)
      → canonical parent_schedule_id_header ≢ canonical schedule_id_header
      → (lookup (canonical schedule_id_header) (set_request_headers headers s) ≡ some s.schedule_id)
        × ((text_eq s.parent_schedule_id zero_uuid ≡ true)
            ⊎ (lookup (canonical parent_schedule_id_header) (set_request_headers headers s)
                ≡ some s.parent_schedule_id))
  unfolding set_request_headers
  set_request_headers_lem headers s differ =
      elim (Bool-cases (text_eq s.parent_schedule_id zero_uuid)) [
        | inl y ↦ rw y (lookup-insert_self (canonical schedule_id_header) s.schedule_id _, inl refl)
        | inr z ↦
            let other = text_eq_ne _ _ differ in
            rw (z, lookup-insert, other)
              (
                lookup-insert_self (canonical schedule_id_header) s.schedule_id _,
                inr (
                    lookup-insert_self (canonical parent_schedule_id_header) s.parent_schedule_id
                      _),
              )
      ]
