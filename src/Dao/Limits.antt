-- ===== src/Dao/Limits.antt =====
-- `ValidateConfigurations` and `InsertApp` of dao/cluster_dao_impl.go.
use goscheduler.Shared.{
  [], ◌≡◌, ◌↔◌, refl, arith, Option, none, some, true, Bool-cases, inl, inr, ◌⊎◌,
}
use goscheduler.Shared.Int.{◌≤ℤ◌}
use goscheduler.Shared.Dict.{lookup}
use goscheduler.Store.App.{Configuration, is_empty}
use goscheduler.Dao.Session.{AppRow, Dao, Limit, ok}
use goscheduler.Dao.Freshness.{Coherent, get_app_lem}
use goscheduler.Dao.Apps.{
  max_config_app, decoded, app_of, get_app, refuse, limit_passed, validate_configurations,
}

-- No part of the first configuration is above the second's.
abbrev pub Within : Configuration → Configuration → Type 0
Within c max =
    (c.payload_size ≤ℤ max.payload_size)
    × (c.http_retries ≤ℤ max.http_retries)
    × (c.http_timeout ≤ℤ max.http_timeout)
    × (c.fired_schedule_retention_period ≤ℤ max.fired_schedule_retention_period)
    × (c.future_schedule_creation_period ≤ℤ max.future_schedule_creation_period)

limit_passed_lem : (c max : Configuration) → (limit_passed c max ≡ none) ↔ Within c max
unfolding limit_passed
limit_passed_lem c max = ground arith

refuse_lem : (l : Option Limit) (d : Dao) → ((refuse l d).0 ≡ ok tt) ↔ (l ≡ none)
refuse_lem none d = (λ _. refl, λ _. refl)
refuse_lem (some l) d = (λ e. absurd cc, λ e. absurd cc)

-- With a cache in step, queries that are served and a row for the limits, `ValidateConfigurations`
-- accepts exactly the empty configuration and those within the limits.
pub validate_configurations_lem :
    (c : Configuration) (d : Dao) (row : AppRow)
    → Coherent d
    → d.db.replies ≡ []
    → lookup max_config_app d.db.apps ≡ some row
    → ((validate_configurations c d).0 ≡ ok tt)
      ↔ ((is_empty c ≡ true) ⊎ Within c (decoded row.configuration))
unfolding validate_configurations
validate_configurations_lem c d row h r e = elim (Bool-cases (is_empty c)) [
  | inl t ↦ (λ _. inl t, λ _. rw t refl)
  | inr t ↦
      let found : (get_app max_config_app d).0 ≡ ok (app_of max_config_app row) =
        rw (get_app_lem max_config_app d h r, e) refl in
      let (refused, accepted) =
        refuse_lem (limit_passed c (decoded row.configuration)) (get_app max_config_app d).1 in
      let (within, passes) = limit_passed_lem c (decoded row.configuration) in
      rw (t, found)
        (
          λ s. inr (within (refused s)),
          λ s. elim s [ inl u ↦ absurd cc | inr w ↦ accepted (passes w) ],
        )
]
