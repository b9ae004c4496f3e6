-- ===== src/Store/App.antt =====
-- store/app.go and store/configuration.go.
use goscheduler.Shared.{ℕ, ◌*◌, Bool, ◌&&◌, if◌then◌else◌}
use goscheduler.Shared.Int.{ℤ, pos, eqb_ℤ, mul64}
use goscheduler.Shared.Text.{Text}

-- A Go `int` is 64 bits wide here.
pub record Configuration : Type 0 where
  pub future_schedule_creation_period : ℤ
  pub fired_schedule_retention_period : ℤ
  pub payload_size : ℤ
  pub http_retries : ℤ
  pub http_timeout : ℤ

abbrev pub empty_configuration : Configuration
empty_configuration = record {
  future_schedule_creation_period = pos 0;
  fired_schedule_retention_period = pos 0;
  payload_size = pos 0;
  http_retries = pos 0;
  http_timeout = pos 0;
}

-- `config == (store.Configuration{})`.
abbrev pub is_empty : Configuration → Bool
is_empty c =
    eqb_ℤ c.future_schedule_creation_period (pos 0)
    && eqb_ℤ c.fired_schedule_retention_period (pos 0)
    && eqb_ℤ c.payload_size (pos 0)
    && eqb_ℤ c.http_retries (pos 0)
    && eqb_ℤ c.http_timeout (pos 0)

-- `Partitions` is a uint32.
pub record App : Type 0 where
  pub app_id : Text
  pub partitions : ℕ
  pub active : Bool
  pub configuration : Configuration

abbrev seconds_in_day : ℤ
seconds_in_day = pos (60 * 60 * 24)

unfoldable pub get_max_ttl : App → ℤ → ℤ
get_max_ttl app max_ttl =
    if eqb_ℤ app.configuration.future_schedule_creation_period (pos 0)
    then mul64 seconds_in_day max_ttl
    else mul64 seconds_in_day app.configuration.future_schedule_creation_period

unfoldable pub get_buffer_ttl : App → ℤ → ℤ
get_buffer_ttl app buffer_ttl =
    if eqb_ℤ app.configuration.fired_schedule_retention_period (pos 0)
    then mul64 seconds_in_day buffer_ttl
    else mul64 seconds_in_day app.configuration.fired_schedule_retention_period
