-- ===== src/Store/Partition.antt =====
-- store/schedule.go: `SetFields` and the partition of a UUID.
use goscheduler.Shared.{ℕ, ◌%◌, Option, none, some, ◌==◌, if◌then◌else◌}
use goscheduler.Shared.Int.{pos, mul64, quot64}
use goscheduler.Shared.Text.{Text}
use goscheduler.Store.App.{App}
use goscheduler.Store.Schedule.{Schedule, big_endian}

-- `uuidToPartition`; the division by 0 partitions panics. The number is below 2 ^ 64 when the
-- characters are bytes.
unfoldable pub uuid_to_partition : Text → ℕ → Option ℕ
uuid_to_partition uuid partitions = elim (big_endian 8 0 uuid) [
  | none ↦ none
  | some key ↦ if partitions == 0 then none else some (key % partitions)
]

-- `SetFields`, with the new UUID: `none` is a panic.
unfoldable pub set_fields : Text → App → Schedule → Option Schedule
set_fields uuid app s = elim (uuid_to_partition uuid app.partitions) [
  | none ↦ none
  | some partition ↦ some (record s {
    schedule_id = uuid;
    partition_id = partition;
    schedule_group = mul64 (pos 60) (quot64 s.schedule_time (pos 60));
  })
]
