-- ===== src/Service/Errors.antt =====
-- error/error.go: the codes of errors, and the status of the response to each.
use goscheduler.Shared.{ℕ, ◌==◌, ◌||◌, if◌then◌else◌}

abbrev pub invalid_data : ℕ
invalid_data = 400

abbrev pub data_not_found : ℕ
data_not_found = 404

abbrev pub conflict : ℕ
conflict = 409

abbrev pub unprocessable_entity : ℕ
unprocessable_entity = 422

abbrev too_many_requests : ℕ
too_many_requests = 429

abbrev pub invalid_app_id : ℕ
invalid_app_id = 4001

abbrev pub deactivated_app : ℕ
deactivated_app = 4002

abbrev pub activated_app : ℕ
activated_app = 4003

abbrev pub invalid_bulk_action_type : ℕ
invalid_bulk_action_type = 4005

abbrev pub unmarshal_error : ℕ
unmarshal_error = 5001

abbrev validation_fail : ℕ
validation_fail = 5003

abbrev pub data_persistence_failure : ℕ
data_persistence_failure = 5004

abbrev invalid_callback_type : ℕ
invalid_callback_type = 5005

abbrev pub data_fetch_failure : ℕ
data_fetch_failure = 5006

abbrev pub entity_boot_failed : ℕ
entity_boot_failed = 5007

-- The status that `Handle` writes for a code.
unfoldable pub handle_status : ℕ → ℕ
handle_status code =
    if code == data_not_found
    then 404
    else if code == invalid_data
        || (code == validation_fail
            || (code == invalid_app_id
                || (code == deactivated_app || (code == activated_app || code == unmarshal_error))))
    then 400
    else if code == data_persistence_failure || code == invalid_callback_type
    then 500
    else if code == too_many_requests
    then 429
    else if code == unprocessable_entity
    then 422
    else if code == conflict
    then 409
    else 500
