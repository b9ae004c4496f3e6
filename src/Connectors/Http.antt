-- ===== src/Connectors/Http.antt =====
-- connectors/http.go: the callback of a schedule. The HTTP client is a parameter: how it answers each
-- attempt. The requests and the dumps in the log are left out.
use goscheduler.Shared.{
  ℕ, zero, suc, [], ◌∷◌, Option, none, some, Bool, false, ◌&&◌, not, ltb, leb, if◌then◌else◌,
  length,
}
use goscheduler.Shared.Text.{Text}
use goscheduler.Store.Schedule.{Schedule, success, failure, update_reconciliation_history}

-- `trim`, by bytes.
abbrev take : ℕ → Text → Text
take zero s = []
take (suc n) [] = []
take (suc n) (c ∷ s) = c ∷ take n s

unfoldable pub trim : Text → Text
trim message = if ltb (length message) 200 then message else take 200 message

-- An error, or a response with its status code and the text of its status.
pub data Answer : Type 0 where
  failed : Text → Answer
  responded : ℕ → Text → Answer

-- `isSuccess`.
unfoldable pub is_success : Answer → Bool
is_success (failed message) = false
is_success (responded code status) = leb 200 code && leb code 299

-- `shouldRetry`.
unfoldable pub should_retry : ℕ → ℕ → Answer → Bool
should_retry max_attempts attempts answer =
    if leb max_attempts attempts then false else not (is_success answer)

abbrev pub max_attempts : ℕ
max_attempts = 3

module _ (create_error : Option Text) (client : ℕ → Answer) where
  -- The loop of `retryPost`, on fuel: the number of the last attempt and its answer.
  unfoldable pub retry_loop : ℕ → ℕ → Option (ℕ × Answer)
  unfolding should_retry
  retry_loop zero attempts = none
  retry_loop (suc fuel) attempts =
      let rest = retry_loop fuel (suc attempts) in
      elim create_error [
        | some message ↦ some (suc attempts, failed message)
        | none ↦
            if should_retry max_attempts (suc attempts) (client (suc attempts))
            then rest
            else some (suc attempts, client (suc attempts))
      ]

  unfoldable pub retry_post : Option (ℕ × Answer)
  unfolding retry_loop
  retry_post = retry_loop max_attempts 0

-- The status and the message that an answer leaves.
abbrev pub answered : Answer → Schedule → Schedule
answered (failed message) s = record s { status = failure; error_message = trim message }
answered (responded code status) s =
    if is_success (responded code status)
    then record s { status = success; error_message = [] }
    else record s { status = failure; error_message = trim status }

-- `handleCallbackResult`: the schedule that goes to the queue of aggregation, with the time as the
-- history formats it.
unfoldable pub handle_callback_result : Text → Answer → Bool → Schedule → Schedule
handle_callback_result on answer is_reconciliation s =
    let result : Schedule = answered answer s in
    if is_reconciliation
    then update_reconciliation_history on result.status result.error_message result
    else result
