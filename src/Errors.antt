-- ===== src/Errors.antt =====
-- src/error.rs, with the messages that state/transitions.rs and state/ownership.rs give to
-- `AppError::State`. A message is named by its text; the values that it prints are left out.
use bilive_rec.Prelude.{String, ◌≡◌, refl}

pub data StateError : Type 0 where
  -- create_session
  must_be_open_when_created must_not_have_recording_events output_dir_must_be_absolute : StateError
  recording_credential_must_be_absolute upload_line_or_threads_missing : StateError
  expected_mid_is_zero upload_credential_must_be_absolute session_already_exists : StateError
  room_has_non_closed_session room_is_already_owned : StateError
  -- segments and their artifacts
  paths_must_differ paths_must_be_absolute segment_already_exists out_of_sequence : StateError
  new_segment_must_be_writing unexpected_artifact must_be_recovery_required : StateError
  decision_is_exclude decision_is_not_exclude failure_reason_is_empty : StateError
  refusing_artifact_deletion delete_not_permitted submission_is_not_submitted : StateError
  must_be_ready_and_uploaded : StateError
  -- sessions
  recovery_reason_is_empty session_is_closed must_be_open_for_natural_close : StateError
  does_not_require_recovery has_submission_and_cannot_be_abandoned : StateError
  owns_blocked_target unresolved_artifact_intent segment_is_failed : StateError
  session_does_not_exist segment_does_not_exist submission_does_not_exist : StateError
  session_is_not_open room_has_no_state room_is_not_owned_by_session : StateError
  closed_session_cannot_claim room_is_owned_by_another_session : StateError
  -- uploads and submissions
  lifecycle_does_not_permit_upload is_local_only already_has_submission : StateError
  not_a_due_upload attempt_already_exists target_failures_is_zero : StateError
  is_not_completed submission_not_ready_for_attempt segment_not_ready_for_submission : StateError
  no_uploaded_parts does_not_permit_submission_recovery no_target_gate : StateError
  target_in_backoff target_is_blocked not_owned_by_attempt no_history_record : StateError
  attempt_already_finished no_operator_resolution_required : StateError
  aid_is_zero proof_is_missing bvid_is_invalid uploaded_part_is_invalid : StateError
  -- ownership
  multiple_non_closed_sessions room_points_to_missing_session : StateError
  session_belongs_to_another_room room_points_to_another_session : StateError

-- The payloads of the other variants come from the libraries or are texts.
pub data AppError : Type 0 where
  io config database table transaction storage commit : String → AppError
  state : StateError → AppError
  recovery_required network bilibili bilibili_response : String → AppError
  stream_protocol stream_repeated_data : String → AppError
  graceful_shutdown : AppError

-- AppResult
pub data Result {ℓ} (Value : Type ℓ) : Type ℓ where
  err : (failure : AppError) → Result Value
  ok : (value : Value) → Result Value

module _ {κ} {Value : Type κ} where
  abbrev pub state_error : StateError → Result Value
  state_error message = err (state message)

module _ {κ ν} {Before : Type κ} {After : Type ν} where
  infixl 5 ◌>>=◌
  -- The `?` operator: the rest runs on the value, if there is one.
  abbrev pub ◌>>=◌ : Result Before → (Before → Result After) → Result After
  err failure >>= rest = err failure
  ok value >>= rest = rest value

  -- What succeeded after a `?` had a value there.
  pub bind-eq-ok :
      (first : Result Before) (rest : Before → Result After) {result : After}
      → (first >>= rest) ≡ ok result
      → (value : Before) × (first ≡ ok value) × (rest value ≡ ok result)
  bind-eq-ok (err failure) rest succeeded = cc
  bind-eq-ok (ok value) rest succeeded = (value, refl, succeeded)

pub ok_inj {ℓ} : {A : Type ℓ} {a b : A} → ok a ≡ ok b → a ≡ b
ok_inj h = cc
