-- ===== src/Tests/Work.antt =====
-- The audit and the upload queue at the runs of Data.
use bilive_rec.Prelude.{
  suc, ◌≡◌, ◌↔◌, ◌*◌, ◌≤◌, refl, sym, ◌∙◌, ap, min, any, true, false, none, some, List, [], ◌∷◌,
  subst, some_inj,
}
use bilive_rec.Prelude.Outcome
use bilive_rec.Errors.{ok}
use bilive_rec.Model.Session.{LiveSession, upload_plan}
use bilive_rec.Model.Segment.{Segment, UploadState, SegmentCloseReason}
use bilive_rec.Model.Target.{UploadPlan, UploadTargetState, UploadTargetGate, target_of}
use bilive_rec.Store.Table.{get}
use bilive_rec.Store.Keys.{id_key, segment_key, target_key}
use bilive_rec.Store.Range.{range_scan}
use bilive_rec.Transitions.Submissions.{require_submission_parts}
use bilive_rec.Transitions.Uploads.{begin_upload}
use bilive_rec.Runs.Execute.{run, new_store}
use bilive_rec.Rooms.Reachable.{run-Agree}
use bilive_rec.Audit.Ownership.{audit}
use bilive_rec.Audit.Passes.{audit-passes}
use bilive_rec.Work.Reconcile.{is_ready_for_submission, reconcile_session_uploads}
use bilive_rec.Work.Offered.{run-is_ready}
use bilive_rec.Work.Retry.{
  retry_delay_seconds, retry_base_seconds, retry_max_seconds, retry_delay_seconds_lem,
}
use bilive_rec.Segments.Attempts.{has_attempt}
use bilive_rec.Work.Validation.{
  upload_target_is_ready, ReadySegmentForUpload, validate_session, validate_segment,
  has_flv_extension, validate_ready_segment_for_upload,
}
use bilive_rec.Work.Claimable.{begin_upload-ok}
use bilive_rec.Runs.Command.{Command}
use bilive_rec.Tests.Data.{env, plan, attempting_segment, session, segment, attempt, uploaded}
use bilive_rec.Tests.Play.{play}

audit-passes_example : audit env (run uploaded env new_store) ≡ (ok [], run uploaded env new_store)
unfolding play
audit-passes_example =
    audit-passes env (run uploaded env new_store) (run-Agree uploaded env) (tt, tt) (tt, tt)

run-is_ready_example :
    (is_ready_for_submission
        (reconcile_session_uploads (range_scan 1 (run uploaded env new_store).segments))
      ≡ true)
    ↔ ((require_submission_parts 1 env (run uploaded env new_store)).0 ≡ ok tt)
run-is_ready_example = run-is_ready uploaded env 1

retry_delay_seconds_lem_example :
    (retry_delay_seconds 1 ≡ retry_base_seconds)
    × (retry_delay_seconds (suc (suc 5)) ≡ min (2 * retry_delay_seconds (suc 5)) retry_max_seconds)
    × (retry_base_seconds ≤ retry_delay_seconds 5)
    × (retry_delay_seconds 5 ≤ retry_max_seconds)
retry_delay_seconds_lem_example = retry_delay_seconds_lem 5

-- The segment before its upload is attempted.
abbrev recorded : List Command
recorded =
    Command.create_session session
    ∷ Command.open_segment segment
    ∷ Command.begin_artifact_finalization 1 1 SegmentCloseReason.stream_ended
    ∷ Command.complete_artifact_finalization 1 1
    ∷ []

abbrev ready_segment : ReadySegmentForUpload
ready_segment = record { session_id = 1; segment_index = 1; path = segment.final_path }

valid :
    (validate_ready_segment_for_upload (λ p. true) 1 1 none 100 env (play recorded)).0
    ≡ ok (Outcome.ok ready_segment)
unfolding play validate_ready_segment_for_upload validate_session validate_segment has_flv_extension
valid = refl

recorded_segment : Segment
recorded_segment = record attempting_segment {
  upload = UploadState.pending 0 none none;
  upload_attempts = [];
}

found_segment : get (play recorded).segments (1, 1) ≡ some recorded_segment
unfolding play recorded_segment
found_segment = refl

found_session : get (play recorded).sessions 1 ≡ some session
unfolding play
found_session = refl

target_state : UploadTargetState
target_state = record { target = target_of plan; gate = UploadTargetGate.ready }

found_target : get (play recorded).upload_targets (target_of plan) ≡ some target_state
unfolding play target_state
found_target = refl

plan_open : upload_target_is_ready target_state 100 ≡ true
unfolding target_state upload_target_is_ready
plan_open = refl

planned : upload_plan session.output_plan ≡ some plan
unfolding upload_plan
planned = refl

nothing_attempted : has_attempt 5 recorded_segment.upload_attempts ≡ false
unfolding recorded_segment any
nothing_attempted = refl

target_open :
    (live : LiveSession) (p : UploadPlan)
    → get (play recorded).sessions 1 ≡ some live
    → upload_plan live.output_plan ≡ some p
    → (st : UploadTargetState) × (get (play recorded).upload_targets (target_of p) ≡ some st)
      × (upload_target_is_ready st 100 ≡ true)
target_open live p at e =
    let same : session ≡ live = some_inj (sym found_session ∙ at) in
    let same_plan : plan ≡ p =
      some_inj (sym planned ∙ ap (λ (s : LiveSession). upload_plan s.output_plan) same ∙ e) in
    (
      target_state,
      subst (λ q. get (play recorded).upload_targets (target_of q) ≡ some target_state) same_plan
          found_target,
      plan_open,
    )

unattempted :
    (found : Segment)
    → get (play recorded).segments (1, 1) ≡ some found
    → has_attempt 5 found.upload_attempts ≡ false
unattempted found at =
    subst (λ (g : Segment). has_attempt 5 g.upload_attempts ≡ false)
      (some_inj (sym found_segment ∙ at)) nothing_attempted

begin_upload-ok_example :
    (claimed : Segment) × ((begin_upload 1 1 attempt env (play recorded)).0 ≡ ok claimed)
begin_upload-ok_example =
    begin_upload-ok (λ p. true) 1 1 none attempt ready_segment env (play recorded) valid target_open
      unattempted
