-- ===== src/Runs/Quiet.antt =====
-- The transitions of sessions and of submissions leave the segments alone.
use bilive_rec.Prelude.{ℕ, String, Bool, true, false, Option, none, some, refl}
use bilive_rec.Errors.{Result}
use bilive_rec.Model.{Uuid, Timestamp}
use bilive_rec.Model.Session.{LiveSession, SessionLifecycle}
use bilive_rec.Model.Segment.{RemoteAttempt}
use bilive_rec.Model.Submission.{Submission, SubmissionState, SubmissionResolutionDecision}
use bilive_rec.Model.Target.{UploadPlan, UploadTarget}
use bilive_rec.Store.Txn.{Tables, put_submission}
use bilive_rec.Store.Effects.{Quiet, Quiet-modify, Quiet-pure, quiet_rules}
use bilive_rec.Transitions.Targets.{AttemptTargetGate}
use bilive_rec.Transitions.Sessions.{
  create_session, validate_new_upload, add_gate, put_ready_unless, put_event_if, require_recovery,
  require_recovery_in, require_recovery_first, require_recovery_again,
}
use bilive_rec.Transitions.Submissions.{
  begin_submission, complete_submission, finish_submission_attempt,
  schedule_submission_target_retry, resolve_submission_as, resolve_submission_submitted,
}
use bilive_rec.Segments.Rules.{segments_of, segments_quiet}

pub validate_new_upload-Quiet :
    {X : Type 0} {π : Tables → X} (plan : Option UploadPlan) → Quiet π (validate_new_upload plan)
validate_new_upload-Quiet none = Quiet-pure tt
validate_new_upload-Quiet (some plan) = search quiet_rules

put_ready_unless-Quiet :
    (b : Bool) (target : UploadTarget) → Quiet segments_of (put_ready_unless b target)
put_ready_unless-Quiet true target = Quiet-pure tt
put_ready_unless-Quiet false target = Quiet-modify _ (λ t. refl)

add_gate-Quiet : (plan : Option UploadPlan) → Quiet segments_of (add_gate plan)
add_gate-Quiet none = Quiet-pure tt
add_gate-Quiet (some plan) = search (segments_quiet, put_ready_unless-Quiet)

pub create_session-Quiet : (s : LiveSession) → Quiet segments_of (create_session s)
unfolding create_session
create_session-Quiet s = search (segments_quiet, validate_new_upload-Quiet, add_gate-Quiet) depth 20

put_event_if-Quiet :
    (b : Bool) (s : LiveSession) (reason : String) → Quiet segments_of (put_event_if b s reason)
put_event_if-Quiet true s reason = search segments_quiet
put_event_if-Quiet false s reason = Quiet-pure tt

require_recovery_in-Quiet :
    (id : Uuid) (s : LiveSession) (lifecycle : SessionLifecycle) (reason : String)
    → Quiet segments_of (require_recovery_in id s lifecycle reason)
unfolding require_recovery_in require_recovery_first require_recovery_again
require_recovery_in-Quiet id s SessionLifecycle.opened reason = search segments_quiet depth 9
require_recovery_in-Quiet id s (SessionLifecycle.recovery_required _ _) reason =
    search (segments_quiet, put_event_if-Quiet) depth 9
require_recovery_in-Quiet id s (SessionLifecycle.closed _) reason = search segments_quiet

pub require_recovery-Quiet :
    (id : Uuid) (reason : String) → Quiet segments_of (require_recovery id reason)
unfolding require_recovery
require_recovery-Quiet id reason = search (segments_quiet, require_recovery_in-Quiet) depth 9

put_submission-Quiet : (s : Submission) → Quiet segments_of (put_submission s)
put_submission-Quiet s = Quiet-modify _ (λ t. refl)

pub begin_submission-Quiet :
    (id : Uuid) (attempt : RemoteAttempt) → Quiet segments_of (begin_submission id attempt)
unfolding begin_submission
begin_submission-Quiet id attempt = search (segments_quiet, put_submission-Quiet) depth 14

pub complete_submission-Quiet :
    (id attempt : Uuid) (aid : Option ℕ) (bvid : Option String)
    → Quiet segments_of (complete_submission id attempt aid bvid)
unfolding complete_submission
complete_submission-Quiet id attempt aid bvid =
    search (segments_quiet, put_submission-Quiet) depth 12

pub finish_submission_attempt-Quiet :
    (id attempt : Uuid) (gate : AttemptTargetGate)
    (update : Submission → Timestamp → Result Submission)
    → Quiet segments_of (finish_submission_attempt id attempt gate update)
unfolding finish_submission_attempt
finish_submission_attempt-Quiet id attempt gate update =
    search (segments_quiet, put_submission-Quiet) depth 12

pub schedule_submission_target_retry-Quiet :
    (id attempt : Uuid) (reason : String) (retry_at : Timestamp) (failures : ℕ)
    → Quiet segments_of (schedule_submission_target_retry id attempt reason retry_at failures)
unfolding schedule_submission_target_retry
schedule_submission_target_retry-Quiet id attempt reason retry_at failures =
    search (segments_quiet, finish_submission_attempt-Quiet)

pub resolve_submission_as-Quiet :
    (id : Uuid) (decision : SubmissionResolutionDecision) (remark : Option String)
    (state : Timestamp → SubmissionState)
    → Quiet segments_of (resolve_submission_as id decision remark state)
unfolding resolve_submission_as
resolve_submission_as-Quiet id decision remark state =
    search (segments_quiet, put_submission-Quiet) depth 14

pub resolve_submission_submitted-Quiet :
    (id : Uuid) (aid : Option ℕ) (bvid remark : Option String)
    → Quiet segments_of (resolve_submission_submitted id aid bvid remark)
unfolding resolve_submission_submitted
resolve_submission_submitted-Quiet id aid bvid remark =
    search (segments_quiet, resolve_submission_as-Quiet)
