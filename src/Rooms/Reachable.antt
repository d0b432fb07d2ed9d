-- ===== src/Rooms/Reachable.antt =====
-- The rooms and sessions of the stores that a run reaches.
use bilive_rec.Prelude.{ℕ, String, Bool, true, false, Option, ◌≡◌, refl, some, List, [], ◌∷◌}
use bilive_rec.Errors.{Result}
use bilive_rec.Model.{Uuid}
use bilive_rec.Model.Session.{LiveSession, is_closed}
use bilive_rec.Model.Segment.{Segment, UploadState, ArtifactResolutionDecision}
use bilive_rec.Model.Submission.{Submission, SubmissionState}
use bilive_rec.Store.Table.{get}
use bilive_rec.Store.Keys.{id_key}
use bilive_rec.Store.Txn.{Env, Db, Txn}
use bilive_rec.Store.Effects.{Quiet, Quiet-pure, Quiet-bind}
use bilive_rec.Transitions.Artifacts.{
  update_recording_artifact, require_recordable, begin_artifact_conflict_resolution,
  begin_artifact_finalization, complete_artifact_finalization, begin_artifact_discard,
  complete_artifact_discard, complete_artifact_conflict_resolution, exclude_artifact_conflict,
}
use bilive_rec.Transitions.Submissions.{
  reconcile_interrupted_remote_attempts, reconcile_upload, reconcile_uploads, reconcile_submission,
  reconcile_submissions,
}
use bilive_rec.Transitions.Guards.{require_or_claim_recovery_owner}
use bilive_rec.Runs.Command.{Command}
use bilive_rec.Runs.Execute.{execute, run, new_store, discard}
use bilive_rec.Rooms.Owned.{Agree, one_session}
use bilive_rec.Rooms.Rules.{
  Own, own, Agreed, Still, Still-Quiet, Still-bind, Still-require_session, Leads-Still, Leads-bind,
  Leads-require_session, Agreeing, Agreeing-Quiet, Agreeing-write,
}
use bilive_rec.Rooms.Claims.{own_quiet, Still-claim, row_of}
use bilive_rec.Rooms.Sessions.{
  create_session-Agreeing, require_recovery-Agreeing, fail_artifact-Agreeing,
}
use bilive_rec.Rooms.Closing.{close_session-Agreeing}
use bilive_rec.Rooms.Others.{
  open_segment-own, begin_artifact_delete-own, complete_artifact_delete-own, begin_upload-own,
  complete_upload-own, schedule_upload_retry-own, schedule_upload_target_retry-own,
  block_upload-own, block_upload_for_target-own, mark_upload_ambiguous-own,
  resolve_upload_not_uploaded-own, resolve_upload_uploaded-own, begin_submission-own,
  complete_submission-own, schedule_submission_retry-own, schedule_submission_target_retry-own,
  block_submission-own, block_submission_for_target-own, mark_submission_ambiguous-own,
  resolve_submission_not_submitted-own, resolve_submission_submitted-own,
}

require_recordable-Still :
    {x : Own} (b : Bool) (id : Uuid) → Agreed x → Still x (require_recordable b id)
require_recordable-Still true id agree = Still-Quiet _ (search own_quiet)
require_recordable-Still false id agree = Still-require_session id _ λ s found.
    Still-bind _ _ (Still-Quiet _ (search own_quiet)) λ _. Still-claim s (row_of id s agree found).1

update_recording_artifact-Agreeing :
    (id : Uuid) (index : ℕ) (require_open : Bool) (update : Segment → Result Segment)
    → Agreeing (update_recording_artifact id index require_open update)
unfolding update_recording_artifact
update_recording_artifact-Agreeing id index require_open update = Agreeing-write _ λ x agree.
    Leads-bind _ _ (require_recordable-Still require_open id agree)
      λ _. Leads-Still _ agree (Still-Quiet _ (search own_quiet depth 9))

begin_artifact_conflict_resolution-Agreeing :
    (id : Uuid) (index : ℕ) (decision : ArtifactResolutionDecision) (remark : Option String)
    → Agreeing (begin_artifact_conflict_resolution id index decision remark)
unfolding begin_artifact_conflict_resolution
begin_artifact_conflict_resolution-Agreeing id index decision remark = Agreeing-write _ λ x agree.
    Leads-require_session id _ λ s found. Leads-bind _ _ (Still-Quiet _ (search own_quiet)) λ _.
      Leads-bind _ _ (Still-claim s (row_of id s agree found).1)
        λ _. Leads-Still _ agree (Still-Quiet _ (search own_quiet depth 9))

reconcile_upload-own : (s : Segment) (u : UploadState) → Quiet own (reconcile_upload s u)
reconcile_upload-own s UploadState.not_planned = Quiet-pure []
reconcile_upload-own s (UploadState.pending _ _ _) = Quiet-pure []
reconcile_upload-own s (UploadState.blocked _ _) = Quiet-pure []
reconcile_upload-own s (UploadState.ambiguous _ _) = Quiet-pure []
reconcile_upload-own s (UploadState.uploaded _) = Quiet-pure []
reconcile_upload-own s (UploadState.cancelled _ _) = Quiet-pure []
reconcile_upload-own s (UploadState.attempting attempt) =
    Quiet-bind _ _ (mark_upload_ambiguous-own _ _ _ _) λ r. Quiet-pure _

reconcile_uploads-own : (segments : List Segment) → Quiet own (reconcile_uploads segments)
unfolding reconcile_uploads
reconcile_uploads-own [] = Quiet-pure []
reconcile_uploads-own (s ∷ segments) =
    Quiet-bind _ _ (reconcile_upload-own s s.upload)
      λ r. Quiet-bind _ _ (reconcile_uploads-own segments) λ r'. Quiet-pure _

reconcile_submission-own :
    (s : Submission) (u : SubmissionState) → Quiet own (reconcile_submission s u)
reconcile_submission-own s (SubmissionState.retry_scheduled _ _ _) = Quiet-pure []
reconcile_submission-own s (SubmissionState.blocked _ _) = Quiet-pure []
reconcile_submission-own s (SubmissionState.ambiguous _ _) = Quiet-pure []
reconcile_submission-own s (SubmissionState.retry_authorized _) = Quiet-pure []
reconcile_submission-own s (SubmissionState.submitted _ _) = Quiet-pure []
reconcile_submission-own s (SubmissionState.attempting attempt) =
    Quiet-bind _ _ (mark_submission_ambiguous-own _ _ _) λ r. Quiet-pure _

reconcile_submissions-own :
    (submissions : List Submission) → Quiet own (reconcile_submissions submissions)
unfolding reconcile_submissions
reconcile_submissions-own [] = Quiet-pure []
reconcile_submissions-own (s ∷ submissions) =
    Quiet-bind _ _ (reconcile_submission-own s s.state)
      λ r. Quiet-bind _ _ (reconcile_submissions-own submissions) λ r'. Quiet-pure _

reconcile-own : Quiet own reconcile_interrupted_remote_attempts
unfolding reconcile_interrupted_remote_attempts
reconcile-own = search (own_quiet, reconcile_uploads-own, reconcile_submissions-own) depth 9

discarded : {A : Type 0} (m : Txn A) → Agreeing m → Agreeing (discard m)
discarded m h = record { at = λ env db g. h.at env db g }

pub execute-Agreeing : (c : Command) → Agreeing (execute c)
unfolding execute begin_artifact_finalization complete_artifact_finalization begin_artifact_discard
    complete_artifact_discard complete_artifact_conflict_resolution exclude_artifact_conflict
execute-Agreeing (Command.create_session a) = discarded _ (create_session-Agreeing a)
execute-Agreeing (Command.open_segment a) = discarded _ (Agreeing-Quiet _ (open_segment-own a))
execute-Agreeing (Command.begin_artifact_finalization a b c) =
    discarded _ (update_recording_artifact-Agreeing a b true _)
execute-Agreeing (Command.complete_artifact_finalization a b) =
    discarded _ (update_recording_artifact-Agreeing a b false _)
execute-Agreeing (Command.begin_artifact_discard a b c) =
    discarded _ (update_recording_artifact-Agreeing a b true _)
execute-Agreeing (Command.complete_artifact_discard a b) =
    discarded _ (update_recording_artifact-Agreeing a b false _)
execute-Agreeing (Command.begin_artifact_conflict_resolution a b c d) =
    discarded _ (begin_artifact_conflict_resolution-Agreeing a b c d)
execute-Agreeing (Command.complete_artifact_conflict_resolution a b) =
    discarded _ (update_recording_artifact-Agreeing a b false _)
execute-Agreeing (Command.exclude_artifact_conflict a b) =
    discarded _ (update_recording_artifact-Agreeing a b false _)
execute-Agreeing (Command.fail_artifact a b c d) = discarded _ (fail_artifact-Agreeing a b c d)
execute-Agreeing (Command.begin_artifact_delete a b) =
    discarded _ (Agreeing-Quiet _ (begin_artifact_delete-own a b))
execute-Agreeing (Command.complete_artifact_delete a b) =
    discarded _ (Agreeing-Quiet _ (complete_artifact_delete-own a b))
execute-Agreeing (Command.require_recovery a b) = discarded _ (require_recovery-Agreeing a b)
execute-Agreeing (Command.close_session a b) = discarded _ (close_session-Agreeing a b)
execute-Agreeing (Command.begin_upload a b c) =
    discarded _ (Agreeing-Quiet _ (begin_upload-own a b c))
execute-Agreeing (Command.complete_upload a b c d) =
    discarded _ (Agreeing-Quiet _ (complete_upload-own a b c d))
execute-Agreeing (Command.schedule_upload_retry a b c d e) =
    discarded _ (Agreeing-Quiet _ (schedule_upload_retry-own a b c d e))
execute-Agreeing (Command.schedule_upload_target_retry a b c d e f) =
    discarded _ (Agreeing-Quiet _ (schedule_upload_target_retry-own a b c d e f))
execute-Agreeing (Command.block_upload a b c d) =
    discarded _ (Agreeing-Quiet _ (block_upload-own a b c d))
execute-Agreeing (Command.block_upload_for_target a b c d) =
    discarded _ (Agreeing-Quiet _ (block_upload_for_target-own a b c d))
execute-Agreeing (Command.mark_upload_ambiguous a b c d) =
    discarded _ (Agreeing-Quiet _ (mark_upload_ambiguous-own a b c d))
execute-Agreeing (Command.resolve_upload_not_uploaded a b c) =
    discarded _ (Agreeing-Quiet _ (resolve_upload_not_uploaded-own a b c))
execute-Agreeing (Command.resolve_upload_uploaded a b c d) =
    discarded _ (Agreeing-Quiet _ (resolve_upload_uploaded-own a b c d))
execute-Agreeing (Command.begin_submission a b) =
    discarded _ (Agreeing-Quiet _ (begin_submission-own a b))
execute-Agreeing (Command.complete_submission a b c d) =
    discarded _ (Agreeing-Quiet _ (complete_submission-own a b c d))
execute-Agreeing (Command.schedule_submission_retry a b c d) =
    discarded _ (Agreeing-Quiet _ (schedule_submission_retry-own a b c d))
execute-Agreeing (Command.schedule_submission_target_retry a b c d e) =
    discarded _ (Agreeing-Quiet _ (schedule_submission_target_retry-own a b c d e))
execute-Agreeing (Command.block_submission a b c) =
    discarded _ (Agreeing-Quiet _ (block_submission-own a b c))
execute-Agreeing (Command.block_submission_for_target a b c) =
    discarded _ (Agreeing-Quiet _ (block_submission_for_target-own a b c))
execute-Agreeing (Command.mark_submission_ambiguous a b c) =
    discarded _ (Agreeing-Quiet _ (mark_submission_ambiguous-own a b c))
execute-Agreeing (Command.resolve_submission_not_submitted a b) =
    discarded _ (Agreeing-Quiet _ (resolve_submission_not_submitted-own a b))
execute-Agreeing (Command.resolve_submission_submitted a b c d) =
    discarded _ (Agreeing-Quiet _ (resolve_submission_submitted-own a b c d))
execute-Agreeing Command.reconcile_interrupted_remote_attempts =
    discarded _ (Agreeing-Quiet _ reconcile-own)

run-keeps_agreement :
    (cs : List Command) (env : Env) (db : Db)
    → Agree db.sessions db.room_states
    → Agree (run cs env db).sessions (run cs env db).room_states
unfolding run
run-keeps_agreement [] env db h = h
run-keeps_agreement (c ∷ cs) env db h =
    run-keeps_agreement cs env _ ((execute-Agreeing c).at env db h)

nothing-Agree : Agree [] []
unfolding get
nothing-Agree = record { session = λ id. tt; room = λ room_id. tt }

module _ (cs : List Command) (env : Env) where
  -- In every store that a run reaches, each session that is not closed finds its room's row in the
  -- state that it asks for, Owned or Blocked by it, and each row that names a session names one that
  -- is stored, not closed, and of that room.
  pub run-Agree : Agree (run cs env new_store).sessions (run cs env new_store).room_states
  run-Agree = run-keeps_agreement cs env new_store nothing-Agree

  -- In every store that a run reaches, two sessions of one room that are not closed are the same.
  pub run-one_session :
      (i j : ℕ) (s t : LiveSession)
      → get (run cs env new_store).sessions i ≡ some s
      → get (run cs env new_store).sessions j ≡ some t
      → s.room_id ≡ t.room_id
      → is_closed s.lifecycle ≡ false
      → is_closed t.lifecycle ≡ false
      → i ≡ j
  run-one_session i j s t at_i at_j same open_s open_t =
      one_session s t run-Agree at_i at_j same open_s open_t

  -- In every store that a run reaches, the claim of a stored session's room changes no session and
  -- no row: the row that it would write is there already.
  pub run-claim :
      (id : Uuid) (s : LiveSession)
      → get (run cs env new_store).sessions id ≡ some s
      → own (require_or_claim_recovery_owner s env (run cs env new_store)).1.tables
        ≡ own (run cs env new_store).tables
  run-claim id s found = (Still-claim s (row_of id s run-Agree found).1).at env _ refl
