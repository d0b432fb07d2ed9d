-- ===== src/Work/Queue.antt =====
-- src/uploader/work.rs: the operations that remain to be done, whatever rooms are configured.
use bilive_rec.Prelude.{
  ℕ, Bool, true, false, not, ◌&&◌, ◌||◌, Option, none, some, List, [], ◌∷◌, ◌++◌, any, is_some,
  is_some_and, if◌then◌else◌,
}
use bilive_rec.Model.{Uuid}
use bilive_rec.Model.Session.{
  LiveSession, OutputPlan, permits_upload, permits_submission, upload_plan,
}
use bilive_rec.Model.Segment.{Segment, is_ready, is_pending, is_uploaded}
use bilive_rec.Model.Submission.{Submission, SubmissionState, is_submitted}
use bilive_rec.Model.Target.{UploadPlan, UploadTarget, UploadTargetGate, target_of}
use bilive_rec.Store.Table.{get, values}
use bilive_rec.Store.Keys.{id_key, target_key}
use bilive_rec.Store.Range.{range_scan}
use bilive_rec.Store.Txn.{Tables, Txn, gets}
use bilive_rec.Work.Reconcile.{is_ready_for_submission, reconcile_session_uploads}

pub data DurableWork : Type 0 where
  cleanup : Uuid → DurableWork
  upload : Uuid → ℕ → UploadTarget → DurableWork
  submission : Uuid → UploadTarget → DurableWork

abbrev pub upload_by : LiveSession → Segment → Option UploadPlan → List DurableWork
unfolding target_of
upload_by session segment none = []
upload_by session segment (some plan) = upload session.id segment.index (target_of plan) ∷ []

abbrev pub upload_in : Tables → Segment → Option LiveSession → List DurableWork
unfolding permits_upload get upload_plan upload_by
upload_in tables segment none = []
upload_in tables segment (some session) =
    if not (permits_upload session.lifecycle) || is_some (get tables.submissions session.id)
    then []
    else upload_by session segment (upload_plan session.output_plan)

-- The first loop, for one segment.
unfoldable pub upload_work : Tables → Segment → List DurableWork
unfolding is_ready is_pending upload_in
upload_work tables segment =
    if not (is_ready segment.artifact) || not (is_pending segment.upload)
    then []
    else upload_in tables segment (get tables.sessions segment.session_id)

abbrev pub is_to_repeat : SubmissionState → Bool
is_to_repeat (SubmissionState.retry_scheduled _ _ _) = true
is_to_repeat (SubmissionState.retry_authorized _) = true
is_to_repeat _ = false

abbrev pub submission_by :
    List Segment → LiveSession → UploadPlan → Option Submission → List DurableWork
unfolding is_ready_for_submission reconcile_session_uploads is_submitted is_ready is_uploaded any
    target_of
submission_by segments session plan none =
    if is_ready_for_submission (reconcile_session_uploads segments)
    then submission session.id (target_of plan) ∷ []
    else []
submission_by segments session plan (some found) =
    if is_to_repeat found.state
    then submission session.id (target_of plan) ∷ []
    else if is_submitted found.state
        && plan.delete_after_submit
        && any (λ s. is_ready s.artifact && is_uploaded s.upload) segments
    then cleanup session.id ∷ []
    else []

abbrev pub submission_in : Tables → LiveSession → OutputPlan → List DurableWork
unfolding submission_by get range_scan
submission_in tables session OutputPlan.local_only = []
submission_in tables session (OutputPlan.bilibili plan spec) =
    submission_by (range_scan session.id tables.segments) session plan
      (get tables.submissions session.id)

-- The second loop, for one session.
unfoldable pub submission_work : Tables → LiveSession → List DurableWork
unfolding permits_submission submission_in
submission_work tables session =
    if not (permits_submission session.lifecycle)
    then []
    else submission_in tables session session.output_plan

abbrev pub all_work : {A : Type 0} → (A → List DurableWork) → List A → List DurableWork
all_work f [] = []
all_work f (x ∷ xs) = f x ++ all_work f xs

-- The store is only read, so that the reads are of one state.
unfoldable pub pending_work : Tables → List DurableWork
unfolding upload_work submission_work
pending_work tables =
    all_work (upload_work tables) (values tables.segments)
    ++ all_work (submission_work tables) (values tables.sessions)

unfoldable pub pending_durable_work : Txn (List DurableWork)
unfolding pending_work gets
pending_durable_work = gets pending_work

abbrev pub is_blocked : UploadTargetGate → Bool
is_blocked (UploadTargetGate.blocked _ _ _) = true
is_blocked _ = false

module _ (has_uploader : UploadTarget → Bool) where
  abbrev pub serves : Tables → UploadTarget → Bool
  unfolding get
  serves tables target =
      has_uploader target
      && is_some_and (get tables.upload_targets target) (λ state. not (is_blocked state.gate))

  abbrev pub is_executable : Tables → DurableWork → Bool
  unfolding serves
  is_executable tables (cleanup id) = true
  is_executable tables (upload id index target) = serves tables target
  is_executable tables (submission id target) = serves tables target

  unfoldable pub has_executable_durable_work : Txn Bool
  unfolding pending_work is_executable any gets
  has_executable_durable_work = gets λ tables. any (is_executable tables) (pending_work tables)
