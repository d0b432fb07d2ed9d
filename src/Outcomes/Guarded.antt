-- ===== src/Outcomes/Guarded.antt =====
-- begin_artifact_delete of src/state/transitions.rs, taken apart.
use bilive_rec.Prelude.{
  ℕ, ◌≡◌, refl, Bool, true, false, not, Option, none, some, is_some_and, arith,
}
use bilive_rec.Errors.{ok}
use bilive_rec.Model.{Uuid}
use bilive_rec.Model.Session.{LiveSession, permits_submission, upload_plan}
use bilive_rec.Model.Target.{UploadPlan}
use bilive_rec.Model.Segment.{Segment, is_ready, is_uploaded}
use bilive_rec.Model.Submission.{Submission, is_submitted}
use bilive_rec.Store.Table.{get}
use bilive_rec.Store.Keys.{id_key, segment_key}
use bilive_rec.Store.Txn.{Env, Db, Txn, ◌>>=◌}
use bilive_rec.Transitions.Guards.{require_session, require_segment}
use bilive_rec.Transitions.Artifacts.{begin_artifact_delete, mark_deleting}
use bilive_rec.Outcomes.Inversion.{
  Returns, Returns-write, Returns-gets, Returns-fail_if, Returns-or_fail, Returns-lift,
}

module _ {B : Type 0} (env : Env) (db : Db) {b : B} where
  pub Returns-require_session :
      (id : Uuid) (f : LiveSession → Txn B)
      → Returns (require_session id >>= f) env db b
      → (s : LiveSession) × (get db.sessions id ≡ some s) × Returns (f s) env db b
  unfolding require_session ◌>>=◌
  Returns-require_session id f h = Returns-or_fail env db (get db.sessions id) _ f h

  Returns-require_segment :
      (id : Uuid) (index : ℕ) (f : Segment → Txn B)
      → Returns (require_segment id index >>= f) env db b
      → (s : Segment) × (get db.segments (id, index) ≡ some s) × Returns (f s) env db b
  unfolding require_segment ◌>>=◌
  Returns-require_segment id index f h = Returns-or_fail env db (get db.segments (id, index)) _ f h

-- The session is Completed and its plan asks for deletion, its submission is Submitted, and the
-- segment is Ready and Uploaded.
pub record MayDelete (db : Db) (id : Uuid) (index : ℕ) : Type 0 where
  pub session : LiveSession
  pub plan : UploadPlan
  pub submission : Submission
  pub segment : Segment
  pub session_found : get db.sessions id ≡ some session
  pub completed : permits_submission session.lifecycle ≡ true
  pub planned : upload_plan session.output_plan ≡ some plan
  pub wanted : plan.delete_after_submit ≡ true
  pub submission_found : get db.submissions id ≡ some submission
  pub submitted : is_submitted submission.state ≡ true
  pub segment_found : get db.segments (id, index) ≡ some segment
  pub ready : is_ready segment.artifact ≡ true
  pub uploaded : is_uploaded segment.upload ≡ true

wanted_plan :
    (o : Option UploadPlan)
    → not (is_some_and o (λ plan. plan.delete_after_submit)) ≡ false
    → (plan : UploadPlan) × (o ≡ some plan) × (plan.delete_after_submit ≡ true)
wanted_plan none h = cc
wanted_plan (some plan) h = (plan, refl, ground arith)

pub not-false : (b : Bool) → not b ≡ false → b ≡ true
not-false b h = ground arith

deletable :
    (s s' : Segment)
    → mark_deleting s ≡ ok s'
    → (is_ready s.artifact ≡ true) × (is_uploaded s.upload ≡ true)
deletable s s' h = ground arith

-- If begin_artifact_delete succeeds, then the session is Completed and its plan asks for deletion
-- after submission, its submission is Submitted, and the segment is Ready and Uploaded.
pub begin_artifact_delete-MayDelete :
    (id : Uuid) (index : ℕ) (env : Env) (db : Db) (s : Segment)
    → (begin_artifact_delete id index env db).0 ≡ ok s
    → MayDelete db id index
unfolding begin_artifact_delete
begin_artifact_delete-MayDelete id index env db s h =
    let (session, session_found, h1) =
      Returns-require_session env db id _ (Returns-write env db _ h) in
    let (completed, h2) = Returns-fail_if env db _ _ _ h1 in
    let (planning, h3) = Returns-fail_if env db _ _ _ h2 in
    let (plan, planned, wanted) = wanted_plan (upload_plan session.output_plan) planning in
    let h4 = Returns-gets env db _ _ h3 in
    let (submission, submission_found, h5) = Returns-or_fail env db _ _ _ h4 in
    let (submitted, h6) = Returns-fail_if env db _ _ _ h5 in
    let (segment, segment_found, h7) = Returns-require_segment env db id index _ h6 in
    let (segment', marked, h8) = Returns-lift env db _ _ h7 in
    let (ready, uploaded) = deletable segment segment' marked in
    record {
      session = session;
      plan = plan;
      submission = submission;
      segment = segment;
      session_found = session_found;
      completed = not-false _ completed;
      planned = planned;
      wanted = wanted;
      submission_found = submission_found;
      submitted = not-false _ submitted;
      segment_found = segment_found;
      ready = ready;
      uploaded = uploaded;
    }
