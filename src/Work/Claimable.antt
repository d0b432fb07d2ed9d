-- ===== src/Work/Claimable.antt =====
-- What the validation has found is what begin_upload asks for.
use bilive_rec.Prelude.{
  ℕ, ◌≡◌, refl, sym, ◌∙◌, ap, subst, Bool, true, false, not, ◌||◌, Option, none, some, [], ◌∷◌,
  ◌++◌, is_some, is_none, FilePath, some_inj,
}
use bilive_rec.Prelude.Outcome
use bilive_rec.Prelude.Outcome.{stop_ok}
use bilive_rec.Errors.{StateError, Result, ok, err, ok_inj}
use bilive_rec.Model.{Timestamp}
use bilive_rec.Model.Session.{LiveSession, permits_upload, upload_plan}
use bilive_rec.Model.Segment.{Segment, RemoteAttempt, UploadState, is_ready, is_pending, is_due}
use bilive_rec.Model.Submission.{Submission}
use bilive_rec.Model.Target.{
  UploadPlan, UploadTarget, UploadTargetGate, UploadTargetState, target_of,
}
use bilive_rec.Store.Table.{get}
use bilive_rec.Store.Keys.{id_key, segment_key, target_key}
use bilive_rec.Store.Txn.{
  Env, Db, Txn, ◌>>=◌, write, fail_if, or_fail, gets, lift, pure, put_segment, ◌>>◌, Tables,
  commit_or_abort,
}
use bilive_rec.Transitions.Guards.{require_session, require_segment}
use bilive_rec.Transitions.Targets.{consume_gate, consume_target_ready, put_target_gate}
use bilive_rec.Transitions.UploadSteps.{claim_upload}
use bilive_rec.Transitions.Uploads.{begin_upload}
use bilive_rec.Segments.Attempts.{has_attempt}
use bilive_rec.Work.Validation.{
  ReadySegmentForUpload, validate_segment, validate_session, validate_ready_segment_for_upload,
  gate_is_ready, upload_target_is_ready,
}

module _ (is_file : FilePath → Bool) (id index : ℕ) (expected : Option FilePath)
    (now : Timestamp) where
  -- A segment that has passed is due.
  pub record IsDueSegment (o : Option Segment) : Type 0 where
    pub segment : Segment
    pub found : o ≡ some segment
    pub due :
        (not (is_ready segment.artifact)
          || not (is_pending segment.upload)
          || not (is_due segment.upload now))
        ≡ false

  segment_passed :
      (o : Option Segment) (r : ReadySegmentForUpload)
      → validate_segment is_file id index expected now o ≡ Outcome.ok r
      → IsDueSegment o
  unfolding validate_segment
  segment_passed none r e = absurd cc
  segment_passed (some segment) r e = record {
    segment = segment;
    found = refl;
    due =
        (stop_ok
          (not (is_ready segment.artifact)
            || not (is_pending segment.upload)
            || not (is_due segment.upload now))
          _ _ r e).0;
  }

  pub record Passed (session : Option LiveSession) (submission : Option Submission)
      (segment : Option Segment) : Type 0 where
    pub live : LiveSession
    pub found : session ≡ some live
    pub permits : not (permits_upload live.lifecycle) ≡ false
    pub planned : is_none (upload_plan live.output_plan) ≡ false
    pub unsubmitted : is_some submission ≡ false
    pub due : IsDueSegment segment

  session-Passed :
      (session : Option LiveSession) (submission : Option Submission) (segment : Option Segment)
      (r : ReadySegmentForUpload)
      → validate_session is_file id index expected now session submission segment ≡ Outcome.ok r
      → Passed session submission segment
  unfolding validate_session
  session-Passed none submission segment r e = absurd cc
  session-Passed (some live) submission segment r e =
      let (permits, e1) = stop_ok (not (permits_upload live.lifecycle)) _ _ r e in
      let (planned, e2) = stop_ok (is_none (upload_plan live.output_plan)) _ _ r e1 in
      let (unsubmitted, e3) = stop_ok (is_some submission) _ _ r e2 in
      record {
        live = live;
        found = refl;
        permits = permits;
        planned = planned;
        unsubmitted = unsubmitted;
        due = segment_passed segment r e3;
      }

-- A step that succeeds, in front of the rest of an action.
bind_ok :
    {A B : Type 0} (m : Txn A) (f : A → Txn B) (env : Env) (db : Db) (a : A) (after : Db)
    → m env db ≡ (ok a, after)
    → (m >>= f) env db ≡ f a env after
unfolding ◌>>=◌
bind_ok m f env db a after e = rw e refl

let_through :
    (b : Bool) (e : StateError) (env : Env) (db : Db) → b ≡ false → fail_if b e env db ≡ (ok tt, db)
unfolding fail_if
let_through true e env db h = cc
let_through false e env db h = refl

or_fail-some :
    {A : Type 0} (o : Option A) (a : A) (e : StateError) (env : Env) (db : Db)
    → o ≡ some a
    → or_fail o e env db ≡ (ok a, db)
unfolding or_fail
or_fail-some none a e env db h = cc
or_fail-some (some b) a e env db h = ap (λ x. (ok x, db)) (some_inj h)

-- A gate that is ready opens, and nothing but the gates is written.
pub record Opened (target : UploadTarget) (now : Timestamp) (env : Env) (db : Db) : Type 0 where
  pub after : Db
  pub opens : consume_target_ready target now env db ≡ (ok tt, after)
  pub same_submissions : after.submissions ≡ db.submissions
  pub same_segments : after.segments ≡ db.segments

gate_opens :
    (target : UploadTarget) (now : Timestamp) (env : Env) (db : Db) (gate : UploadTargetGate)
    → gate_is_ready gate now ≡ true
    → (after : Db) × (consume_gate target now gate env db ≡ (ok tt, after))
      × (after.submissions ≡ db.submissions)
      × (after.segments ≡ db.segments)
unfolding ◌>>=◌
gate_opens target now env db UploadTargetGate.ready h = (db, refl, refl, refl)
gate_opens target now env db (UploadTargetGate.backoff owner n retry_at text) h =
    ((put_target_gate target UploadTargetGate.ready env db).1, rw h refl, refl, refl)
gate_opens target now env db (UploadTargetGate.blocked owner t text) h = cc

target_opens :
    (target : UploadTarget) (now : Timestamp) (env : Env) (db : Db) (st : UploadTargetState)
    → get db.upload_targets target ≡ some st
    → upload_target_is_ready st now ≡ true
    → Opened target now env db
unfolding consume_target_ready upload_target_is_ready gets
target_opens target now env db st found h =
    let (after, opens, subs, segs) = gate_opens target now env db st.gate h in
    record {
      after = after;
      opens =
          bind_ok _ _ env db (get db.upload_targets target) db refl
          ∙ bind_ok _ _ env db st db (or_fail-some _ st _ env db found)
          ∙ opens;
      same_submissions = subs;
      same_segments = segs;
    }

claim_lem :
    (attempt : RemoteAttempt) (segment : Segment)
    → (not (is_ready segment.artifact)
        || not (is_pending segment.upload)
        || not (is_due segment.upload attempt.started_at))
      ≡ false
    → has_attempt attempt.id segment.upload_attempts ≡ false
    → (claimed : Segment) × (claim_upload attempt segment ≡ ok claimed)
unfolding claim_upload
claim_lem attempt segment due fresh = (
  record segment {
    upload_attempts =
        segment.upload_attempts
        ++ record { attempt = attempt; finished_at = none; outcome = none } ∷ [];
    upload = UploadState.attempting attempt;
  },
  rw (claim_upload, due, fresh) refl,
)

committed :
    {A : Type 0} (r : Result A) (before : Tables) (after : Db) (a : A)
    → r ≡ ok a
    → (commit_or_abort r before after).0 ≡ ok a
committed (ok b) before after a e = e
committed (err f) before after a e = cc

written :
    {A : Type 0} (m : Txn A) (env : Env) (db : Db) (a : A)
    → (m env db).0 ≡ ok a
    → (write m env db).0 ≡ ok a
unfolding write
written m env db a e = committed (m env db).0 db.tables (m env db).1 a e

not_some : {A : Type 0} (o : Option A) → is_none o ≡ false → (a : A) × (o ≡ some a)
not_some none h = cc
not_some (some a) h = (a, refl)

put_lem :
    (s : Segment) (env : Env) (db : Db)
    → (put_segment s >> pure s) env db ≡ (ok s, (put_segment s env db).1)
unfolding ◌>>=◌
put_lem s env db = refl

-- What validation says of the store that it reads.
store-Passed :
    (is_file : FilePath → Bool) (id index : ℕ) (expected : Option FilePath) (now : Timestamp)
    (r : ReadySegmentForUpload) (env : Env) (db : Db)
    → (validate_ready_segment_for_upload is_file id index expected now env db).0 ≡ ok (Outcome.ok r)
    → Passed is_file id index expected now
        (get db.sessions id)
        (get db.submissions id)
        (get db.segments (id, index))
unfolding validate_ready_segment_for_upload ◌>>=◌ gets
store-Passed is_file id index expected now r env db e =
    session-Passed is_file id index expected now _ _ _ r (ok_inj e)

-- An upload that validation lets through can be begun, if its target's gate is ready and the
-- identifier of the attempt is new.
pub begin_upload-ok :
    (is_file : FilePath → Bool) (id index : ℕ) (expected : Option FilePath)
    (attempt : RemoteAttempt) (r : ReadySegmentForUpload) (env : Env) (db : Db)
    → (validate_ready_segment_for_upload is_file id index expected attempt.started_at env db).0
      ≡ ok (Outcome.ok r)
    → ((session : LiveSession) (plan : UploadPlan)
        → get db.sessions id ≡ some session
        → upload_plan session.output_plan ≡ some plan
        → (st : UploadTargetState) × (get db.upload_targets (target_of plan) ≡ some st)
          × (upload_target_is_ready st attempt.started_at ≡ true))
    → ((segment : Segment)
        → get db.segments (id, index) ≡ some segment
        → has_attempt attempt.id segment.upload_attempts ≡ false)
    → (claimed : Segment) × ((begin_upload id index attempt env db).0 ≡ ok claimed)
unfolding begin_upload require_session require_segment gets lift
begin_upload-ok is_file id index expected attempt r env db valid target fresh =
    let p = store-Passed is_file id index expected attempt.started_at r env db valid in
    let (plan, planned) = not_some _ p.planned in
    let (st, found, is_open) = target p.live plan p.found planned in
    let opened = target_opens (target_of plan) attempt.started_at env db st found is_open in
    let (claimed, claim) =
      claim_lem attempt p.due.segment p.due.due (fresh p.due.segment p.due.found) in
    let after = opened.after in
    let unsubmitted : is_some (get after.submissions id) ≡ false =
      subst (λ m. is_some (get m id) ≡ false) (sym opened.same_submissions) p.unsubmitted in
    let stored : get after.segments (id, index) ≡ some p.due.segment =
      subst (λ m. get m (id, index) ≡ some p.due.segment) (sym opened.same_segments) p.due.found in
    (
      claimed,
      written _ env db claimed (
          ap (λ x. x.0)
            (bind_ok _ _ env db p.live db (
                bind_ok _ _ env db (get db.sessions id) db refl
                ∙ or_fail-some _ p.live _ env db p.found)
              ∙ bind_ok _ _ env db tt db (let_through _ _ env db p.permits)
              ∙ bind_ok _ _ env db plan db (or_fail-some _ plan _ env db planned)
              ∙ bind_ok _ _ env db tt after opened.opens
              ∙ bind_ok _ _ env after (get after.submissions id) after refl
              ∙ bind_ok _ _ env after tt after (let_through _ _ env after unsubmitted)
              ∙ bind_ok _ _ env after p.due.segment after (
                  bind_ok _ _ env after (get after.segments (id, index)) after refl
                  ∙ or_fail-some _ p.due.segment _ env after stored)
              ∙ bind_ok _ _ env after claimed after (ap (λ c. (c, after)) claim)
              ∙ put_lem claimed env after)),
    )
