-- ===== src/Runs/Recordable.antt =====
-- complete_upload of src/state/transitions.rs on an upload that is being attempted.
use bilive_rec.Prelude.{◌≡◌, refl, ◌∙◌, subst, some, List, arith, ==_iff}
use bilive_rec.Errors.{ok}
use bilive_rec.Model.{Uuid, Timestamp}
use bilive_rec.Model.Segment.{
  Segment, UploadState, UploadAttemptOutcome, RemoteAttempt, UploadedPart,
}
use bilive_rec.Store.Table.{get, put, get-put_self, Each-get}
use bilive_rec.Store.Keys.{SegmentKey, segment_key}
use bilive_rec.Store.Sorted.{Fits}
use bilive_rec.Store.Txn.{Env, Db, write, ◌>>=◌}
use bilive_rec.Transitions.Guards.{require_segment}
use bilive_rec.Transitions.History.{current_upload_attempt, finish_upload_history}
use bilive_rec.Transitions.UploadSteps.{confirm_upload, validate_uploaded_part}
use bilive_rec.Transitions.Uploads.{complete_upload}
use bilive_rec.Segments.Step.{key_of}
use bilive_rec.Segments.Attempts.{OpenAt, finish_attempts-OpenAt}
use bilive_rec.Segments.Sound.{IsSound, HistoryFits}
use bilive_rec.Runs.Command.{Command}
use bilive_rec.Runs.Execute.{run, new_store}
use bilive_rec.Runs.Reachable.{run-IsSound, run-Fits}

current_self :
    (u : UploadState) (a : RemoteAttempt)
    → u ≡ UploadState.attempting a
    → current_upload_attempt u a.id ≡ ok a
unfolding current_upload_attempt
current_self u a e = ground (arith, ==_iff a.id a.id)

confirm-open :
    (s : Segment) (id : Uuid) (proof : UploadedPart) (now : Timestamp)
    → OpenAt id s.upload_attempts
    → (s' : Segment) × (confirm_upload id proof s now ≡ ok s')
      × (s'.upload ≡ UploadState.uploaded proof)
      × (key_of s' ≡ key_of s)
unfolding confirm_upload finish_upload_history
confirm-open s id proof now h =
    let (rs, e, finished, has) =
      finish_attempts-OpenAt s.upload_attempts id now (UploadAttemptOutcome.confirmed proof) h in
    (
      record s { upload_attempts = rs; upload = UploadState.uploaded proof },
      rw (e, confirm_upload, finish_upload_history) refl,
      refl,
      refl,
    )

-- What complete_upload did: it returned the segment that it stored, with the proof.
pub record Recorded (k : SegmentKey) (id : Uuid) (proof : UploadedPart) (env : Env) (db : Db)
    : Type 0 where
  pub segment : Segment
  pub returned : (complete_upload k.0 k.1 id proof env db).0 ≡ ok segment
  pub stored : get (complete_upload k.0 k.1 id proof env db).1.segments k ≡ some segment
  pub uploaded : segment.upload ≡ UploadState.uploaded proof

complete-open :
    (k : SegmentKey) (s : Segment) (a : RemoteAttempt) (proof : UploadedPart) (env : Env) (db : Db)
    → get db.segments k ≡ some s
    → key_of s ≡ k
    → s.upload ≡ UploadState.attempting a
    → OpenAt a.id s.upload_attempts
    → validate_uploaded_part proof ≡ ok tt
    → Recorded k a.id proof env db
unfolding complete_upload write ◌>>=◌ require_segment
complete-open k s a proof env db found own at h valid =
    let (s', e, uploaded, same) = confirm-open s a.id proof (env.clock db.clock_reads) h in
    let current = current_self s.upload a at in
    record {
      segment = s';
      returned = rw (valid, found, current, e) refl;
      stored =
          rw (valid, found, current, e)
            (subst (λ j. get (put (key_of s') s' db.segments) j ≡ some s') (same ∙ own)
              (get-put_self (key_of s') s' db.segments));
      uploaded = uploaded;
    }

-- In every store that a run reaches, an upload that is Attempting takes a valid proof of its attempt:
-- complete_upload succeeds, and stores the segment as Uploaded with that proof.
pub complete_upload-Recorded :
    (cs : List Command) (env : Env) (k : SegmentKey) (s : Segment) (a : RemoteAttempt)
    (proof : UploadedPart)
    → get (run cs env new_store).segments k ≡ some s
    → s.upload ≡ UploadState.attempting a
    → validate_uploaded_part proof ≡ ok tt
    → Recorded k a.id proof env (run cs env new_store)
complete_upload-Recorded cs env k s a proof found at valid =
    let fit = Each-get Fits k _ (run-Fits cs env) found in
    let sound = Each-get (λ k s. IsSound s) k _ (run-IsSound cs env) found in
    complete-open k s a proof env _ found (λ i. (fit.0 i, fit.1 i)) at
      (subst (λ u. HistoryFits u s.upload_attempts) at sound.history) valid
