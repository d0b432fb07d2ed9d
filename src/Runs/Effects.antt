-- ===== src/Runs/Effects.antt =====
-- Every command of a run evolves the table of segments by steps of its segments.
use bilive_rec.Prelude.{refl, sym, subst, List, [], ◌∷◌, inl, inr}
use bilive_rec.Errors.{Result, ok, err}
use bilive_rec.Transitions.Uploads.{mark_upload_ambiguous}
use bilive_rec.Model.Segment.{Segment, UploadState}
use bilive_rec.Model.Submission.{Submission, SubmissionState}
use bilive_rec.Store.Table.{Each}
use bilive_rec.Store.Sorted.{IsSorted, Fits}
use bilive_rec.Store.Txn.{Env, Db, Txn, continue, ◌>>=◌}
use bilive_rec.Store.Effects.{
  Quiet, Changed, Quiet-pure, Quiet-bind, Effect-Quiet, Effect-Quiet_rest, Effect-bind,
}
use bilive_rec.Transitions.Submissions.{
  reconcile_interrupted_remote_attempts, reconcile_upload, reconcile_uploads, reconcile_submission,
  reconcile_submissions, schedule_submission_retry, block_submission, block_submission_for_target,
  mark_submission_ambiguous, resolve_submission_not_submitted,
}
use bilive_rec.Transitions.Close.{CloseSessionRequest}
use bilive_rec.Segments.Step.{Segments, Actor, Evolves, here}
use bilive_rec.Segments.Keys.{Evolves-trans, Evolves-IsSorted, Evolves-Fits}
use bilive_rec.Segments.Rules.{segments_of, segments_quiet, Evolving}
use bilive_rec.Segments.Refines.{
  Evolving-begin_artifact_finalization, Evolving-complete_artifact_finalization,
  Evolving-begin_artifact_discard, Evolving-complete_artifact_discard,
  Evolving-begin_artifact_conflict_resolution, Evolving-complete_artifact_conflict_resolution,
  Evolving-exclude_artifact_conflict, Evolving-begin_artifact_delete,
  Evolving-complete_artifact_delete, Evolving-begin_upload, Evolving-complete_upload,
  Evolving-schedule_upload_retry, Evolving-schedule_upload_target_retry, Evolving-block_upload,
  Evolving-block_upload_for_target, Evolving-mark_upload_ambiguous,
  Evolving-resolve_upload_not_uploaded, Evolving-resolve_upload_uploaded,
}
use bilive_rec.Segments.Closing.{
  Evolving-open_segment, Evolving-fail_artifact, Evolving-close_session,
}
use bilive_rec.Runs.Command.{Command, MayGive}
use bilive_rec.Runs.Execute.{execute, run}
use bilive_rec.Runs.Quiet.{
  begin_submission-Quiet, complete_submission-Quiet, create_session-Quiet,
  finish_submission_attempt-Quiet, require_recovery-Quiet, resolve_submission_as-Quiet,
  resolve_submission_submitted-Quiet, schedule_submission_target_retry-Quiet,
}

evolved : {a : Actor} {x y : Segments} → Changed (Evolves a) x y → Evolves a x y
evolved {a} {x} (inl e) = subst (Evolves a x) (sym e) here
evolved (inr ev) = ev

module _ {A : Type 0} {a : Actor} (env : Env) (db : Db) (m : Txn A) where
  after-Evolves : Evolving a db.segments m → Evolves a db.segments (m env db).1.segments
  after-Evolves h = evolved (h.at env db refl)

  still-Evolves : Quiet segments_of m → Evolves a db.segments (m env db).1.segments
  still-Evolves q = subst (Evolves a db.segments) (sym (q.same env db)) here

module _ {A B : Type 0} {a : Actor} where
  continue-Evolves :
      (r : Result A) (f : A → Txn B) (env : Env) (db : Db) (x : Segments)
      → Evolves a x db.segments
      → ((r : A) (y : Segments) → Evolving a y (f r))
      → Evolves a x (continue r f env db).1.segments
  continue-Evolves (ok r) f env db x h k = Evolves-trans h (evolved ((k r _).at env db refl))
  continue-Evolves (err e) f env db x h k = h

  -- Two actions in a row, each of which evolves every table.
  Evolving-seq :
      (m : Txn A) (f : A → Txn B)
      → ((x : Segments) → Evolving a x m)
      → ((r : A) (x : Segments) → Evolving a x (f r))
      → (x : Segments) → Evolving a x (m >>= f)
  unfolding ◌>>=◌
  Evolving-seq m f h k x = record {
    at = λ env db e. inr (continue-Evolves (m env db).0 f env _ x (evolved ((h x).at env db e)) k);
  }

Evolving-reconcile_upload :
    {a : Actor} (s : Segment) (u : UploadState) (x : Segments) → Evolving a x (reconcile_upload s u)
unfolding mark_upload_ambiguous
Evolving-reconcile_upload s (UploadState.attempting attempt) x =
    Effect-Quiet_rest _ _ (Evolving-mark_upload_ambiguous _ _ _ _) λ r. Quiet-pure _
Evolving-reconcile_upload s UploadState.not_planned x = Effect-Quiet _ (Quiet-pure [])
Evolving-reconcile_upload s (UploadState.pending _ _ _) x = Effect-Quiet _ (Quiet-pure [])
Evolving-reconcile_upload s (UploadState.blocked _ _) x = Effect-Quiet _ (Quiet-pure [])
Evolving-reconcile_upload s (UploadState.ambiguous _ _) x = Effect-Quiet _ (Quiet-pure [])
Evolving-reconcile_upload s (UploadState.uploaded _) x = Effect-Quiet _ (Quiet-pure [])
Evolving-reconcile_upload s (UploadState.cancelled _ _) x = Effect-Quiet _ (Quiet-pure [])

Evolving-reconcile_uploads :
    {a : Actor} (segments : List Segment) (x : Segments) → Evolving a x (reconcile_uploads segments)
unfolding reconcile_uploads
Evolving-reconcile_uploads [] x = Effect-Quiet _ (Quiet-pure [])
Evolving-reconcile_uploads (s ∷ segments) x =
    Evolving-seq _ _ (Evolving-reconcile_upload s s.upload)
      (λ r x'. Effect-Quiet_rest _ _ (Evolving-reconcile_uploads segments x') λ r'. Quiet-pure _) x

reconcile_submission-Quiet :
    (s : Submission) (state : SubmissionState) → Quiet segments_of (reconcile_submission s state)
unfolding mark_submission_ambiguous
reconcile_submission-Quiet s (SubmissionState.attempting attempt) =
    Quiet-bind _ _ (finish_submission_attempt-Quiet _ _ _ _) λ r. Quiet-pure _
reconcile_submission-Quiet s (SubmissionState.retry_scheduled _ _ _) = Quiet-pure []
reconcile_submission-Quiet s (SubmissionState.blocked _ _) = Quiet-pure []
reconcile_submission-Quiet s (SubmissionState.ambiguous _ _) = Quiet-pure []
reconcile_submission-Quiet s (SubmissionState.retry_authorized _) = Quiet-pure []
reconcile_submission-Quiet s (SubmissionState.submitted _ _) = Quiet-pure []

reconcile_submissions-Quiet :
    (submissions : List Submission) → Quiet segments_of (reconcile_submissions submissions)
unfolding reconcile_submissions
reconcile_submissions-Quiet [] = Quiet-pure []
reconcile_submissions-Quiet (s ∷ submissions) =
    Quiet-bind _ _ (reconcile_submission-Quiet s s.state)
      λ r. Quiet-bind _ _ (reconcile_submissions-Quiet submissions) λ r'. Quiet-pure _

Evolving-reconcile : {a : Actor} (x : Segments) → Evolving a x reconcile_interrupted_remote_attempts
unfolding reconcile_interrupted_remote_attempts
Evolving-reconcile x = Effect-bind _ _ (search segments_quiet) λ segments.
    Effect-Quiet_rest _ _ (Evolving-reconcile_uploads segments x)
      λ uploads. search (segments_quiet, reconcile_submissions-Quiet)

pub execute-Evolves :
    {actor : Actor} (c : Command)
    → MayGive actor c
    → (env : Env) (db : Db) → IsSorted db.segments
    → Each Fits db.segments
    → Evolves actor db.segments (execute c env db).1.segments
unfolding execute schedule_submission_retry block_submission block_submission_for_target
    mark_submission_ambiguous resolve_submission_not_submitted
execute-Evolves (Command.create_session a) by env db sorted fits =
    still-Evolves env db _ (create_session-Quiet a)
execute-Evolves (Command.open_segment a) by env db sorted fits =
    after-Evolves env db _ (Evolving-open_segment a)
execute-Evolves (Command.begin_artifact_finalization a b c) by env db sorted fits =
    after-Evolves env db _ (Evolving-begin_artifact_finalization a b c)
execute-Evolves (Command.complete_artifact_finalization a b) by env db sorted fits =
    after-Evolves env db _ (Evolving-complete_artifact_finalization a b)
execute-Evolves (Command.begin_artifact_discard a b c) by env db sorted fits =
    after-Evolves env db _ (Evolving-begin_artifact_discard a b c)
execute-Evolves (Command.complete_artifact_discard a b) by env db sorted fits =
    after-Evolves env db _ (Evolving-complete_artifact_discard a b)
execute-Evolves (Command.begin_artifact_conflict_resolution a b c d) by env db sorted fits =
    after-Evolves env db _ (Evolving-begin_artifact_conflict_resolution a b c d)
execute-Evolves (Command.complete_artifact_conflict_resolution a b) by env db sorted fits =
    after-Evolves env db _ (Evolving-complete_artifact_conflict_resolution a b)
execute-Evolves (Command.exclude_artifact_conflict a b) by env db sorted fits =
    after-Evolves env db _ (Evolving-exclude_artifact_conflict a b)
execute-Evolves (Command.fail_artifact a b c d) by env db sorted fits =
    after-Evolves env db _ (Evolving-fail_artifact a b c d)
execute-Evolves (Command.begin_artifact_delete a b) by env db sorted fits =
    after-Evolves env db _ (Evolving-begin_artifact_delete a b)
execute-Evolves (Command.complete_artifact_delete a b) by env db sorted fits =
    after-Evolves env db _ (Evolving-complete_artifact_delete a b)
execute-Evolves (Command.require_recovery a b) by env db sorted fits =
    still-Evolves env db _ (require_recovery-Quiet a b)
execute-Evolves (Command.close_session a b) by env db sorted fits =
    after-Evolves env db _ (Evolving-close_session _ a b by sorted fits)
execute-Evolves (Command.begin_upload a b c) by env db sorted fits =
    after-Evolves env db _ (Evolving-begin_upload a b c)
execute-Evolves (Command.complete_upload a b c d) by env db sorted fits =
    after-Evolves env db _ (Evolving-complete_upload a b c d)
execute-Evolves (Command.schedule_upload_retry a b c d e) by env db sorted fits =
    after-Evolves env db _ (Evolving-schedule_upload_retry a b c d e)
execute-Evolves (Command.schedule_upload_target_retry a b c d e f) by env db sorted fits =
    after-Evolves env db _ (Evolving-schedule_upload_target_retry a b c d e f)
execute-Evolves (Command.block_upload a b c d) by env db sorted fits =
    after-Evolves env db _ (Evolving-block_upload a b c d)
execute-Evolves (Command.block_upload_for_target a b c d) by env db sorted fits =
    after-Evolves env db _ (Evolving-block_upload_for_target a b c d)
execute-Evolves (Command.mark_upload_ambiguous a b c d) by env db sorted fits =
    after-Evolves env db _ (Evolving-mark_upload_ambiguous a b c d)
execute-Evolves (Command.resolve_upload_not_uploaded a b c) by env db sorted fits =
    after-Evolves env db _ (Evolving-resolve_upload_not_uploaded a b by c)
execute-Evolves (Command.resolve_upload_uploaded a b c d) by env db sorted fits =
    after-Evolves env db _ (Evolving-resolve_upload_uploaded a b by c d)
execute-Evolves (Command.begin_submission a b) by env db sorted fits =
    still-Evolves env db _ (begin_submission-Quiet a b)
execute-Evolves (Command.complete_submission a b c d) by env db sorted fits =
    still-Evolves env db _ (complete_submission-Quiet a b c d)
execute-Evolves (Command.schedule_submission_retry a b c d) by env db sorted fits =
    still-Evolves env db _ (finish_submission_attempt-Quiet _ _ _ _)
execute-Evolves (Command.schedule_submission_target_retry a b c d e) by env db sorted fits =
    still-Evolves env db _ (schedule_submission_target_retry-Quiet a b c d e)
execute-Evolves (Command.block_submission a b c) by env db sorted fits =
    still-Evolves env db _ (finish_submission_attempt-Quiet _ _ _ _)
execute-Evolves (Command.block_submission_for_target a b c) by env db sorted fits =
    still-Evolves env db _ (finish_submission_attempt-Quiet _ _ _ _)
execute-Evolves (Command.mark_submission_ambiguous a b c) by env db sorted fits =
    still-Evolves env db _ (finish_submission_attempt-Quiet _ _ _ _)
execute-Evolves (Command.resolve_submission_not_submitted a b) by env db sorted fits =
    still-Evolves env db _ (resolve_submission_as-Quiet _ _ _ _)
execute-Evolves (Command.resolve_submission_submitted a b c d) by env db sorted fits =
    still-Evolves env db _ (resolve_submission_submitted-Quiet a b c d)
execute-Evolves Command.reconcile_interrupted_remote_attempts by env db sorted fits =
    after-Evolves env db _ (Evolving-reconcile _)

-- The commands of a run, each given by `a` alone or by an operator.
abbrev pub AllMayGive : Actor → List Command → Type 0
AllMayGive a [] = Unit
AllMayGive a (c ∷ cs) = MayGive a c × AllMayGive a cs

pub run-Evolves :
    {actor : Actor} (cs : List Command)
    → AllMayGive actor cs
    → (env : Env) (db : Db) → IsSorted db.segments
    → Each Fits db.segments
    → Evolves actor db.segments (run cs env db).segments
unfolding run
run-Evolves [] by env db sorted fits = here
run-Evolves (c ∷ cs) by env db sorted fits =
    let ev = execute-Evolves c by.0 env db sorted fits in
    Evolves-trans ev (run-Evolves cs by.1 env _ (Evolves-IsSorted ev sorted) (Evolves-Fits ev fits))

-- An operator may give every command.
human-MayGive : (c : Command) → MayGive Actor.human c
human-MayGive (Command.create_session _) = tt
human-MayGive (Command.open_segment _) = tt
human-MayGive (Command.begin_artifact_finalization _ _ _) = tt
human-MayGive (Command.complete_artifact_finalization _ _) = tt
human-MayGive (Command.begin_artifact_discard _ _ _) = tt
human-MayGive (Command.complete_artifact_discard _ _) = tt
human-MayGive (Command.begin_artifact_conflict_resolution _ _ _ _) = tt
human-MayGive (Command.complete_artifact_conflict_resolution _ _) = tt
human-MayGive (Command.exclude_artifact_conflict _ _) = tt
human-MayGive (Command.fail_artifact _ _ _ _) = tt
human-MayGive (Command.begin_artifact_delete _ _) = tt
human-MayGive (Command.complete_artifact_delete _ _) = tt
human-MayGive (Command.require_recovery _ _) = tt
human-MayGive (Command.begin_upload _ _ _) = tt
human-MayGive (Command.complete_upload _ _ _ _) = tt
human-MayGive (Command.schedule_upload_retry _ _ _ _ _) = tt
human-MayGive (Command.schedule_upload_target_retry _ _ _ _ _ _) = tt
human-MayGive (Command.block_upload _ _ _ _) = tt
human-MayGive (Command.block_upload_for_target _ _ _ _) = tt
human-MayGive (Command.mark_upload_ambiguous _ _ _ _) = tt
human-MayGive (Command.resolve_upload_not_uploaded _ _ _) = refl
human-MayGive (Command.resolve_upload_uploaded _ _ _ _) = refl
human-MayGive (Command.begin_submission _ _) = tt
human-MayGive (Command.complete_submission _ _ _ _) = tt
human-MayGive (Command.schedule_submission_retry _ _ _ _) = tt
human-MayGive (Command.schedule_submission_target_retry _ _ _ _ _) = tt
human-MayGive (Command.block_submission _ _ _) = tt
human-MayGive (Command.block_submission_for_target _ _ _) = tt
human-MayGive (Command.mark_submission_ambiguous _ _ _) = tt
human-MayGive (Command.resolve_submission_not_submitted _ _) = tt
human-MayGive (Command.resolve_submission_submitted _ _ _ _) = tt
human-MayGive Command.reconcile_interrupted_remote_attempts = tt
human-MayGive (Command.close_session _ (CloseSessionRequest.natural _)) = tt
human-MayGive (Command.close_session _ (CloseSessionRequest.recover _ _)) = tt
human-MayGive (Command.close_session _ (CloseSessionRequest.abandon _)) = refl

pub all-MayGive : (cs : List Command) → AllMayGive Actor.human cs
all-MayGive [] = tt
all-MayGive (c ∷ cs) = (human-MayGive c, all-MayGive cs)
