-- ===== src/Runs/Atomic.antt =====
-- What a transition of src/state/transitions.rs leaves when it fails.
use bilive_rec.Prelude.{◌≡◌, refl, ◌∙◌, Bool, true, false}
use bilive_rec.Prelude.{ℕ, String, Option}
use bilive_rec.Model.{Uuid, Timestamp}
use bilive_rec.Model.Session.{LiveSession}
use bilive_rec.Model.Segment.{Segment, SegmentCloseReason, UploadedPart}
use bilive_rec.Errors.{Result, ok, err, AppError}
use bilive_rec.Store.Txn.{Env, Db, Tables, Txn, commit_or_abort, write, continue, ◌>>=◌}
use bilive_rec.Store.Effects.{Quiet, quiet_rules}
use bilive_rec.Transitions.Sessions.{create_session, fail_artifact, require_recovery}
use bilive_rec.Transitions.Artifacts.{
  open_segment, begin_artifact_finalization, complete_artifact_finalization, begin_artifact_discard,
  complete_artifact_discard, begin_artifact_conflict_resolution,
  complete_artifact_conflict_resolution, exclude_artifact_conflict, begin_artifact_delete,
  complete_artifact_delete, update_artifact, update_recording_artifact,
}
use bilive_rec.Transitions.Close.{close_session}
use bilive_rec.Transitions.Uploads.{
  begin_upload, complete_upload, schedule_upload_retry, schedule_upload_target_retry, block_upload,
  block_upload_for_target, mark_upload_ambiguous, resolve_upload_not_uploaded,
  resolve_upload_uploaded, finish_upload_attempt, resolve_upload_as,
}
use bilive_rec.Transitions.Submissions.{
  begin_submission, complete_submission, schedule_submission_retry,
  schedule_submission_target_retry, block_submission, block_submission_for_target,
  mark_submission_ambiguous, resolve_submission_not_submitted, resolve_submission_submitted,
  finish_submission_attempt, resolve_submission_as,
}
use bilive_rec.Runs.Quiet.{validate_new_upload-Quiet}
use bilive_rec.Runs.Command.{Command}
use bilive_rec.Runs.Execute.{execute, outcome, discard}

abbrev everything : Tables → Tables
everything t = t

-- An action that fails leaves all tables as they were.
pub record IsAtomic {A : Type 0} (m : Txn A) : Type 0 where
  pub unchanged :
      (env : Env) (db : Db) (e : AppError) → (m env db).0 ≡ err e → (m env db).1.tables ≡ db.tables

module _ {A : Type 0} where
  aborted :
      (r : Result A) (before : Tables) (after : Db) (e : AppError)
      → (commit_or_abort r before after).0 ≡ err e
      → (commit_or_abort r before after).1.tables ≡ before
  aborted (ok a) before after e h = cc
  aborted (err f) before after e h = refl

  write-IsAtomic : (m : Txn A) → IsAtomic (write m)
  unfolding write
  write-IsAtomic m = record { unchanged = λ env db e h. aborted (m env db).0 _ _ e h }

  failed : (r : Result A) (e : AppError) → outcome r ≡ err e → r ≡ err e
  failed (ok a) e h = cc
  failed (err f) e h = cc

  discard-IsAtomic : (m : Txn A) → IsAtomic m → IsAtomic (discard m)
  discard-IsAtomic m h = record { unchanged = λ env db e f. h.unchanged env db e (failed _ e f) }

module _ {A B : Type 0} where
  continue-unchanged :
      (r : Result A) (f : A → Txn B) (env : Env) (db : Db) (e : AppError)
      → ((a : A) → IsAtomic (f a))
      → (continue r f env db).0 ≡ err e
      → (continue r f env db).1.tables ≡ db.tables
  continue-unchanged (ok a) f env db e h g = (h a).unchanged env db e g
  continue-unchanged (err c) f env db e h g = refl

  bind-IsAtomic :
      (m : Txn A) (f : A → Txn B)
      → Quiet everything m
      → ((a : A) → IsAtomic (f a))
      → IsAtomic (m >>= f)
  unfolding ◌>>=◌
  bind-IsAtomic m f q h = record {
    unchanged =
        λ env db e g. continue-unchanged (m env db).0 f env (m env db).1 e h g ∙ q.same env db;
  }

ruleset atomic_rules = (write-IsAtomic, bind-IsAtomic, quiet_rules, validate_new_upload-Quiet)

create_session-IsAtomic : (a : LiveSession) → IsAtomic (create_session a)
unfolding create_session
create_session-IsAtomic a = search atomic_rules depth 9

open_segment-IsAtomic : (a : Segment) → IsAtomic (open_segment a)
unfolding open_segment
open_segment-IsAtomic a = search atomic_rules depth 9

fail_artifact-IsAtomic :
    (a : Uuid) (b : ℕ) (c : String) (d : Option SegmentCloseReason)
    → IsAtomic (fail_artifact a b c d)
unfolding fail_artifact
fail_artifact-IsAtomic a b c d = search atomic_rules depth 9

require_recovery-IsAtomic : (a : Uuid) (b : String) → IsAtomic (require_recovery a b)
unfolding require_recovery
require_recovery-IsAtomic a b = search atomic_rules depth 9

complete_upload-IsAtomic :
    (a : Uuid) (b : ℕ) (c : Uuid) (d : UploadedPart) → IsAtomic (complete_upload a b c d)
unfolding complete_upload
complete_upload-IsAtomic a b c d = search atomic_rules depth 9

schedule_upload_target_retry-IsAtomic :
    (a : Uuid) (b : ℕ) (c : Uuid) (d : String) (e : Timestamp) (f : ℕ)
    → IsAtomic (schedule_upload_target_retry a b c d e f)
unfolding schedule_upload_target_retry finish_upload_attempt
schedule_upload_target_retry-IsAtomic a b c d e f = search atomic_rules depth 9

resolve_upload_uploaded-IsAtomic :
    (a : Uuid) (b : ℕ) (c : UploadedPart) (d : Option String)
    → IsAtomic (resolve_upload_uploaded a b c d)
unfolding resolve_upload_uploaded resolve_upload_as
resolve_upload_uploaded-IsAtomic a b c d = search atomic_rules depth 9

complete_submission-IsAtomic :
    (a : Uuid) (b : Uuid) (c : Option ℕ) (d : Option String)
    → IsAtomic (complete_submission a b c d)
unfolding complete_submission
complete_submission-IsAtomic a b c d = search atomic_rules depth 9

schedule_submission_target_retry-IsAtomic :
    (a : Uuid) (b : Uuid) (c : String) (d : Timestamp) (e : ℕ)
    → IsAtomic (schedule_submission_target_retry a b c d e)
unfolding schedule_submission_target_retry finish_submission_attempt
schedule_submission_target_retry-IsAtomic a b c d e = search atomic_rules depth 9

resolve_submission_submitted-IsAtomic :
    (a : Uuid) (b : Option ℕ) (c : Option String) (d : Option String)
    → IsAtomic (resolve_submission_submitted a b c d)
unfolding resolve_submission_submitted resolve_submission_as
resolve_submission_submitted-IsAtomic a b c d = search atomic_rules depth 9

-- Every command but the reconciliation, which is a transaction for each thing that it marks.
abbrev pub is_transaction : Command → Bool
is_transaction Command.reconcile_interrupted_remote_attempts = false
is_transaction _ = true

pub execute-IsAtomic : (c : Command) → is_transaction c ≡ true → IsAtomic (execute c)
unfolding execute begin_artifact_finalization complete_artifact_finalization begin_artifact_discard
    complete_artifact_discard begin_artifact_conflict_resolution
    complete_artifact_conflict_resolution exclude_artifact_conflict begin_artifact_delete
    complete_artifact_delete close_session begin_upload schedule_upload_retry block_upload
    block_upload_for_target mark_upload_ambiguous resolve_upload_not_uploaded begin_submission
    schedule_submission_retry block_submission block_submission_for_target mark_submission_ambiguous
    resolve_submission_not_submitted finish_upload_attempt finish_submission_attempt update_artifact
    update_recording_artifact resolve_upload_as resolve_submission_as
execute-IsAtomic (Command.create_session a) h = discard-IsAtomic _ (create_session-IsAtomic a)
execute-IsAtomic (Command.open_segment a) h = discard-IsAtomic _ (open_segment-IsAtomic a)
execute-IsAtomic (Command.begin_artifact_finalization a b c) h =
    discard-IsAtomic _ (write-IsAtomic _)
execute-IsAtomic (Command.complete_artifact_finalization a b) h =
    discard-IsAtomic _ (write-IsAtomic _)
execute-IsAtomic (Command.begin_artifact_discard a b c) h = discard-IsAtomic _ (write-IsAtomic _)
execute-IsAtomic (Command.complete_artifact_discard a b) h = discard-IsAtomic _ (write-IsAtomic _)
execute-IsAtomic (Command.begin_artifact_conflict_resolution a b c d) h =
    discard-IsAtomic _ (write-IsAtomic _)
execute-IsAtomic (Command.complete_artifact_conflict_resolution a b) h =
    discard-IsAtomic _ (write-IsAtomic _)
execute-IsAtomic (Command.exclude_artifact_conflict a b) h = discard-IsAtomic _ (write-IsAtomic _)
execute-IsAtomic (Command.fail_artifact a b c d) h =
    discard-IsAtomic _ (fail_artifact-IsAtomic a b c d)
execute-IsAtomic (Command.begin_artifact_delete a b) h = discard-IsAtomic _ (write-IsAtomic _)
execute-IsAtomic (Command.complete_artifact_delete a b) h = discard-IsAtomic _ (write-IsAtomic _)
execute-IsAtomic (Command.require_recovery a b) h =
    discard-IsAtomic _ (require_recovery-IsAtomic a b)
execute-IsAtomic (Command.close_session a b) h = discard-IsAtomic _ (write-IsAtomic _)
execute-IsAtomic (Command.begin_upload a b c) h = discard-IsAtomic _ (write-IsAtomic _)
execute-IsAtomic (Command.complete_upload a b c d) h =
    discard-IsAtomic _ (complete_upload-IsAtomic a b c d)
execute-IsAtomic (Command.schedule_upload_retry a b c d e) h = discard-IsAtomic _ (write-IsAtomic _)
execute-IsAtomic (Command.schedule_upload_target_retry a b c d e f) h =
    discard-IsAtomic _ (schedule_upload_target_retry-IsAtomic a b c d e f)
execute-IsAtomic (Command.block_upload a b c d) h = discard-IsAtomic _ (write-IsAtomic _)
execute-IsAtomic (Command.block_upload_for_target a b c d) h = discard-IsAtomic _ (write-IsAtomic _)
execute-IsAtomic (Command.mark_upload_ambiguous a b c d) h = discard-IsAtomic _ (write-IsAtomic _)
execute-IsAtomic (Command.resolve_upload_not_uploaded a b c) h =
    discard-IsAtomic _ (write-IsAtomic _)
execute-IsAtomic (Command.resolve_upload_uploaded a b c d) h =
    discard-IsAtomic _ (resolve_upload_uploaded-IsAtomic a b c d)
execute-IsAtomic (Command.begin_submission a b) h = discard-IsAtomic _ (write-IsAtomic _)
execute-IsAtomic (Command.complete_submission a b c d) h =
    discard-IsAtomic _ (complete_submission-IsAtomic a b c d)
execute-IsAtomic (Command.schedule_submission_retry a b c d) h =
    discard-IsAtomic _ (write-IsAtomic _)
execute-IsAtomic (Command.schedule_submission_target_retry a b c d e) h =
    discard-IsAtomic _ (schedule_submission_target_retry-IsAtomic a b c d e)
execute-IsAtomic (Command.block_submission a b c) h = discard-IsAtomic _ (write-IsAtomic _)
execute-IsAtomic (Command.block_submission_for_target a b c) h =
    discard-IsAtomic _ (write-IsAtomic _)
execute-IsAtomic (Command.mark_submission_ambiguous a b c) h = discard-IsAtomic _ (write-IsAtomic _)
execute-IsAtomic (Command.resolve_submission_not_submitted a b) h =
    discard-IsAtomic _ (write-IsAtomic _)
execute-IsAtomic (Command.resolve_submission_submitted a b c d) h =
    discard-IsAtomic _ (resolve_submission_submitted-IsAtomic a b c d)
execute-IsAtomic Command.reconcile_interrupted_remote_attempts h = cc

-- A transition that returns an error has changed no table, whatever it had written before it failed.
-- (The reconciliation of interrupted attempts is a series of transactions, and is left out.)
pub execute-unchanged :
    (c : Command) (env : Env) (db : Db) (e : AppError)
    → is_transaction c ≡ true
    → (execute c env db).0 ≡ err e
    → (execute c env db).1.tables ≡ db.tables
execute-unchanged c env db e h failing = (execute-IsAtomic c h).unchanged env db e failing
