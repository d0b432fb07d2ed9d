-- ===== src/Runs/Execute.antt =====
-- Executing a command, and a list of commands: what each returns to its caller is left out.
use bilive_rec.Prelude.{List, [], ◌∷◌}
use bilive_rec.Errors.{Result, ok, err}
use bilive_rec.Store.Txn.{Env, Db, Txn, empty_tables}
use bilive_rec.Transitions.Artifacts.{
  open_segment, begin_artifact_finalization, complete_artifact_finalization, begin_artifact_discard,
  complete_artifact_discard, begin_artifact_conflict_resolution,
  complete_artifact_conflict_resolution, exclude_artifact_conflict, begin_artifact_delete,
  complete_artifact_delete,
}
use bilive_rec.Transitions.Sessions.{create_session, fail_artifact, require_recovery}
use bilive_rec.Transitions.Close.{close_session}
use bilive_rec.Transitions.Uploads.{
  begin_upload, complete_upload, schedule_upload_retry, schedule_upload_target_retry, block_upload,
  block_upload_for_target, mark_upload_ambiguous, resolve_upload_not_uploaded,
  resolve_upload_uploaded,
}
use bilive_rec.Transitions.Submissions.{
  begin_submission, complete_submission, schedule_submission_retry,
  schedule_submission_target_retry, block_submission, block_submission_for_target,
  mark_submission_ambiguous, resolve_submission_not_submitted, resolve_submission_submitted,
  reconcile_interrupted_remote_attempts,
}
use bilive_rec.Runs.Command.{Command}

abbrev pub outcome : {A : Type 0} → Result A → Result (Unit {0})
outcome (ok a) = ok tt
outcome (err e) = err e

abbrev pub discard : {A : Type 0} → Txn A → Txn (Unit {0})
discard m env db = (outcome (m env db).0, (m env db).1)

unfoldable pub execute : Command → Txn (Unit {0})
execute (Command.create_session a) = discard (create_session a)
execute (Command.open_segment a) = discard (open_segment a)
execute (Command.begin_artifact_finalization a b c) = discard (begin_artifact_finalization a b c)
execute (Command.complete_artifact_finalization a b) = discard (complete_artifact_finalization a b)
execute (Command.begin_artifact_discard a b c) = discard (begin_artifact_discard a b c)
execute (Command.complete_artifact_discard a b) = discard (complete_artifact_discard a b)
execute (Command.begin_artifact_conflict_resolution a b c d) =
    discard (begin_artifact_conflict_resolution a b c d)
execute (Command.complete_artifact_conflict_resolution a b) =
    discard (complete_artifact_conflict_resolution a b)
execute (Command.exclude_artifact_conflict a b) = discard (exclude_artifact_conflict a b)
execute (Command.fail_artifact a b c d) = discard (fail_artifact a b c d)
execute (Command.begin_artifact_delete a b) = discard (begin_artifact_delete a b)
execute (Command.complete_artifact_delete a b) = discard (complete_artifact_delete a b)
execute (Command.require_recovery a b) = discard (require_recovery a b)
execute (Command.close_session a b) = discard (close_session a b)
execute (Command.begin_upload a b c) = discard (begin_upload a b c)
execute (Command.complete_upload a b c d) = discard (complete_upload a b c d)
execute (Command.schedule_upload_retry a b c d e) = discard (schedule_upload_retry a b c d e)
execute (Command.schedule_upload_target_retry a b c d e f) =
    discard (schedule_upload_target_retry a b c d e f)
execute (Command.block_upload a b c d) = discard (block_upload a b c d)
execute (Command.block_upload_for_target a b c d) = discard (block_upload_for_target a b c d)
execute (Command.mark_upload_ambiguous a b c d) = discard (mark_upload_ambiguous a b c d)
execute (Command.resolve_upload_not_uploaded a b c) = discard (resolve_upload_not_uploaded a b c)
execute (Command.resolve_upload_uploaded a b c d) = discard (resolve_upload_uploaded a b c d)
execute (Command.begin_submission a b) = discard (begin_submission a b)
execute (Command.complete_submission a b c d) = discard (complete_submission a b c d)
execute (Command.schedule_submission_retry a b c d) = discard (schedule_submission_retry a b c d)
execute (Command.schedule_submission_target_retry a b c d e) =
    discard (schedule_submission_target_retry a b c d e)
execute (Command.block_submission a b c) = discard (block_submission a b c)
execute (Command.block_submission_for_target a b c) = discard (block_submission_for_target a b c)
execute (Command.mark_submission_ambiguous a b c) = discard (mark_submission_ambiguous a b c)
execute (Command.resolve_submission_not_submitted a b) =
    discard (resolve_submission_not_submitted a b)
execute (Command.resolve_submission_submitted a b c d) =
    discard (resolve_submission_submitted a b c d)
execute Command.reconcile_interrupted_remote_attempts =
    discard reconcile_interrupted_remote_attempts

unfoldable pub run : List Command → Env → Db → Db
unfolding execute
run [] env db = db
run (c ∷ cs) env db = run cs env (execute c env db).1

-- A new store, before the first reading of the clock.
abbrev pub new_store : Db
new_store = record { tables = empty_tables; clock_reads = 0 }
