-- ===== src/Tests/Outcomes.antt =====
-- The theorems of Outcomes at the runs of Data.
use bilive_rec.Prelude.{◌≡◌, refl}
use bilive_rec.Errors.{ok}
use bilive_rec.Transitions.Artifacts.{begin_artifact_delete}
use bilive_rec.Transitions.Submissions.{begin_submission}
use bilive_rec.Runs.Execute.{run, new_store}
use bilive_rec.Outcomes.Guarded.{MayDelete, begin_artifact_delete-MayDelete}
use bilive_rec.Outcomes.Submission.{MaySubmit, begin_submission-MaySubmit}
use bilive_rec.Tests.Data.{
  env, completed, submitted, submitting, deleting_segment, first_submission,
}
use bilive_rec.Tests.Play.{play}

deletes : (begin_artifact_delete 1 1 env (run submitted env new_store)).0 ≡ ok deleting_segment
unfolding play
deletes = refl

submits : (begin_submission 1 submitting env (run completed env new_store)).0 ≡ ok first_submission
unfolding play
submits = refl

begin_artifact_delete-MayDelete_example : MayDelete (run submitted env new_store) 1 1
begin_artifact_delete-MayDelete_example =
    begin_artifact_delete-MayDelete 1 1 env (run submitted env new_store) deleting_segment deletes

begin_submission-MaySubmit_example : MaySubmit (run completed env new_store) 1
begin_submission-MaySubmit_example =
    begin_submission-MaySubmit 1 submitting env (run completed env new_store) first_submission
      submits
