-- ===== src/Tests/Runs.antt =====
-- The theorems of Runs at the runs of Data.
use bilive_rec.Prelude.{ℕ, ◌≡◌, refl, some, ◌↔◌}
use bilive_rec.Errors.{state, session_already_exists}
use bilive_rec.Model.Segment.{UploadState}
use bilive_rec.Store.Table.{get, Each}
use bilive_rec.Store.Keys.{segment_key}
use bilive_rec.Store.Range.{range_scan}
use bilive_rec.Store.Scan.{Lists}
use bilive_rec.Segments.Sound.{IsSound}
use bilive_rec.Segments.Keeps.{Has}
use bilive_rec.Segments.Grows.{Grows}
use bilive_rec.Runs.Command.{Command}
use bilive_rec.Runs.Execute.{run, new_store, execute}
use bilive_rec.Runs.Reachable.{run-IsSound, run-Lists}
use bilive_rec.Runs.Recordable.{Recorded, complete_upload-Recorded}
use bilive_rec.Runs.Lasting.{run-keeps_uploaded, run-keeps_undecided, run-Grows}
use bilive_rec.Runs.Atomic.{execute-unchanged}
use bilive_rec.Tests.Data.{
  env, session, attempting, uploaded, unknown, restart, proof, attempt, attempting_segment,
  uploaded_segment, unknown_segment,
}
use bilive_rec.Tests.Play.{play}

found_attempting : get (run attempting env new_store).segments (1, 1) ≡ some attempting_segment
unfolding play
found_attempting = refl

found_uploaded : get (run uploaded env new_store).segments (1, 1) ≡ some uploaded_segment
unfolding play
found_uploaded = refl

found_unknown : get (run unknown env new_store).segments (1, 1) ≡ some unknown_segment
unfolding play
found_unknown = refl

run-IsSound_example : Each (λ k s. IsSound s) (run attempting env new_store).segments
run-IsSound_example = run-IsSound attempting env

run-Lists_example :
    Lists attempting_segment (range_scan 1 (run attempting env new_store).segments)
    ↔ ((i : ℕ) × (get (run attempting env new_store).segments (1, i) ≡ some attempting_segment))
run-Lists_example = run-Lists attempting env 1 attempting_segment

complete_upload-Recorded_example : Recorded (1, 1) 5 proof env (run attempting env new_store)
unfolding play
complete_upload-Recorded_example =
    complete_upload-Recorded attempting env (1, 1) attempting_segment attempt proof found_attempting
      refl refl

run-keeps_uploaded_example :
    Has
      (λ t. t.upload ≡ UploadState.uploaded proof)
      (run restart env (run uploaded env new_store)).segments
      (1, 1)
run-keeps_uploaded_example =
    run-keeps_uploaded uploaded env restart (1, 1) uploaded_segment proof found_uploaded refl

run-keeps_undecided_example :
    Has
      (λ t. t.upload ≡ UploadState.ambiguous attempt "timeout")
      (run restart env (run unknown env new_store)).segments
      (1, 1)
run-keeps_undecided_example =
    run-keeps_undecided unknown env restart (1, 1) unknown_segment (tt, (tt, (tt, tt)))
      found_unknown refl

run-Grows_example :
    Has
      (λ t. Grows unknown_segment.upload_attempts t.upload_attempts)
      (run restart env (run unknown env new_store)).segments
      (1, 1)
run-Grows_example = run-Grows unknown env restart (1, 1) unknown_segment found_unknown

-- A second session under an identifier that is taken.
execute-unchanged_example :
    (execute (Command.create_session session) env (run attempting env new_store)).1.tables
    ≡ (run attempting env new_store).tables
unfolding play
execute-unchanged_example =
    execute-unchanged (Command.create_session session) env (run attempting env new_store)
      (state session_already_exists) refl refl
