-- ===== src/Work/Offered.antt =====
-- In the stores that a run reaches, the queue offers the sessions that begin_submission lets through.
use bilive_rec.Prelude.{ℕ, zero, suc, ◌≡◌, ◌↔◌, refl, true, false, List, [], ◌∷◌, All, ◌==◌, arith}
use bilive_rec.Errors.{AppError, Result, ok, err, no_uploaded_parts}
use bilive_rec.Model.{Uuid}
use bilive_rec.Store.Table.{Each, values}
use bilive_rec.Store.Range.{range_scan}
use bilive_rec.Store.Sorted.{Segments, All-range_scan}
use bilive_rec.Store.Txn.{Env, Db, lift, fail_if, gets, ◌>>=◌}
use bilive_rec.Transitions.SubmissionSteps.{count_parts}
use bilive_rec.Transitions.Submissions.{require_submission_parts}
use bilive_rec.Segments.Sound.{IsSound}
use bilive_rec.Runs.Command.{Command}
use bilive_rec.Runs.Execute.{run, new_store}
use bilive_rec.Runs.Reachable.{run-IsSound}
use bilive_rec.Work.Reconcile.{is_ready_for_submission, reconcile_session_uploads}
use bilive_rec.Work.Agreement.{is_ready-count_parts}

values-All : (m : Segments) → Each (λ k s. IsSound s) m → All IsSound (values m)
values-All [] h = tt
values-All ((k, s) ∷ m) (p, h) = (p, values-All m h)

no_parts : (n : ℕ) → ◌≡◌ {A = Result ℕ} (ok 0) (ok (suc n)) → ⊥
no_parts n h = cc

refused : {e : AppError} → ◌≡◌ {A = Result (Unit {0})} (err e) (ok tt) → ⊥
refused h = cc

-- The check after the count, in a store.
checked :
    (c : Result ℕ) (env : Env) (db : Db)
    → ((n : ℕ) × (c ≡ ok (suc n)))
      ↔ ((lift c >>= λ uploaded. fail_if (uploaded == 0) no_uploaded_parts) env db).0 ≡ ok tt
unfolding ◌>>=◌ lift fail_if
checked (ok zero) env db = (λ (n, h). absurd (no_parts n h), λ h. absurd (refused h))
checked (ok (suc n)) env db =
    let some_part : (suc n == 0) ≡ false = ground arith in (λ h. rw some_part refl, λ h. (n, refl))
checked (err e) env db = (λ (n, h). cc, λ h. cc)

module _ (cs : List Command) (env : Env) (id : Uuid) where
  -- In every store that a run reaches, the queue's reconciliation of a session's segments is ready
  -- for submission exactly if the guard of begin_submission lets its segments through.
  pub run-is_ready :
      (is_ready_for_submission
          (reconcile_session_uploads (range_scan id (run cs env new_store).segments))
        ≡ true)
      ↔ ((require_submission_parts id env (run cs env new_store)).0 ≡ ok tt)
  unfolding require_submission_parts ◌>>=◌ gets
  run-is_ready =
      let db = run cs env new_store in
      let segments = range_scan id db.segments in
      let sound =
        All-range_scan IsSound id db.segments (values-All db.segments (run-IsSound cs env)) in
      let (to_count, from_count) = is_ready-count_parts segments sound in
      let (to_check, from_check) = checked (count_parts segments) env db in
      (λ h. to_check (to_count h), λ h. from_count (from_check h))
