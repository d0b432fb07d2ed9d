-- ===== src/Work/Agreement.antt =====
-- The queue's test of a session, and the test that begin_submission makes, agree.
use bilive_rec.Prelude.{
  is_empty, ℕ, zero, suc, ◌≡◌, ◌↔◌, refl, sym, ◌∙◌, subst, Bool, true, false, not, ◌&&◌, Option,
  none, some, List, [], ◌∷◌, All, is_some, ltb, ◌==◌, arith, Bool-cases, inl, inr,
}
use bilive_rec.Errors.{
  AppError, Result, ok, err, state_error, segment_not_ready_for_submission, ◌>>=◌,
}
use bilive_rec.Model.Segment.{Segment, ArtifactState, UploadState, UploadedPart, uploaded_part}
use bilive_rec.Transitions.SubmissionSteps.{PartStatus, part_status, count_parts}
use bilive_rec.Segments.Sound.{artifact_fits, IsSound}
use bilive_rec.Outcomes.Submission.{is_part, is_unready}
use bilive_rec.Work.Reconcile.{
  SegmentUploadState, satisfied, needs_upload, blocked, classify, classify_segment_upload,
  UploadReconciliation, is_ready_for_submission, add_part, add_segment, collect, insert_by, sort_by,
  reconcile_session_uploads,
}

abbrev is_satisfied : SegmentUploadState → Bool
is_satisfied satisfied = true
is_satisfied _ = false

-- A sound segment is in the way of both or of none, and is a part for both or for none.
abbrev Alike : ArtifactState → UploadState → Type 0
Alike artifact upload =
    (is_satisfied (classify artifact upload) ≡ not (is_unready (part_status artifact upload)))
    × ((is_satisfied (classify artifact upload) && is_some (uploaded_part upload))
        ≡ is_part (part_status artifact upload))

not_uploaded :
    (u : UploadState)
    → artifact_fits ArtifactState.writing u ≡ true
    → is_some (uploaded_part u) ≡ false
unfolding uploaded_part
not_uploaded UploadState.not_planned h = refl
not_uploaded (UploadState.pending _ _ _) h = refl
not_uploaded (UploadState.attempting _) h = refl
not_uploaded (UploadState.blocked _ _) h = refl
not_uploaded (UploadState.ambiguous _ _) h = refl
not_uploaded (UploadState.uploaded _) h = cc
not_uploaded (UploadState.cancelled _ _) h = refl

alike :
    (artifact : ArtifactState) (upload : UploadState)
    → artifact_fits artifact upload ≡ true
    → Alike artifact upload
unfolding classify part_status uploaded_part
alike ArtifactState.writing u h = (refl, refl)
alike (ArtifactState.finalizing _) u h = (refl, refl)
alike (ArtifactState.discarding _) u h = (refl, refl)
alike (ArtifactState.resolving_conflict _ _) u h = (refl, refl)
alike (ArtifactState.failed _ _) u h = (refl, refl)
alike (ArtifactState.filtered _) u h = (refl, not_uploaded u h)
alike (ArtifactState.excluded _) u h = (refl, not_uploaded u h)
alike (ArtifactState.ready _) UploadState.not_planned h = (refl, refl)
alike (ArtifactState.ready _) (UploadState.pending _ _ _) h = (refl, refl)
alike (ArtifactState.ready _) (UploadState.attempting _) h = (refl, refl)
alike (ArtifactState.ready _) (UploadState.blocked _ _) h = (refl, refl)
alike (ArtifactState.ready _) (UploadState.ambiguous _ _) h = (refl, refl)
alike (ArtifactState.ready _) (UploadState.uploaded _) h = (refl, refl)
alike (ArtifactState.ready _) (UploadState.cancelled _ _) h = (refl, refl)
alike ArtifactState.deleting (UploadState.uploaded _) h = (refl, refl)
alike ArtifactState.deleted (UploadState.uploaded _) h = (refl, refl)
alike ArtifactState.deleting u h = (refl, refl)
alike ArtifactState.deleted u h = (refl, refl)

abbrev is_clear : UploadReconciliation → Bool
is_clear report = is_empty report.needs_upload && is_empty report.blocked

-- A report and a count of parts that say the same.
abbrev Matches : UploadReconciliation → Result ℕ → Type 0
Matches report (ok n) = (is_clear report ≡ true) × (is_empty report.uploaded_parts ≡ (n == 0))
Matches report (err e) = is_clear report ≡ false

blocked_report : (a b : Bool) → (a && false) ≡ false
blocked_report true b = refl
blocked_report false b = refl

skipped_part :
    (index : ℕ) (u : Option UploadedPart) (n : ℕ) (report : UploadReconciliation)
    → is_some u ≡ false
    → Matches report (ok n)
    → Matches (record report { uploaded_parts = add_part index u report.uploaded_parts }) (ok n)
skipped_part index none n report h m = m
skipped_part index (some proof) n report h m = cc

another_part :
    (index : ℕ) (u : Option UploadedPart) (n : ℕ) (report : UploadReconciliation)
    → is_some u ≡ true
    → Matches report (ok n)
    → Matches
        (record report { uploaded_parts = add_part index u report.uploaded_parts })
        (ok (suc n))
another_part index none n report h m = cc
another_part index (some proof) n report h m = (m.0, ground arith)

-- A segment that fits, in front of segments whose report and count match.
step :
    (segment : Segment) (st : SegmentUploadState) (part : PartStatus) (c : Result ℕ)
    (report : UploadReconciliation)
    → is_satisfied st ≡ not (is_unready part)
    → (is_satisfied st && is_some (uploaded_part segment.upload)) ≡ is_part part
    → Matches report c
    → Matches (add_segment segment st report) (elim part as (λ _. Result ℕ) [
      | PartStatus.skipped ↦ c
      | PartStatus.part ↦ (do n ← c; ok (suc n))
      | PartStatus.unready ↦ state_error segment_not_ready_for_submission
    ])
unfolding add_segment
step segment satisfied PartStatus.skipped (ok n) report e p m =
    skipped_part segment.index (uploaded_part segment.upload) n report p m
step segment satisfied PartStatus.skipped (err f) report e p m = m
step segment satisfied PartStatus.part (ok n) report e p m =
    another_part segment.index (uploaded_part segment.upload) n report p m
step segment satisfied PartStatus.part (err f) report e p m = m
step segment satisfied PartStatus.unready c report e p m = cc
step segment needs_upload PartStatus.skipped c report e p m = cc
step segment needs_upload PartStatus.part c report e p m = cc
step segment needs_upload PartStatus.unready c report e p m = refl
step segment blocked PartStatus.skipped c report e p m = cc
step segment blocked PartStatus.part c report e p m = cc
step segment blocked PartStatus.unready c report e p m =
    blocked_report (is_empty report.needs_upload) true

collect-Matches : (xs : List Segment) → All IsSound xs → Matches (collect xs) (count_parts xs)
unfolding collect count_parts classify_segment_upload
collect-Matches [] h = (refl, refl)
collect-Matches (s ∷ xs) (sound, h) =
    let (e, p) = alike s.artifact s.upload sound.artifact in
    step s (classify s.artifact s.upload) (part_status s.artifact s.upload) (count_parts xs)
      (collect xs) e p (collect-Matches xs h)

-- Sorting does not change whether there is anything.
insert-nonempty :
    {A : Type 0} (f : A → ℕ) (x : A) (ys : List A) → is_empty (insert_by f x ys) ≡ false
unfolding insert_by
insert-nonempty f x [] = refl
insert-nonempty f x (y ∷ ys) = elim (Bool-cases (ltb (f y) (f x))) [
  | inl later ↦ rw (insert_by, later) refl
  | inr here ↦ rw (insert_by, here) refl
]

sort-is_empty : {A : Type 0} (f : A → ℕ) (xs : List A) → is_empty (sort_by f xs) ≡ is_empty xs
unfolding sort_by
sort-is_empty f [] = refl
sort-is_empty f (x ∷ xs) = insert-nonempty f x (sort_by f xs)

no_parts : (n : ℕ) → ◌≡◌ {A = Result ℕ} (ok 0) (ok (suc n)) → ⊥
no_parts n h = cc

failed : (f : AppError) (n : ℕ) → ◌≡◌ {A = Result ℕ} (err f) (ok (suc n)) → ⊥
failed f n h = cc

true-ne-false : {b : Bool} → b ≡ false → b ≡ true → ⊥
true-ne-false p q = cc

ready_of :
    (report : UploadReconciliation) (c : Result ℕ)
    → Matches report c
    → (is_clear report && not (is_empty report.uploaded_parts) ≡ true)
      ↔ ((n : ℕ) × (c ≡ ok (suc n)))
ready_of report (ok zero) (clear, e) =
    let v : (is_clear report && not (is_empty report.uploaded_parts)) ≡ false =
      rw (clear, e) refl in
    (λ h. absurd (true-ne-false v h), λ (n, h). absurd (no_parts n h))
ready_of report (ok (suc n)) (clear, e) =
    let some_part : is_empty report.uploaded_parts ≡ false = e ∙ ground arith in
    (λ h. (n, refl), λ h. rw (clear, some_part) refl)
ready_of report (err f) clear =
    let v : (is_clear report && not (is_empty report.uploaded_parts)) ≡ false = rw clear refl in
    (λ h. absurd (true-ne-false v h), λ (n, h). absurd (failed f n h))

is_ready-collect :
    (xs : List Segment)
    → is_ready_for_submission (reconcile_session_uploads xs)
      ≡ (is_clear (collect xs) && not (is_empty (collect xs).uploaded_parts))
unfolding is_ready_for_submission reconcile_session_uploads
is_ready-collect xs =
    rw
      (
        sort-is_empty (λ i. i) (collect xs).needs_upload,
        sort-is_empty (λ (p : ℕ × UploadedPart). p.0) (collect xs).uploaded_parts,
      )
      refl

-- The queue's test against the count of begin_submission.
pub is_ready-count_parts :
    (xs : List Segment)
    → All IsSound xs
    → (is_ready_for_submission (reconcile_session_uploads xs) ≡ true)
      ↔ ((n : ℕ) × (count_parts xs ≡ ok (suc n)))
is_ready-count_parts xs h =
    subst (λ b. (b ≡ true) ↔ ((n : ℕ) × (count_parts xs ≡ ok (suc n)))) (sym (is_ready-collect xs))
      (ready_of (collect xs) (count_parts xs) (collect-Matches xs h))
