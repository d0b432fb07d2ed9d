-- ===== src/Work/Reconcile.antt =====
-- src/uploader/validation.rs: the state of a session's uploads, from its segments.
use bilive_rec.Prelude.{
  is_empty, ℕ, Bool, not, ◌&&◌, Option, none, some, List, [], ◌∷◌, ltb, if◌then◌else◌,
}
use bilive_rec.Model.Segment.{Segment, ArtifactState, UploadState, UploadedPart, uploaded_part}

-- The reason of `blocked`, a printed form of the segment, is left out.
pub data SegmentUploadState : Type 0 where
  satisfied needs_upload blocked : SegmentUploadState

unfoldable pub classify : ArtifactState → UploadState → SegmentUploadState
classify (ArtifactState.filtered _) upload = satisfied
classify (ArtifactState.excluded _) upload = satisfied
classify (ArtifactState.ready _) (UploadState.uploaded _) = satisfied
classify ArtifactState.deleting (UploadState.uploaded _) = satisfied
classify ArtifactState.deleted (UploadState.uploaded _) = satisfied
classify (ArtifactState.ready _) (UploadState.pending _ _ _) = needs_upload
classify _ _ = blocked

unfoldable pub classify_segment_upload : Segment → SegmentUploadState
unfolding classify
classify_segment_upload segment = classify segment.artifact segment.upload

pub record UploadReconciliation : Type 0 where
  pub needs_upload : List ℕ
  pub blocked : List ℕ
  pub uploaded_parts : List (ℕ × UploadedPart)

unfoldable pub is_ready_for_submission : UploadReconciliation → Bool
is_ready_for_submission report =
    is_empty report.needs_upload && is_empty report.blocked && not (is_empty report.uploaded_parts)

abbrev pub add_part : ℕ → Option UploadedPart → List (ℕ × UploadedPart) → List (ℕ × UploadedPart)
add_part index none parts = parts
add_part index (some proof) parts = (index, proof) ∷ parts

-- What a segment adds to what the segments behind it give.
unfoldable pub add_segment :
    Segment → SegmentUploadState → UploadReconciliation → UploadReconciliation
unfolding uploaded_part
add_segment segment satisfied rest = record rest {
  uploaded_parts = add_part segment.index (uploaded_part segment.upload) rest.uploaded_parts;
}
add_segment segment needs_upload rest = record rest {
  needs_upload = segment.index ∷ rest.needs_upload;
}
add_segment segment blocked rest = record rest { blocked = segment.index ∷ rest.blocked }

unfoldable pub collect : List Segment → UploadReconciliation
unfolding classify_segment_upload add_segment
collect [] = record { needs_upload = []; blocked = []; uploaded_parts = [] }
collect (segment ∷ segments) =
    add_segment segment (classify_segment_upload segment) (collect segments)

-- A sort by an index, which keeps the order of equal ones.
module _ {A : Type 0} (index_of : A → ℕ) where
  unfoldable pub insert_by : A → List A → List A
  insert_by x [] = x ∷ []
  insert_by x (y ∷ ys) =
      let later = insert_by x ys in if ltb (index_of y) (index_of x) then y ∷ later else x ∷ y ∷ ys

  unfoldable pub sort_by : List A → List A
  unfolding insert_by
  sort_by [] = []
  sort_by (x ∷ xs) = insert_by x (sort_by xs)

unfoldable pub reconcile_session_uploads : List Segment → UploadReconciliation
unfolding collect sort_by
reconcile_session_uploads segments =
    let report = collect segments in
    record {
      needs_upload = sort_by (λ i. i) report.needs_upload;
      blocked = report.blocked;
      uploaded_parts = sort_by (λ p. p.0) report.uploaded_parts;
    }
