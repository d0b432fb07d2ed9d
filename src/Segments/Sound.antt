-- ===== src/Segments/Sound.antt =====
-- When a segment is sound: its upload, its history and its artifact agree.
use bilive_rec.Prelude.{
  ◌≡◌, sym, subst, Bool, true, false, not, none, some, List, [], ◌∷◌, arith, ◌⊎◌, inl, inr, ◌++◌,
}
use mathlib.Core.Path.{subst₂}
use bilive_rec.Errors.{ok}
use bilive_rec.Model.{Uuid, Timestamp}
use bilive_rec.Model.Segment.{
  Segment, ArtifactState, UploadState, UploadAttempt, UploadAttemptOutcome, RemoteAttempt,
  is_uploaded, is_writing, can_fail, is_ready, is_exclude, is_pending,
}
use bilive_rec.Store.Keys.{segment_key}
use bilive_rec.Transitions.Close.{exclusion}
use bilive_rec.Transitions.History.{finish_attempts, finish_upload_history, current_upload_attempt}
use bilive_rec.Transitions.UploadSteps.{claim_upload}
use bilive_rec.Segments.Attempts.{AllFinished, OpenAt, has_attempt, finished-of-OpenAt}
use bilive_rec.Segments.Step.{
  ArtifactStep, finalize, finalized, discard, discarded, resolve, kept, excluded, delete, deleted,
  fail, exclude_failed,
}

-- The upload has crossed the boundary to Bilibili, or may have.
abbrev pub is_remote : UploadState → Bool
is_remote (UploadState.attempting _) = true
is_remote (UploadState.ambiguous _ _) = true
is_remote (UploadState.blocked _ _) = true
is_remote (UploadState.uploaded _) = true
is_remote _ = false

-- Only a usable artifact has such an upload, and one that is being deleted has been uploaded.
abbrev pub artifact_fits : ArtifactState → UploadState → Bool
artifact_fits (ArtifactState.ready _) upload = true
artifact_fits ArtifactState.deleting upload = is_uploaded upload
artifact_fits ArtifactState.deleted upload = is_uploaded upload
artifact_fits _ upload = not (is_remote upload)

-- An attempt is open exactly while the upload is Attempting it; one that an Ambiguous or Blocked
-- upload names is in the history.
abbrev pub HistoryFits : UploadState → List UploadAttempt → Type 0
HistoryFits (UploadState.attempting attempt) rs = OpenAt attempt.id rs
HistoryFits (UploadState.ambiguous attempt _) rs =
    AllFinished rs × (has_attempt attempt.id rs ≡ true)
HistoryFits (UploadState.blocked (some id) _) rs = AllFinished rs × (has_attempt id rs ≡ true)
HistoryFits _ rs = AllFinished rs

pub record IsSound (s : Segment) : Type 0 where
  pub artifact : artifact_fits s.artifact s.upload ≡ true
  pub history : HistoryFits s.upload s.upload_attempts

-- An upload that is not being attempted has a finished history.
pub finished-of-fits :
    (u : UploadState) (rs : List UploadAttempt)
    → is_remote u ≡ false
    → HistoryFits u rs
    → AllFinished rs
finished-of-fits UploadState.not_planned rs h f = f
finished-of-fits (UploadState.pending _ _ _) rs h f = f
finished-of-fits (UploadState.attempting _) rs h f = cc
finished-of-fits (UploadState.blocked _ _) rs h f = cc
finished-of-fits (UploadState.ambiguous _ _) rs h f = cc
finished-of-fits (UploadState.uploaded _) rs h f = f
finished-of-fits (UploadState.cancelled _ _) rs h f = f

-- A step of the artifact: the history stays, and an upload that is dropped was not remote.
pub record ArtifactMove (s s' : Segment) : Type 0 where
  pub fits : artifact_fits s'.artifact s'.upload ≡ true
  pub same_history : s'.upload_attempts ≡ s.upload_attempts
  pub upload :
      (s'.upload ≡ s.upload)
      ⊎ ((s'.upload ≡ UploadState.not_planned) × (is_remote s.upload ≡ false))

pub artifact-move :
    (s s' : Segment)
    → artifact_fits s.artifact s.upload ≡ true
    → ArtifactStep s s'
    → ArtifactMove s s'
unfolding exclusion is_writing is_ready is_uploaded can_fail is_exclude
artifact-move s s' h (finalize reason e) = ground arith
artifact-move s s' h (finalized e) = ground arith
artifact-move s s' h (discard reason e) = ground arith
artifact-move s s' h (discarded e) = ground arith
artifact-move s s' h (resolve reason decision remark at c e) = ground arith
artifact-move s s' h (kept e) = ground arith
artifact-move s s' h (excluded e) = ground arith
artifact-move s s' h (delete e) = ground arith
artifact-move s s' h (deleted e) = ground arith
artifact-move s s' h (fail reason close c e) = ground arith
artifact-move s s' h (exclude_failed e) = ground arith

pub artifact-IsSound : (s s' : Segment) → IsSound s → ArtifactStep s s' → IsSound s'
artifact-IsSound s s' v st =
    let move = artifact-move s s' v.artifact st in
    record {
      artifact = move.fits;
      history = elim move.upload [
        | inl same ↦ subst₂ HistoryFits (sym same) (sym move.same_history) v.history
        | inr (dropped, local) ↦
            subst₂ HistoryFits (sym dropped) (sym move.same_history)
              (finished-of-fits _ _ local v.history)
      ];
    }

pub current-attempting :
    (u : UploadState) (id : Uuid) {attempt : RemoteAttempt}
    → current_upload_attempt u id ≡ ok attempt
    → (u ≡ UploadState.attempting attempt) × (attempt.id ≡ id)
unfolding current_upload_attempt
current-attempting u id h = ground arith

pub ready-of-attempting :
    (a : ArtifactState) (u : UploadState) (attempt : RemoteAttempt)
    → u ≡ UploadState.attempting attempt
    → artifact_fits a u ≡ true
    → is_ready a ≡ true
unfolding is_ready is_uploaded
ready-of-attempting a u attempt e h = ground arith

pub fits-of-ready :
    (a : ArtifactState) (u : UploadState) → is_ready a ≡ true → artifact_fits a u ≡ true
unfolding is_ready
fits-of-ready a u h = ground arith

pub finish-shape :
    (s t : Segment) (id : Uuid) (now : Timestamp) (o : UploadAttemptOutcome)
    → finish_upload_history s id now o ≡ ok t
    → (finish_attempts s.upload_attempts id now o ≡ ok t.upload_attempts)
      × (t.artifact ≡ s.artifact)
unfolding finish_upload_history
finish-shape s t id now o h = ground arith

-- The current attempt, finished: the artifact is Ready, and the whole history is finished.
pub record IsClosed (id : Uuid) (s : Segment) : Type 0 where
  pub ready : is_ready s.artifact ≡ true
  pub finished : AllFinished s.upload_attempts
  pub has : has_attempt id s.upload_attempts ≡ true

pub finish-IsClosed :
    (s t : Segment) (id : Uuid) (now : Timestamp) (o : UploadAttemptOutcome)
    {attempt : RemoteAttempt}
    → IsSound s
    → current_upload_attempt s.upload id ≡ ok attempt
    → finish_upload_history s id now o ≡ ok t
    → IsClosed id t
finish-IsClosed s t id now o {attempt} v c h =
    let (at, same) = current-attempting s.upload id c in
    let (e, kept_artifact) = finish-shape s t id now o h in
    let current : OpenAt id s.upload_attempts =
      subst (λ j. OpenAt j s.upload_attempts) same
        (subst (λ u. HistoryFits u s.upload_attempts) at v.history) in
    let (finished, has) = finished-of-OpenAt _ _ id now o current e in
    record {
      ready =
          subst (λ a. is_ready a ≡ true) (sym kept_artifact)
            (ready-of-attempting s.artifact s.upload attempt at v.artifact);
      finished = finished;
      has = has;
    }

pub with_upload-IsSound :
    (id : Uuid) (t : Segment) (u : UploadState)
    → IsClosed id t
    → HistoryFits u t.upload_attempts
    → IsSound (record t { upload = u })
with_upload-IsSound id t u c h = record {
  artifact = fits-of-ready t.artifact u c.ready;
  history = h;
}

pub claim-shape :
    (a : RemoteAttempt) (s s' : Segment)
    → claim_upload a s ≡ ok s'
    → (is_ready s.artifact ≡ true)
      × (is_pending s.upload ≡ true)
      × (has_attempt a.id s.upload_attempts ≡ false)
      × (s' ≡ record s {
        upload_attempts =
            s.upload_attempts ++ record { attempt = a; finished_at = none; outcome = none } ∷ [];
        upload = UploadState.attempting a;
      })
unfolding claim_upload
claim-shape a s s' h = ground arith

pub local-of-pending : (u : UploadState) → is_pending u ≡ true → is_remote u ≡ false
unfolding is_pending
local-of-pending u h = ground arith
