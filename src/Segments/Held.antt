-- ===== src/Segments/Held.antt =====
-- The uploads that are held: by their proof, or until an operator decides.
use bilive_rec.Prelude.{◌≡◌, Bool, true, false, inl, inr, arith, Option}
use bilive_rec.Errors.{ok}
use bilive_rec.Model.{Uuid, Timestamp}
use bilive_rec.Model.Segment.{Segment, UploadState, RemoteAttempt, is_pending}
use bilive_rec.Transitions.History.{current_upload_attempt, recoverable_upload_attempt_id}
use bilive_rec.Transitions.UploadSteps.{abandon_upload, abandon_by}
use bilive_rec.Segments.Step.{
  Actor, SegmentStep, WorkerStep, OperatorStep, artifact, worker, operator, claim, confirm, retry,
  block, ambiguous, deny, affirm, abandon,
}
use bilive_rec.Segments.Sound.{IsSound, is_remote, artifact-move, claim-shape}

-- Uploaded is for good; Ambiguous and Blocked are for the operator.
abbrev pub is_held : Actor → UploadState → Bool
is_held a (UploadState.uploaded _) = true
is_held Actor.program (UploadState.ambiguous _ _) = true
is_held Actor.program (UploadState.blocked _ _) = true
is_held a _ = false

remote-of-held : (a : Actor) (u : UploadState) → is_held a u ≡ true → is_remote u ≡ true
remote-of-held a u h = ground arith

current-of-held :
    (a : Actor) (u : UploadState) (id : Uuid) {attempt : RemoteAttempt}
    → is_held a u ≡ true
    → current_upload_attempt u id ≡ ok attempt
    → ⊥
unfolding current_upload_attempt
current-of-held a u id h c = ground arith

held-worker : (a : Actor) (s s' : Segment) → is_held a s.upload ≡ true → WorkerStep s s' → ⊥
unfolding is_pending
held-worker a s s' h (claim attempt e) =
    let (ready, pending, absent, shape) = claim-shape attempt s s' e in ground arith
held-worker a s s' h (confirm id proof now c e) = current-of-held a s.upload id h c
held-worker a s s' h (retry id reason at now c e) = current-of-held a s.upload id h c
held-worker a s s' h (block id reason now c e) = current-of-held a s.upload id h c
held-worker a s s' h (ambiguous id reason now c e) = current-of-held a s.upload id h c

uploaded-recoverable :
    (u : UploadState) (id : Option Uuid)
    → is_held Actor.human u ≡ true
    → recoverable_upload_attempt_id u ≡ ok id
    → ⊥
unfolding recoverable_upload_attempt_id
uploaded-recoverable u id h c = ground arith

uploaded-abandon :
    (u : UploadState) (s s' : Segment) (now : Timestamp)
    → is_held Actor.human u ≡ true
    → abandon_by u s now ≡ ok s'
    → s' ≡ s
uploaded-abandon u s s' now h e = ground arith

held-operator :
    (s s' : Segment)
    → is_held Actor.human s.upload ≡ true
    → OperatorStep s s'
    → s'.upload ≡ s.upload
unfolding abandon_upload
held-operator s s' h (deny l remark id now c e) = absurd (uploaded-recoverable s.upload id h c)
held-operator s s' h (affirm proof remark id now c e) =
    absurd (uploaded-recoverable s.upload id h c)
held-operator s s' h (abandon now c e) = λ i. (uploaded-abandon s.upload s s' now h e i).upload

pub step-held :
    (a : Actor) (s s' : Segment)
    → is_held a s.upload ≡ true
    → IsSound s
    → SegmentStep a s s'
    → s'.upload ≡ s.upload
step-held a s s' h v (artifact st) = elim (artifact-move s s' v.artifact st).upload [
  | inl same ↦ same
  | inr (dropped, local) ↦ absurd (ground (arith, remote-of-held a s.upload h))
]
step-held a s s' h v (worker st) = absurd (held-worker a s s' h st)
step-held Actor.human s s' h v (operator by st) = held-operator s s' h st
step-held Actor.program s s' h v (operator by st) = cc
