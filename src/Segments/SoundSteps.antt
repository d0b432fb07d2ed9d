-- ===== src/Segments/SoundSteps.antt =====
-- Soundness under the steps of a segment and the changes of the table.
use bilive_rec.Prelude.{
  String, ◌≡◌, refl, sym, subst, ap, Bool, true, false, not, Option, none, some, List, [], arith,
  ◌⊎◌, inl, inr, some_inj,
}
use mathlib.Core.Path.{subst₂}
use bilive_rec.Errors.{ok, ok_inj, bind-eq-ok}
use bilive_rec.Model.{Uuid, Timestamp}
use bilive_rec.Model.Session.{SessionLifecycle, OutputPlan}
use bilive_rec.Transitions.Artifacts.{planned_upload}
use bilive_rec.Model.Segment.{
  Segment, ArtifactState, UploadState, UploadAttempt, is_uploaded, UploadResolutionDecision,
  is_ready, is_pending, pending_upload,
}
use bilive_rec.Store.Table.{Each, Each-put, Each-get}
use bilive_rec.Store.Keys.{segment_key}
use bilive_rec.Transitions.History.{
  finish_attempts_as_ambiguous, finish_unfinished_upload_as_ambiguous,
  recoverable_upload_attempt_id,
}
use bilive_rec.Transitions.UploadSteps.{
  confirm_upload, retry_upload, block_with, make_ambiguous, resolve_with, abandon_upload,
  finish_if_named, upload_after_denial, abandon_by,
}
use bilive_rec.Segments.Attempts.{
  AllFinished, OpenAt, has_attempt, OpenAt-append, closed-of-OpenAt, closed-of-AllFinished,
}
use bilive_rec.Segments.Step.{
  Segments, Actor, SegmentStep, WorkerStep, OperatorStep, artifact, worker, operator, claim,
  confirm, retry, block, ambiguous, deny, affirm, abandon, Evolves, here, step, opened, IsNew,
}
use bilive_rec.Segments.Sound.{
  is_remote, artifact_fits, HistoryFits, IsSound, finished-of-fits, artifact-IsSound,
  current-attempting, fits-of-ready, finish-IsClosed, with_upload-IsSound, claim-shape,
  local-of-pending,
}

worker-IsSound : (s s' : Segment) → IsSound s → WorkerStep s s' → IsSound s'
unfolding confirm_upload retry_upload block_with make_ambiguous
worker-IsSound s s' v (claim a e) =
    let (ready, pending, absent, shape) = claim-shape a s s' e in
    subst IsSound (sym shape) (record {
      artifact = fits-of-ready _ _ ready;
      history =
          OpenAt-append a _ (finished-of-fits _ _ (local-of-pending _ pending) v.history) absent;
    })
worker-IsSound s s' v (confirm id proof now c e) =
    let (t, h, shape) = bind-eq-ok _ _ e in
    let closed = finish-IsClosed s t id now _ v c h in
    subst IsSound (ok_inj shape) (with_upload-IsSound id t _ closed closed.finished)
worker-IsSound s s' v (retry id reason at now c e) =
    let (t, h, shape) = bind-eq-ok _ _ e in
    let closed = finish-IsClosed s t id now _ v c h in
    subst IsSound (ok_inj shape) (with_upload-IsSound id t _ closed closed.finished)
worker-IsSound s s' v (block id reason now c e) =
    let (t, h, shape) = bind-eq-ok _ _ e in
    let closed = finish-IsClosed s t id now _ v c h in
    subst IsSound (ok_inj shape) (with_upload-IsSound id t _ closed (closed.finished, closed.has))
worker-IsSound s s' v (ambiguous id reason now c e) =
    let (attempt, c', e') = bind-eq-ok _ _ e in
    let (t, h, shape) = bind-eq-ok _ _ e' in
    let closed = finish-IsClosed s t id now _ v c h in
    let same = (current-attempting s.upload id c').1 in
    subst IsSound (ok_inj shape) (
      with_upload-IsSound id t _ closed (
        closed.finished,
        subst (λ j. has_attempt j t.upload_attempts ≡ true) (sym same) closed.has,
      ))

-- The attempt that an operator resolves is in the history, which is finished by its resolution.
remote-of-recoverable :
    (u : UploadState) (id : Option Uuid)
    → recoverable_upload_attempt_id u ≡ ok id
    → (is_remote u ≡ true) × (is_uploaded u ≡ false)
unfolding recoverable_upload_attempt_id is_uploaded
remote-of-recoverable u id h = ground arith

ready-of-remote :
    (a : ArtifactState) (u : UploadState)
    → is_remote u ≡ true
    → is_uploaded u ≡ false
    → artifact_fits a u ≡ true
    → is_ready a ≡ true
unfolding is_ready
ready-of-remote a u h k f = ground arith

-- The history is finished, or the attempt to resolve is open.
resolvable :
    (u : UploadState) (id : Option Uuid) (rs : List UploadAttempt)
    → recoverable_upload_attempt_id u ≡ ok id
    → HistoryFits u rs
    → AllFinished rs ⊎ ((i : Uuid) × (id ≡ some i) × OpenAt i rs)
unfolding recoverable_upload_attempt_id
resolvable UploadState.not_planned id rs c h = cc
resolvable (UploadState.pending _ _ _) id rs c h = cc
resolvable (UploadState.attempting a) id rs c h = inr (a.id, sym (ok_inj c), h)
resolvable (UploadState.blocked none _) id rs c h = inl h
resolvable (UploadState.blocked (some i) _) id rs c h = inl h.0
resolvable (UploadState.ambiguous a _) id rs c h = inl h.0
resolvable (UploadState.uploaded _) id rs c h = cc
resolvable (UploadState.cancelled _ _) id rs c h = cc

pub unfinished-shape :
    (s t : Segment) (i : Uuid) (now : Timestamp)
    → finish_unfinished_upload_as_ambiguous s i now ≡ ok t
    → (finish_attempts_as_ambiguous s.upload_attempts i now ≡ ok t.upload_attempts)
      × (t.artifact ≡ s.artifact)
unfolding finish_unfinished_upload_as_ambiguous
unfinished-shape s t i now h = ground arith

named-finished :
    (id : Option Uuid) (s t : Segment) (now : Timestamp)
    → AllFinished s.upload_attempts ⊎ ((i : Uuid) × (id ≡ some i) × OpenAt i s.upload_attempts)
    → finish_if_named id s now ≡ ok t
    → AllFinished t.upload_attempts × (t.artifact ≡ s.artifact)
named-finished none s t now (inl h) e =
    subst (λ r. AllFinished r.upload_attempts × (r.artifact ≡ s.artifact)) (ok_inj e) (h, refl)
named-finished none s t now (inr (i, same, h)) e = cc
named-finished (some j) s t now (inl h) e =
    let (f, kept_artifact) = unfinished-shape s t j now e in
    (subst AllFinished (sym (closed-of-AllFinished _ _ j now h f)) h, kept_artifact)
named-finished (some j) s t now (inr (i, same, h)) e =
    let (f, kept_artifact) = unfinished-shape s t j now e in
    let current = subst (λ k. OpenAt k s.upload_attempts) (some_inj (sym same)) h in
    ((closed-of-OpenAt _ _ j now current f).0, kept_artifact)

-- An upload whose history may be any finished one.
abbrev is_settled : UploadState → Bool
is_settled (UploadState.attempting _) = false
is_settled (UploadState.ambiguous _ _) = false
is_settled (UploadState.blocked (some _) _) = false
is_settled _ = true

fits-of-settled :
    (u : UploadState) (rs : List UploadAttempt)
    → is_settled u ≡ true
    → AllFinished rs
    → HistoryFits u rs
fits-of-settled UploadState.not_planned rs h f = f
fits-of-settled (UploadState.pending _ _ _) rs h f = f
fits-of-settled (UploadState.attempting _) rs h f = cc
fits-of-settled (UploadState.blocked none _) rs h f = f
fits-of-settled (UploadState.blocked (some i) _) rs h f = cc
fits-of-settled (UploadState.ambiguous _ _) rs h f = cc
fits-of-settled (UploadState.uploaded _) rs h f = f
fits-of-settled (UploadState.cancelled _ _) rs h f = f

resolve-IsSound :
    (decision : UploadResolutionDecision) (remark : Option String) (u : UploadState)
    (id : Option Uuid) (s s' : Segment) (now : Timestamp)
    → is_settled u ≡ true
    → IsSound s
    → recoverable_upload_attempt_id s.upload ≡ ok id
    → resolve_with decision remark u id s now ≡ ok s'
    → IsSound s'
unfolding resolve_with
resolve-IsSound decision remark u id s s' now settled v c e =
    let (t, h, shape) = bind-eq-ok _ _ e in
    let (finished, same) = named-finished id s t now (resolvable s.upload id _ c v.history) h in
    let (remote, fresh) = remote-of-recoverable s.upload id c in
    subst IsSound (ok_inj shape) (record {
      artifact = fits-of-ready t.artifact u (
          subst (λ a. is_ready a ≡ true) (sym same)
            (ready-of-remote s.artifact s.upload remote fresh v.artifact));
      history = fits-of-settled u t.upload_attempts settled finished;
    })

settled-after_denial :
    (l : SessionLifecycle) (now : Timestamp) → is_settled (upload_after_denial l now) ≡ true
unfolding pending_upload
settled-after_denial l now = ground arith

cancelled-fits :
    (a : ArtifactState) (u : UploadState) (now : Timestamp) (reason : String)
    → (is_pending u ≡ true) ⊎ (is_ready a ≡ true)
    → artifact_fits a u ≡ true
    → artifact_fits a (UploadState.cancelled now reason) ≡ true
unfolding is_pending is_ready is_uploaded
cancelled-fits a u now reason h f = ground arith

abandon_by-IsSound :
    (u : UploadState) (s s' : Segment) (now : Timestamp)
    → s.upload ≡ u
    → IsSound s
    → artifact_fits s.artifact u ≡ true
    → HistoryFits u s.upload_attempts
    → abandon_by u s now ≡ ok s'
    → IsSound s'
unfolding is_pending is_uploaded
abandon_by-IsSound UploadState.not_planned s s' now at v f h e = subst IsSound (ok_inj e) v
abandon_by-IsSound (UploadState.pending _ _ _) s s' now at v f h e =
    subst IsSound (ok_inj e)
      (record { artifact = cancelled-fits s.artifact _ now _ (inl refl) f; history = h })
abandon_by-IsSound (UploadState.attempting a) s s' now at v f h e =
    let (t, g, shape) = bind-eq-ok _ _ e in
    let (c, same) = unfinished-shape s t a.id now g in
    let (finished, has) = closed-of-OpenAt _ _ a.id now h c in
    let ready = ready-of-remote s.artifact (UploadState.attempting a) refl refl f in
    subst IsSound (ok_inj shape) (record {
      artifact = fits-of-ready t.artifact _ (subst (λ b. is_ready b ≡ true) (sym same) ready);
      history = (finished, has);
    })
abandon_by-IsSound (UploadState.blocked none r) s s' now at v f h e =
    let ready = ready-of-remote s.artifact (UploadState.blocked none r) refl refl f in
    subst IsSound (ok_inj e) (record { artifact = fits-of-ready s.artifact _ ready; history = h })
abandon_by-IsSound (UploadState.blocked (some i) r) s s' now at v f h e =
    let ready = ready-of-remote s.artifact (UploadState.blocked (some i) r) refl refl f in
    subst IsSound (ok_inj e) (record { artifact = fits-of-ready s.artifact _ ready; history = h.0 })
abandon_by-IsSound (UploadState.ambiguous a r) s s' now at v f h e = subst IsSound (ok_inj e) v
abandon_by-IsSound (UploadState.uploaded p) s s' now at v f h e = subst IsSound (ok_inj e) v
abandon_by-IsSound (UploadState.cancelled n r) s s' now at v f h e = subst IsSound (ok_inj e) v

operator-IsSound : (s s' : Segment) → IsSound s → OperatorStep s s' → IsSound s'
unfolding abandon_upload
operator-IsSound s s' v (deny l remark id now c e) =
    resolve-IsSound _ remark _ id s s' now (settled-after_denial l now) v c e
operator-IsSound s s' v (affirm proof remark id now c e) =
    resolve-IsSound _ remark _ id s s' now refl v c e
operator-IsSound s s' v (abandon now c e) =
    abandon_by-IsSound s.upload s s' now refl v v.artifact v.history e

-- Every step keeps a segment sound.
pub step-IsSound : {a : Actor} (s s' : Segment) → IsSound s → SegmentStep a s s' → IsSound s'
step-IsSound s s' v (artifact st) = artifact-IsSound s s' v st
step-IsSound s s' v (worker st) = worker-IsSound s s' v st
step-IsSound s s' v (operator by st) = operator-IsSound s s' v st

planned-fits :
    (plan : OutputPlan) (rs : List UploadAttempt)
    → rs ≡ []
    → HistoryFits (planned_upload plan) rs × (is_remote (planned_upload plan) ≡ false)
unfolding pending_upload
planned-fits OutputPlan.local_only rs e = (subst AllFinished (sym e) tt, refl)
planned-fits (OutputPlan.bilibili upload submission) rs e = (subst AllFinished (sym e) tt, refl)

new-IsSound : (s : Segment) → IsNew s → IsSound s
new-IsSound s new =
    let (history, local) = planned-fits new.plan s.upload_attempts new.no_attempts in
    record {
      artifact =
          subst₂ (λ a u. artifact_fits a u ≡ true) (sym new.is_writing) (sym new.upload)
            (ap not local);
      history = subst (λ u. HistoryFits u s.upload_attempts) (sym new.upload) history;
    }

pub Evolves-IsSound :
    {a : Actor} {m n : Segments}
    → Evolves a m n
    → Each (λ k s. IsSound s) m
    → Each (λ k s. IsSound s) n
Evolves-IsSound here h = h
Evolves-IsSound (step k {s = s} {s' = s'} ev found st) h =
    let before = Evolves-IsSound ev h in
    Each-put _ _ s' _ (step-IsSound s s' (Each-get _ k _ before found) st) before
Evolves-IsSound (opened {s = s} ev absent new) h =
    Each-put _ _ s _ (new-IsSound s new) (Evolves-IsSound ev h)
