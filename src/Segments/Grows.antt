-- ===== src/Segments/Grows.antt =====
-- How a step changes the history of upload attempts.
use bilive_rec.Prelude.{
  ◌≡◌, refl, sym, ◌∙◌, subst, false, List, [], ◌∷◌, ◌++◌, is_some, is_none, arith, Bool-cases, inl,
  inr, ◌⊎◌, if◌then◌else◌, Option-cases, ◌==◌, none, some, Option, String,
}
use bilive_rec.Errors.{ok, ok_inj, bind-eq-ok}
use bilive_rec.Model.{Uuid, Timestamp}
use bilive_rec.Model.Segment.{
  Segment, UploadState, UploadAttempt, UploadAttemptOutcome, UploadResolutionDecision,
}
use bilive_rec.Transitions.History.{
  finish_attempts, finish_attempts_as_ambiguous, finish_upload_history,
}
use bilive_rec.Transitions.UploadSteps.{
  confirm_upload, retry_upload, block_with, make_ambiguous, resolve_with, finish_if_named,
  abandon_by, abandon_upload,
}
use bilive_rec.Segments.Step.{
  Actor, SegmentStep, WorkerStep, OperatorStep, artifact, worker, operator, claim, confirm, retry,
  block, ambiguous, deny, affirm, abandon,
}
use bilive_rec.Segments.Sound.{IsSound, artifact-move, claim-shape, finish-shape}
use bilive_rec.Segments.SoundSteps.{unfinished-shape}

-- A record that is the same, or is of the same attempt and had no outcome.
abbrev pub Continues : UploadAttempt → UploadAttempt → Type 0
Continues r t = (t ≡ r) ⊎ ((is_some r.outcome ≡ false) × (t.attempt ≡ r.attempt))

-- The second history begins with records that continue those of the first.
abbrev pub Grows : List UploadAttempt → List UploadAttempt → Type 0
Grows [] ts = Unit
Grows (r ∷ rs) [] = ⊥
Grows (r ∷ rs) (t ∷ ts) = Continues r t × Grows rs ts

Continues-trans : (r s t : UploadAttempt) → Continues r s → Continues s t → Continues r t
Continues-trans r s t (inl e) q = subst (λ u. Continues u t) e q
Continues-trans r s t (inr p) (inl e) = subst (Continues r) (sym e) (inr p)
Continues-trans r s t (inr p) (inr q) = inr (p.0, q.1 ∙ p.1)

pub Grows-refl : (rs : List UploadAttempt) → Grows rs rs
Grows-refl [] = tt
Grows-refl (r ∷ rs) = (inl refl, Grows-refl rs)

pub Grows-trans : (rs ss ts : List UploadAttempt) → Grows rs ss → Grows ss ts → Grows rs ts
Grows-trans [] ss ts p q = tt
Grows-trans (r ∷ rs) [] ts p q = absurd p
Grows-trans (r ∷ rs) (s ∷ ss) [] p q = absurd q
Grows-trans (r ∷ rs) (s ∷ ss) (t ∷ ts) (e, p) (e', q) =
    (Continues-trans r s t e e', Grows-trans rs ss ts p q)

Grows-append : (rs ts : List UploadAttempt) → Grows rs (rs ++ ts)
Grows-append [] ts = tt
Grows-append (r ∷ rs) ts = (inl refl, Grows-append rs ts)

Grows-finish_attempts :
    (rs ts : List UploadAttempt) (id : Uuid) (now : Timestamp) (o : UploadAttemptOutcome)
    → finish_attempts rs id now o ≡ ok ts
    → Grows rs ts
unfolding finish_attempts
Grows-finish_attempts [] ts id now o e = tt
Grows-finish_attempts (r ∷ rs) ts id now o e = elim (Bool-cases (r.attempt.id == id)) [
  | inl same ↦
      let shape : (is_some r.outcome ≡ false)
          × (ts ≡ record r { finished_at = some now; outcome = some o } ∷ rs) =
        ground arith in
      subst (Grows (r ∷ rs)) (sym shape.1) (inr (shape.0, refl), Grows-refl rs)
  | inr other ↦
      let (l, tail, same) = bind-eq-ok _ (λ l. ok (r ∷ l)) (rw other at e) in
      subst (Grows (r ∷ rs)) (ok_inj same) (inl refl, Grows-finish_attempts rs l id now o tail)
]

closing-Continues :
    (r : UploadAttempt) (now : Timestamp)
    → Continues r (
        if is_none r.outcome
        then record r {
          finished_at = some now;
          outcome =
              some (UploadAttemptOutcome.ambiguous "operator resolved an interrupted attempt");
        }
        else r)
closing-Continues r now = elim (Option-cases r.outcome) [
  | inl absent ↦ inr (ground arith, ground arith)
  | inr (o, given) ↦ inl (ground arith)
]

Grows-as_ambiguous :
    (rs ts : List UploadAttempt) (id : Uuid) (now : Timestamp)
    → finish_attempts_as_ambiguous rs id now ≡ ok ts
    → Grows rs ts
unfolding finish_attempts_as_ambiguous
Grows-as_ambiguous [] ts id now e = tt
Grows-as_ambiguous (r ∷ rs) ts id now e = elim (Bool-cases (r.attempt.id == id)) [
  | inl same ↦
      subst (Grows (r ∷ rs)) (ok_inj (rw same at e)) (closing-Continues r now, Grows-refl rs)
  | inr other ↦
      let (l, tail, same) = bind-eq-ok _ (λ l. ok (r ∷ l)) (rw other at e) in
      subst (Grows (r ∷ rs)) (ok_inj same) (inl refl, Grows-as_ambiguous rs l id now tail)
]

finish-Grows :
    (s t : Segment) (id : Uuid) (now : Timestamp) (o : UploadAttemptOutcome)
    → finish_upload_history s id now o ≡ ok t
    → Grows s.upload_attempts t.upload_attempts
finish-Grows s t id now o h = Grows-finish_attempts _ _ id now o (finish-shape s t id now o h).0

worker-Grows : (s s' : Segment) → WorkerStep s s' → Grows s.upload_attempts s'.upload_attempts
unfolding confirm_upload retry_upload block_with make_ambiguous
worker-Grows s s' (claim a e) =
    let (ready, pending, absent, shape) = claim-shape a s s' e in
    subst (λ t. Grows s.upload_attempts t.upload_attempts) (sym shape) (Grows-append _ _)
worker-Grows s s' (confirm id proof now c e) =
    let (t, h, shape) = bind-eq-ok _ _ e in
    subst (λ u. Grows s.upload_attempts u.upload_attempts) (ok_inj shape)
      (finish-Grows s t id now _ h)
worker-Grows s s' (retry id reason at now c e) =
    let (t, h, shape) = bind-eq-ok _ _ e in
    subst (λ u. Grows s.upload_attempts u.upload_attempts) (ok_inj shape)
      (finish-Grows s t id now _ h)
worker-Grows s s' (block id reason now c e) =
    let (t, h, shape) = bind-eq-ok _ _ e in
    subst (λ u. Grows s.upload_attempts u.upload_attempts) (ok_inj shape)
      (finish-Grows s t id now _ h)
worker-Grows s s' (ambiguous id reason now c e) =
    let (t, h, shape) = bind-eq-ok _ _ (rw c at e) in
    subst (λ u. Grows s.upload_attempts u.upload_attempts) (ok_inj shape)
      (finish-Grows s t id now _ h)

named-Grows :
    (id : Option Uuid) (s t : Segment) (now : Timestamp)
    → finish_if_named id s now ≡ ok t
    → Grows s.upload_attempts t.upload_attempts
named-Grows none s t now e =
    subst (λ u. Grows s.upload_attempts u.upload_attempts) (ok_inj e) (Grows-refl _)
named-Grows (some i) s t now e = Grows-as_ambiguous _ _ i now (unfinished-shape s t i now e).0

resolve-Grows :
    (decision : UploadResolutionDecision) (remark : Option String) (u : UploadState)
    (id : Option Uuid) (s s' : Segment) (now : Timestamp)
    → resolve_with decision remark u id s now ≡ ok s'
    → Grows s.upload_attempts s'.upload_attempts
unfolding resolve_with
resolve-Grows decision remark u id s s' now e =
    let (t, h, shape) = bind-eq-ok _ _ e in
    subst (λ u. Grows s.upload_attempts u.upload_attempts) (ok_inj shape) (named-Grows id s t now h)

abandon-Grows :
    (u : UploadState) (s s' : Segment) (now : Timestamp)
    → abandon_by u s now ≡ ok s'
    → Grows s.upload_attempts s'.upload_attempts
abandon-Grows (UploadState.attempting a) s s' now e =
    let (t, h, shape) = bind-eq-ok _ _ e in
    subst (λ u. Grows s.upload_attempts u.upload_attempts) (ok_inj shape)
      (named-Grows (some a.id) s t now h)
abandon-Grows UploadState.not_planned s s' now e =
    subst (λ u. Grows s.upload_attempts u.upload_attempts) (ok_inj e) (Grows-refl _)
abandon-Grows (UploadState.pending _ _ _) s s' now e =
    subst (λ u. Grows s.upload_attempts u.upload_attempts) (ok_inj e) (Grows-refl _)
abandon-Grows (UploadState.blocked _ _) s s' now e =
    subst (λ u. Grows s.upload_attempts u.upload_attempts) (ok_inj e) (Grows-refl _)
abandon-Grows (UploadState.ambiguous _ _) s s' now e =
    subst (λ u. Grows s.upload_attempts u.upload_attempts) (ok_inj e) (Grows-refl _)
abandon-Grows (UploadState.uploaded _) s s' now e =
    subst (λ u. Grows s.upload_attempts u.upload_attempts) (ok_inj e) (Grows-refl _)
abandon-Grows (UploadState.cancelled _ _) s s' now e =
    subst (λ u. Grows s.upload_attempts u.upload_attempts) (ok_inj e) (Grows-refl _)

operator-Grows : (s s' : Segment) → OperatorStep s s' → Grows s.upload_attempts s'.upload_attempts
unfolding abandon_upload
operator-Grows s s' (deny l remark id now c e) = resolve-Grows _ remark _ id s s' now e
operator-Grows s s' (affirm proof remark id now c e) = resolve-Grows _ remark _ id s s' now e
operator-Grows s s' (abandon now c e) = abandon-Grows s.upload s s' now e

pub step-Grows :
    {a : Actor} (s s' : Segment)
    → IsSound s
    → SegmentStep a s s'
    → Grows s.upload_attempts s'.upload_attempts
step-Grows s s' v (artifact st) =
    subst (Grows s.upload_attempts) (sym (artifact-move s s' v.artifact st).same_history)
      (Grows-refl _)
step-Grows s s' v (worker st) = worker-Grows s s' st
step-Grows s s' v (operator by st) = operator-Grows s s' st
