-- ===== src/Segments/Attempts.antt =====
-- Upload histories with at most one open attempt, and finishing it.
use bilive_rec.Prelude.{
  ◌≡◌, refl, ◌≢◌, sym, ◌∙◌, subst, ap, Bool-cases, Bool, true, false, none, some, List, [], ◌∷◌,
  ◌++◌, arith, any, ◌==◌, is_some, ◌⊎◌, inl, inr,
}
use bilive_rec.Errors.{ok, ok_inj, bind-eq-ok}
use bilive_rec.Model.{Uuid, Timestamp}
use bilive_rec.Model.Segment.{UploadAttempt, UploadAttemptOutcome, RemoteAttempt}
use bilive_rec.Transitions.History.{finish_attempts, finish_attempts_as_ambiguous}

abbrev pub IsFinished : UploadAttempt → Type 0
IsFinished r = (is_some r.finished_at ≡ true) × (is_some r.outcome ≡ true)

abbrev pub IsOpen : UploadAttempt → Type 0
IsOpen r = (is_some r.finished_at ≡ false) × (is_some r.outcome ≡ false)

abbrev pub AllFinished : List UploadAttempt → Type 0
AllFinished [] = Unit
AllFinished (r ∷ rs) = IsFinished r × AllFinished rs

-- The attempt `id` is in the history once, without an outcome, and every other record has one.
abbrev pub OpenAt : Uuid → List UploadAttempt → Type 0
OpenAt id [] = ⊥
OpenAt id (r ∷ rs) =
    ((r.attempt.id ≡ id) × IsOpen r × AllFinished rs)
    ⊎ ((r.attempt.id ≢ id) × IsFinished r × OpenAt id rs)

abbrev pub has_attempt : Uuid → List UploadAttempt → Bool
has_attempt id rs = any (λ r. r.attempt.id == id) rs

pub OpenAt-append :
    (a : RemoteAttempt) (rs : List UploadAttempt)
    → AllFinished rs
    → has_attempt a.id rs ≡ false
    → OpenAt a.id (rs ++ record { attempt = a; finished_at = none; outcome = none } ∷ [])
unfolding any
OpenAt-append a [] h absent = inl (refl, (refl, refl), tt)
OpenAt-append a (r ∷ rs) h absent = inr (ground arith, h.0, OpenAt-append a rs h.1 (ground arith))

-- An open attempt can always be finished, and then every record is.
pub finish_attempts-OpenAt :
    (rs : List UploadAttempt) (id : Uuid) (now : Timestamp) (o : UploadAttemptOutcome)
    → OpenAt id rs
    → (rs' : List UploadAttempt) × (finish_attempts rs id now o ≡ ok rs')
      × AllFinished rs'
      × (has_attempt id rs' ≡ true)
unfolding finish_attempts any
finish_attempts-OpenAt [] id now o h = absurd h
finish_attempts-OpenAt (r ∷ rs) id now o (inl (same, open', rest)) = (
  record r { finished_at = some now; outcome = some o } ∷ rs,
  ground arith,
  ((refl, refl), rest),
  ground arith,
)
finish_attempts-OpenAt (r ∷ rs) id now o (inr (other, done, rest)) =
    let (rs', e, finished, has) = finish_attempts-OpenAt rs id now o rest in
    (r ∷ rs', ground arith, (done, finished), ground arith)

pub finished-of-OpenAt :
    (rs rs' : List UploadAttempt) (id : Uuid) (now : Timestamp) (o : UploadAttemptOutcome)
    → OpenAt id rs
    → finish_attempts rs id now o ≡ ok rs'
    → AllFinished rs' × (has_attempt id rs' ≡ true)
finished-of-OpenAt rs rs' id now o h e =
    let (rs'', e'', finished, has) = finish_attempts-OpenAt rs id now o h in
    subst (λ l. AllFinished l × (has_attempt id l ≡ true)) (ok_inj (sym e'' ∙ e)) (finished, has)

-- Closing an open attempt as ambiguous works as well, ...
closing-OpenAt :
    (rs : List UploadAttempt) (id : Uuid) (now : Timestamp)
    → OpenAt id rs
    → (rs' : List UploadAttempt) × (finish_attempts_as_ambiguous rs id now ≡ ok rs')
      × AllFinished rs'
      × (has_attempt id rs' ≡ true)
unfolding finish_attempts_as_ambiguous any
closing-OpenAt [] id now h = absurd h
closing-OpenAt (r ∷ rs) id now (inl (same, (at, out), rest)) =
    let outcome = UploadAttemptOutcome.ambiguous "operator resolved an interrupted attempt" in
    (
      record r { finished_at = some now; outcome = some outcome } ∷ rs,
      ground arith,
      ((refl, refl), rest),
      ground arith,
    )
closing-OpenAt (r ∷ rs) id now (inr (other, done, rest)) =
    let (rs', e, finished, has) = closing-OpenAt rs id now rest in
    (r ∷ rs', ground arith, (done, finished), ground arith)

pub closed-of-OpenAt :
    (rs rs' : List UploadAttempt) (id : Uuid) (now : Timestamp)
    → OpenAt id rs
    → finish_attempts_as_ambiguous rs id now ≡ ok rs'
    → AllFinished rs' × (has_attempt id rs' ≡ true)
closed-of-OpenAt rs rs' id now h e =
    let (rs'', e'', finished, has) = closing-OpenAt rs id now h in
    subst (λ l. AllFinished l × (has_attempt id l ≡ true)) (ok_inj (sym e'' ∙ e)) (finished, has)

-- ... and changes nothing where every record is finished.
pub closed-of-AllFinished :
    (rs rs' : List UploadAttempt) (id : Uuid) (now : Timestamp)
    → AllFinished rs
    → finish_attempts_as_ambiguous rs id now ≡ ok rs'
    → rs' ≡ rs
unfolding finish_attempts_as_ambiguous
closed-of-AllFinished [] rs' id now h e = cc
closed-of-AllFinished (r ∷ rs) rs' id now h e = elim (Bool-cases (r.attempt.id == id)) [
  | inl same ↦ ground arith
  | inr other ↦
      let (l, tail, same) = bind-eq-ok _ (λ l. ok (r ∷ l)) (rw other at e) in
      sym (ok_inj same) ∙ ap (λ t. r ∷ t) (closed-of-AllFinished rs l id now h.1 tail)
]
