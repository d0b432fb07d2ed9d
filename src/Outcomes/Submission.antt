-- ===== src/Outcomes/Submission.antt =====
-- begin_submission of src/state/transitions.rs, taken apart.
use bilive_rec.Prelude.{
  ℕ, suc, ◌≡◌, refl, sym, ◌∙◌, ap, subst, Bool, true, false, List, [], ◌∷◌, All, count_where, ◌==◌,
  some, if◌then◌else◌, ◌⊎◌, inl, inr, Bool-cases, any, ◌&&◌,
}
use bilive_rec.Errors.{
  Result, ok, err, state_error, segment_not_ready_for_submission, StateError, ok_inj, ◌>>=◌,
}
use bilive_rec.Model.{Uuid}
use bilive_rec.Model.Session.{LiveSession, permits_submission}
use bilive_rec.Model.Target.{target_of}
use bilive_rec.Model.Segment.{
  Segment, RemoteAttempt, ArtifactState, UploadState, is_uploaded, is_usable,
}
use bilive_rec.Model.Submission.{Submission}
use bilive_rec.Store.Table.{get}
use bilive_rec.Store.Keys.{id_key}
use bilive_rec.Store.Range.{range_scan}
use bilive_rec.Store.Txn.{Env, Db, fail_if}
use bilive_rec.Transitions.Targets.{consume_target_ready}
use bilive_rec.Transitions.Quiet.{Quiet-consume_target_ready}
use bilive_rec.Transitions.SubmissionSteps.{PartStatus, part_status, count_parts}
use bilive_rec.Transitions.Submissions.{begin_submission, require_submission_parts}
use bilive_rec.Outcomes.Inversion.{
  Returns, Returns-write, Returns-bind, Returns-gets, Returns-fail_if, Returns-or_fail,
  Returns-lift,
}
use bilive_rec.Outcomes.Guarded.{Returns-require_session, not-false}

abbrev pub status : Segment → PartStatus
status s = part_status s.artifact s.upload

abbrev pub is_part : PartStatus → Bool
is_part PartStatus.part = true
is_part _ = false

abbrev pub is_unready : PartStatus → Bool
is_unready PartStatus.unready = true
is_unready _ = false

counted :
    (st : PartStatus) (rest : Result ℕ) (A : Type 0) (c n : ℕ)
    → ((m : ℕ) → rest ≡ ok m → A × (m ≡ c))
    → (elim st as (λ _. Result ℕ) [
      | PartStatus.skipped ↦ rest
      | PartStatus.part ↦ (do m ← rest; ok (suc m))
      | PartStatus.unready ↦ state_error segment_not_ready_for_submission
    ])
      ≡ ok n
    → ((is_unready st ≡ false) × A) × (n ≡ (if is_part st then suc c else c))
counted PartStatus.skipped rest A c n h e = let (a, same) = h n e in ((refl, a), same)
counted PartStatus.part (ok m) A c n h e =
    let (a, same) = h m refl in ((refl, a), sym (ok_inj e) ∙ ap suc same)
counted PartStatus.part (err f) A c n h e = cc
counted PartStatus.unready rest A c n h e = cc

-- count_parts only succeeds where no segment is in the way, and counts the parts.
count_parts-ok :
    (xs : List Segment) (n : ℕ)
    → count_parts xs ≡ ok n
    → All (λ s. is_unready (status s) ≡ false) xs × (n ≡ count_where (λ s. is_part (status s)) xs)
unfolding count_parts count_where
count_parts-ok [] n h = (tt, sym (ok_inj h))
count_parts-ok (s ∷ xs) n h =
    counted (status s) (count_parts xs) (All (λ s. is_unready (status s) ≡ false) xs)
      (count_where (λ s. is_part (status s)) xs) n (count_parts-ok xs) h

passed :
    (b : Bool) (e : StateError) (env : Env) (db : Db) → Returns (fail_if b e) env db tt → b ≡ false
unfolding fail_if
passed true e env db h = cc
passed false e env db h = refl

-- A segment that needs no upload any more, by what its row says.
abbrev pub is_left_out : ArtifactState → Bool
is_left_out (ArtifactState.filtered _) = true
is_left_out (ArtifactState.excluded _) = true
is_left_out _ = false

-- Its upload is Uploaded, and its file is the one that was uploaded, or has been deleted since.
unfoldable pub is_uploaded_part : Segment → Bool
unfolding is_uploaded is_usable
is_uploaded_part s = is_uploaded s.upload && is_usable s.artifact

abbrev pub IsSettled : Segment → Type 0
IsSettled s = (is_uploaded_part s ≡ true) ⊎ (is_left_out s.artifact ≡ true)

uploaded_part_of :
    (a : ArtifactState) (u : UploadState)
    → is_part (part_status a u) ≡ true
    → (is_uploaded u && is_usable a) ≡ true
unfolding part_status is_uploaded is_usable
uploaded_part_of (ArtifactState.ready _) (UploadState.uploaded _) h = refl
uploaded_part_of ArtifactState.deleting (UploadState.uploaded _) h = refl
uploaded_part_of ArtifactState.deleted (UploadState.uploaded _) h = refl
uploaded_part_of _ _ h = absurd cc

settled_of :
    (a : ArtifactState) (u : UploadState)
    → is_unready (part_status a u) ≡ false
    → ((is_uploaded u && is_usable a) ≡ true) ⊎ (is_left_out a ≡ true)
unfolding part_status is_uploaded is_usable
settled_of (ArtifactState.filtered _) u h = inr refl
settled_of (ArtifactState.excluded _) u h = inr refl
settled_of (ArtifactState.ready _) (UploadState.uploaded _) h = inl refl
settled_of ArtifactState.deleting (UploadState.uploaded _) h = inl refl
settled_of ArtifactState.deleted (UploadState.uploaded _) h = inl refl
settled_of _ _ h = absurd cc

All-IsSettled : (xs : List Segment) → All (λ s. is_unready (status s) ≡ false) xs → All IsSettled xs
unfolding is_uploaded_part
All-IsSettled [] h = tt
All-IsSettled (s ∷ xs) (p, h) = (settled_of s.artifact s.upload p, All-IsSettled xs h)

some_part :
    (xs : List Segment)
    → (count_where (λ s. is_part (status s)) xs == 0) ≡ false
    → any is_uploaded_part xs ≡ true
unfolding count_where any is_uploaded_part
some_part [] h = cc
some_part (s ∷ xs) h = elim (Bool-cases (is_part (status s))) [
  | inl here ↦ rw (uploaded_part_of s.artifact s.upload here) refl
  | inr there ↦ elim (Bool-cases (is_uploaded s.upload && is_usable s.artifact)) [
    | inl uploaded ↦ rw uploaded refl
    | inr other ↦ rw other (some_part xs (rw there at h))
  ]
]

-- The session is Completed, each segment of it is settled, and at least one is uploaded.
pub record MaySubmit (db : Db) (id : Uuid) : Type 0 where
  pub session : LiveSession
  pub session_found : get db.sessions id ≡ some session
  pub completed : permits_submission session.lifecycle ≡ true
  pub settled : All IsSettled (range_scan id db.segments)
  pub uploaded : any is_uploaded_part (range_scan id db.segments) ≡ true

parts-ok :
    (id : Uuid) (env : Env) (db : Db)
    → Returns (require_submission_parts id) env db tt
    → All IsSettled (range_scan id db.segments)
      × (any is_uploaded_part (range_scan id db.segments) ≡ true)
unfolding require_submission_parts
parts-ok id env db h =
    let h1 = Returns-gets env db _ _ h in
    let (n, e, h2) = Returns-lift env db _ _ h1 in
    let (settled, same) = count_parts-ok (range_scan id db.segments) n e in
    (
      All-IsSettled _ settled,
      some_part _ (subst (λ m. (m == 0) ≡ false) same (passed (n == 0) _ env db h2)),
    )

-- If begin_submission succeeds, then the session is Completed, each segment of it is Uploaded with an
-- artifact that is Ready, Deleting or Deleted, or is Filtered or Excluded, and at least one is
-- Uploaded.
pub begin_submission-MaySubmit :
    (id : Uuid) (attempt : RemoteAttempt) (env : Env) (db : Db) (s : Submission)
    → (begin_submission id attempt env db).0 ≡ ok s
    → MaySubmit db id
unfolding begin_submission
begin_submission-MaySubmit id attempt env db s h =
    let (session, session_found, h1) =
      Returns-require_session env db id _ (Returns-write env db _ h) in
    let (completed, h2) = Returns-fail_if env db _ _ _ h1 in
    let (plan, planned, h3) = Returns-or_fail env db _ _ _ h2 in
    let (u, consumed, h4) = Returns-bind (consume_target_ready _ _) _ env db h3 in
    let (v, counted, h5) = Returns-bind (require_submission_parts id) _ env _ h4 in
    let (settled, uploaded) = parts-ok id env _ counted in
    let q : (consume_target_ready (target_of plan) attempt.started_at env db).1.segments
        ≡ db.segments =
      (Quiet-consume_target_ready {π = λ t. t.segments} (λ t r. refl) (target_of plan)
          attempt.started_at).same
        env db in
    record {
      session = session;
      session_found = session_found;
      completed = not-false _ completed;
      settled = subst (λ m. All IsSettled (range_scan id m)) q settled;
      uploaded = subst (λ m. any is_uploaded_part (range_scan id m) ≡ true) q uploaded;
    }
