-- ===== src/Inspection/Owners.antt =====
-- Where sessions and rooms agree, the report has no mismatch of ownership.
use bilive_rec.Prelude.{
  ℕ, ◌≡◌, refl, sym, ◌∙◌, ap, subst, Bool, true, false, not, ◌==◌, Option, none, some, List, [],
  ◌∷◌, ◌++◌, any, find, if◌then◌else◌, arith, Bool-cases, inl, inr, ==_iff,
}
use bilive_rec.Model.{Uuid}
use bilive_rec.Model.Session.{LiveSession, SessionLifecycle, is_closed}
use bilive_rec.Model.Segment.{Segment, ArtifactState, UploadState}
use bilive_rec.Model.Submission.{Submission, SubmissionState}
use bilive_rec.Model.Room.{RoomState, RoomLifecycle, room_session_id, room_lifecycle_eq}
use bilive_rec.Model.Target.{UploadTargetGate, UploadTargetState}
use bilive_rec.Store.Table.{get, values}
use bilive_rec.Store.Keys.{id_key}
use bilive_rec.Transitions.Guards.{desired_room}
use bilive_rec.Rooms.Owned.{
  Sessions, Rooms, Agree, SessionFits, RoomFits, NamedFits, IsOwner, RowFits,
}
use bilive_rec.Audit.Listed.{IsAscending, Stored, Stored-self}
use bilive_rec.Inspection.Anomalies.{
  AnomalyKind, FilePresence, SegmentFilePresence, push_if, inspect_lifecycle, inspect_session,
  is_owner_of, is_valid_owner, inspect_room_lifecycle, inspect_room, inspect_finalizing, is_present,
  inspect_discarding, inspect_artifact, inspect_segment_files, inspect_upload_state, inspect_upload,
  inspect_owner, inspect_submission_state, inspect_submission, inspect_gate, inspect_upload_target,
  room_ownership_mismatch,
}
use bilive_rec.Inspection.Detect.{
  all_anomalies, session_by_id, inspect_segment, inspect_row, detect_anomalies,
}

abbrev pub is_mismatch : AnomalyKind → Bool
is_mismatch room_ownership_mismatch = true
is_mismatch _ = false

record IsFree (kinds : List AnomalyKind) : Type 0 where
  pub free : any is_mismatch kinds ≡ false

nothing-IsFree : IsFree []
unfolding any
nothing-IsFree = record { free = refl }

cons-IsFree :
    (k : AnomalyKind) (l : List AnomalyKind) → is_mismatch k ≡ false → IsFree l → IsFree (k ∷ l)
unfolding any
cons-IsFree k l h p = record { free = rw h p.free }

one-IsFree : (k : AnomalyKind) → is_mismatch k ≡ false → IsFree (k ∷ [])
one-IsFree k h = cons-IsFree k [] h nothing-IsFree

append-IsFree : (k l : List AnomalyKind) → IsFree k → IsFree l → IsFree (k ++ l)
unfolding any
append-IsFree [] l p q = q
append-IsFree (a ∷ k) l p q = elim (Bool-cases (is_mismatch a)) [
  | inl is ↦ let h = p.free in cc
  | inr apart ↦
      cons-IsFree a (k ++ l) apart (append-IsFree k l (record { free = rw apart at p.free }) q)
]

push_if-IsFree : (b : Bool) (k : AnomalyKind) → is_mismatch k ≡ false → IsFree (push_if b k)
unfolding any push_if
push_if-IsFree true k h = one-IsFree k h
push_if-IsFree false k h = nothing-IsFree

finalizing-IsFree : (part final_file : FilePresence) → IsFree (inspect_finalizing part final_file)
unfolding inspect_finalizing
finalizing-IsFree FilePresence.missing FilePresence.missing = one-IsFree _ refl
finalizing-IsFree FilePresence.missing FilePresence.regular_file = one-IsFree _ refl
finalizing-IsFree FilePresence.missing FilePresence.other = one-IsFree _ refl
finalizing-IsFree FilePresence.missing FilePresence.unreadable = nothing-IsFree
finalizing-IsFree FilePresence.regular_file FilePresence.missing = one-IsFree _ refl
finalizing-IsFree FilePresence.regular_file FilePresence.regular_file = one-IsFree _ refl
finalizing-IsFree FilePresence.regular_file FilePresence.other = one-IsFree _ refl
finalizing-IsFree FilePresence.regular_file FilePresence.unreadable = nothing-IsFree
finalizing-IsFree FilePresence.other FilePresence.missing = one-IsFree _ refl
finalizing-IsFree FilePresence.other FilePresence.regular_file = one-IsFree _ refl
finalizing-IsFree FilePresence.other FilePresence.other = one-IsFree _ refl
finalizing-IsFree FilePresence.other FilePresence.unreadable = one-IsFree _ refl
finalizing-IsFree FilePresence.unreadable FilePresence.missing = nothing-IsFree
finalizing-IsFree FilePresence.unreadable FilePresence.regular_file = nothing-IsFree
finalizing-IsFree FilePresence.unreadable FilePresence.other = one-IsFree _ refl
finalizing-IsFree FilePresence.unreadable FilePresence.unreadable = nothing-IsFree

discarding-IsFree : (part final_file : FilePresence) → IsFree (inspect_discarding part final_file)
unfolding inspect_discarding is_present push_if
discarding-IsFree FilePresence.missing FilePresence.missing = one-IsFree _ refl
discarding-IsFree FilePresence.regular_file FilePresence.missing = one-IsFree _ refl
discarding-IsFree FilePresence.other FilePresence.missing = one-IsFree _ refl
discarding-IsFree FilePresence.unreadable FilePresence.missing = nothing-IsFree
discarding-IsFree part FilePresence.regular_file = one-IsFree _ refl
discarding-IsFree part FilePresence.other = one-IsFree _ refl
discarding-IsFree part FilePresence.unreadable = nothing-IsFree

artifact-IsFree :
    (artifact : ArtifactState) (part final_file : FilePresence)
    → IsFree (inspect_artifact artifact part final_file)
unfolding any inspect_artifact
artifact-IsFree ArtifactState.writing part final_file =
    cons-IsFree _ _ refl (push_if-IsFree _ _ refl)
artifact-IsFree (ArtifactState.finalizing _) part final_file = finalizing-IsFree part final_file
artifact-IsFree (ArtifactState.resolving_conflict _ _) part final_file = one-IsFree _ refl
artifact-IsFree (ArtifactState.discarding _) part final_file = discarding-IsFree part final_file
artifact-IsFree (ArtifactState.ready _) part final_file =
    append-IsFree _ _ (push_if-IsFree _ _ refl) (push_if-IsFree _ _ refl)
artifact-IsFree (ArtifactState.filtered _) part final_file = push_if-IsFree _ _ refl
artifact-IsFree (ArtifactState.failed _ _) part final_file = one-IsFree _ refl
artifact-IsFree (ArtifactState.excluded _) part final_file = nothing-IsFree
artifact-IsFree ArtifactState.deleting part final_file =
    cons-IsFree _ _ refl (append-IsFree _ _ (push_if-IsFree _ _ refl) (push_if-IsFree _ _ refl))
artifact-IsFree ArtifactState.deleted part final_file = push_if-IsFree _ _ refl

upload_state-IsFree : (u : UploadState) → IsFree (inspect_upload_state u)
unfolding any inspect_upload_state
upload_state-IsFree UploadState.not_planned = nothing-IsFree
upload_state-IsFree (UploadState.pending _ _ _) = nothing-IsFree
upload_state-IsFree (UploadState.attempting _) = one-IsFree _ refl
upload_state-IsFree (UploadState.blocked _ _) = one-IsFree _ refl
upload_state-IsFree (UploadState.ambiguous _ _) = one-IsFree _ refl
upload_state-IsFree (UploadState.uploaded _) = nothing-IsFree
upload_state-IsFree (UploadState.cancelled _ _) = nothing-IsFree

files-IsFree : (s : Segment) (files : SegmentFilePresence) → IsFree (inspect_segment_files s files)
unfolding inspect_segment_files
files-IsFree s files =
    append-IsFree _ _
      (append-IsFree _ _ (append-IsFree _ _ (push_if-IsFree _ _ refl) (push_if-IsFree _ _ refl))
        (push_if-IsFree _ _ refl))
      (artifact-IsFree s.artifact files.part files.final_file)

upload-IsFree : (s : Segment) (session : Option LiveSession) → IsFree (inspect_upload s session)
unfolding inspect_upload
upload-IsFree s session = append-IsFree _ _ (push_if-IsFree _ _ refl) (upload_state-IsFree s.upload)

segment-IsFree :
    (s : Segment) (session : Option LiveSession) (files : Option SegmentFilePresence)
    → IsFree (inspect_segment s session files)
unfolding inspect_segment
segment-IsFree s session none = nothing-IsFree
segment-IsFree s session (some files) =
    append-IsFree _ _ (append-IsFree _ _ (push_if-IsFree _ _ refl) (files-IsFree s files))
      (upload-IsFree s session)

owner-IsFree : (session : Option LiveSession) → IsFree (inspect_owner session)
unfolding inspect_owner
owner-IsFree none = one-IsFree _ refl
owner-IsFree (some session) = push_if-IsFree _ _ refl

submission_state-IsFree : (s : SubmissionState) → IsFree (inspect_submission_state s)
unfolding any inspect_submission_state
submission_state-IsFree (SubmissionState.retry_scheduled _ _ _) = nothing-IsFree
submission_state-IsFree (SubmissionState.attempting _) = one-IsFree _ refl
submission_state-IsFree (SubmissionState.blocked _ _) = one-IsFree _ refl
submission_state-IsFree (SubmissionState.ambiguous _ _) = one-IsFree _ refl
submission_state-IsFree (SubmissionState.retry_authorized _) = nothing-IsFree
submission_state-IsFree (SubmissionState.submitted _ _) = nothing-IsFree

submission-IsFree :
    (s : Submission) (session : Option LiveSession) → IsFree (inspect_submission s session)
unfolding inspect_submission
submission-IsFree s session =
    append-IsFree _ _ (owner-IsFree session) (submission_state-IsFree s.state)

gate-IsFree : (gate : UploadTargetGate) → IsFree (inspect_gate gate)
unfolding any inspect_gate
gate-IsFree UploadTargetGate.ready = nothing-IsFree
gate-IsFree (UploadTargetGate.backoff _ _ _ _) = one-IsFree _ refl
gate-IsFree (UploadTargetGate.blocked _ _ _) = one-IsFree _ refl

target-IsFree : (t : UploadTargetState) → IsFree (inspect_upload_target t)
unfolding inspect_upload_target
target-IsFree t = gate-IsFree t.gate

module _ {A : Type 0} (f : A → List AnomalyKind) where
  all-IsFree : (xs : List A) → ((x : A) → IsFree (f x)) → IsFree (all_anomalies f xs)
  unfolding all_anomalies any
  all-IsFree [] h = nothing-IsFree
  all-IsFree (x ∷ xs) h = append-IsFree _ _ (h x) (all-IsFree xs h)

-- A session and the row of its room, and the two lifecycles of a row and the session that it names.
lifecycle-IsFree :
    (id : Uuid) (l : SessionLifecycle) (row : Option RoomState)
    → RowFits (desired_room l id) row
    → IsFree (inspect_lifecycle id l row)
unfolding inspect_lifecycle room_lifecycle_eq push_if
lifecycle-IsFree id SessionLifecycle.opened none fits = absurd fits
lifecycle-IsFree id SessionLifecycle.opened (some room) fits =
    let same : (id == id) ≡ true = ground arith in rw (fits, same) (one-IsFree _ refl)
lifecycle-IsFree id (SessionLifecycle.recovery_required r t) none fits = absurd fits
lifecycle-IsFree id (SessionLifecycle.recovery_required r t) (some room) fits =
    let same : (id == id) ≡ true = ground arith in rw (fits, same) (one-IsFree _ refl)
lifecycle-IsFree id (SessionLifecycle.closed c) row fits = nothing-IsFree

names_owner :
    (owner : Uuid) (l : SessionLifecycle) (row : RoomState)
    → is_closed l ≡ false
    → RowFits (desired_room l owner) (some row)
    → is_owner_of row.lifecycle l ≡ true
unfolding is_closed
names_owner owner SessionLifecycle.opened row h fits = rw fits refl
names_owner owner (SessionLifecycle.recovery_required r t) row h fits = rw fits refl
names_owner owner (SessionLifecycle.closed c) row h fits = cc

named-IsFree :
    (room_id : ℕ) (l : RoomLifecycle) (session_of : Uuid → Option LiveSession)
    → ((id : Uuid) → room_session_id l ≡ some id → is_valid_owner room_id l (session_of id) ≡ true)
    → IsFree (inspect_room_lifecycle room_id l session_of)
unfolding inspect_room_lifecycle push_if room_session_id
named-IsFree room_id RoomLifecycle.ready session_of h = nothing-IsFree
named-IsFree room_id (RoomLifecycle.owned id) session_of h =
    subst (λ b. IsFree (push_if (not b) room_ownership_mismatch)) (sym (h id refl)) nothing-IsFree
named-IsFree room_id (RoomLifecycle.blocked id) session_of h =
    subst (λ b. IsFree (push_if (not b) room_ownership_mismatch)) (sym (h id refl)) nothing-IsFree

module _ (sessions : Sessions) (rooms : Rooms) (agree : Agree sessions rooms)
    (ascending : IsAscending sessions) (ascending_rooms : IsAscending rooms) where
  abbrev list : List LiveSession
  list = values sessions

  stored_id : (k : ℕ) (s : LiveSession) → get sessions k ≡ some s → s.id ≡ k
  stored_id k s e = (subst (λ o. SessionFits k o rooms) e (agree.session k)).0

  session_by_id-get :
      (id : ℕ) (part : Sessions)
      → Stored sessions part
      → session_by_id (values part) id ≡ get part id
  unfolding session_by_id find get
  session_by_id-get id [] h = refl
  session_by_id-get id ((k, s) ∷ part) (e, h) =
      let same : (s.id == id) ≡ (k == id) = ap (λ i. i == id) (stored_id k s e) in
      rw same (ap (λ rest. if k == id then some s else rest) (session_by_id-get id part h))

  sessions-IsFree :
      (part : Sessions)
      → Stored sessions part
      → IsFree (all_anomalies (λ s. inspect_session s (get rooms s.room_id)) (values part))
  unfolding all_anomalies inspect_session
  sessions-IsFree [] h = nothing-IsFree
  sessions-IsFree ((k, s) ∷ part) (e, h) =
      let fits = (subst (λ o. SessionFits k o rooms) e (agree.session k)).1 in
      append-IsFree _ _ (lifecycle-IsFree s.id s.lifecycle (get rooms s.room_id) fits)
        (sessions-IsFree part h)

  -- A session that a row names.
  is_valid :
      (room_id id : ℕ) (row : RoomState) (o : Option LiveSession)
      → get rooms room_id ≡ some row
      → get sessions id ≡ o
      → IsOwner room_id o
      → is_valid_owner room_id row.lifecycle o ≡ true
  is_valid room_id id row none at e h = absurd h
  is_valid room_id id row (some s) at e (same, open_s) =
      let matches : (s.room_id == room_id) ≡ true = (==_iff _ _).1 same in
      let fits = (subst (λ o. SessionFits id o rooms) e (agree.session id)).1 in
      rw matches (
        names_owner s.id s.lifecycle row open_s
          (subst (RowFits (desired_room s.lifecycle s.id)) (ap (get rooms) same ∙ at) fits))

  owner_is_valid :
      (room_id id : ℕ) (row : RoomState)
      → get rooms room_id ≡ some row
      → IsOwner room_id (get sessions id)
      → is_valid_owner room_id row.lifecycle (session_by_id list id) ≡ true
  owner_is_valid room_id id row at h =
      subst (λ o. is_valid_owner room_id row.lifecycle o ≡ true)
        (sym (session_by_id-get id sessions (Stored-self sessions ascending)))
        (is_valid room_id id row (get sessions id) at refl h)

  row-IsFree :
      (room_id : ℕ) (row : RoomState)
      → get rooms room_id ≡ some row
      → IsFree (inspect_room room_id row (session_by_id list))
  unfolding inspect_room
  row-IsFree room_id row at = named-IsFree room_id row.lifecycle (session_by_id list) λ id e.
      owner_is_valid room_id id row at (
        subst (λ n. NamedFits room_id n sessions) e
          (subst (λ o. RoomFits room_id o sessions) at (agree.room room_id)))

  rooms-IsFree : (part : Rooms) → Stored rooms part → IsFree (all_anomalies (inspect_row list) part)
  unfolding all_anomalies inspect_row
  rooms-IsFree [] h = nothing-IsFree
  rooms-IsFree ((room_id, row) ∷ part) (e, h) =
      append-IsFree _ _ (row-IsFree room_id row e) (rooms-IsFree part h)

-- In a store in which sessions and rooms agree, and whose tables are in key order, the report has no
-- mismatch of ownership, whatever the other tables and the file system have.
pub detect_anomalies-no_mismatch :
    (sessions : Sessions) (rooms : Rooms) (segments : List Segment) (submissions : List Submission)
    (targets : List UploadTargetState) (files : List SegmentFilePresence)
    → Agree sessions rooms
    → IsAscending sessions
    → IsAscending rooms
    → any is_mismatch (detect_anomalies (values sessions) segments submissions rooms targets files)
      ≡ false
unfolding detect_anomalies
detect_anomalies-no_mismatch sessions rooms segments submissions targets files agree a b =
    (append-IsFree _ _
      (append-IsFree _ _
        (append-IsFree _ _
          (append-IsFree _ _
            (sessions-IsFree sessions rooms agree a b sessions (Stored-self sessions a))
            (rooms-IsFree sessions rooms agree a b rooms (Stored-self rooms b)))
          (all-IsFree _ segments λ s. segment-IsFree s _ _))
        (all-IsFree _ submissions λ s. submission-IsFree s _))
      (all-IsFree _ targets λ t. target-IsFree t)).free
