-- ===== src/Inspection/Detect.antt =====
-- src/state/inspection.rs: the anomalies of a snapshot, in the order in which the source adds them.
use bilive_rec.Prelude.{ℕ, ◌&&◌, ◌==◌, Option, none, some, List, [], ◌∷◌, ◌++◌, find, is_none}
use bilive_rec.Model.{Uuid}
use bilive_rec.Model.Session.{LiveSession}
use bilive_rec.Model.Segment.{Segment}
use bilive_rec.Model.Submission.{Submission}
use bilive_rec.Model.Room.{RoomState}
use bilive_rec.Model.Target.{UploadTargetState}
use bilive_rec.Store.Table.{Table, get}
use bilive_rec.Store.Keys.{id_key}
use bilive_rec.Inspection.Anomalies.{
  AnomalyKind, SegmentFilePresence, orphan_segment, push_if, inspect_session, inspect_room,
  inspect_segment_files, inspect_upload, inspect_submission, inspect_upload_target,
}

module _ {A : Type 0} where
  unfoldable pub all_anomalies : (A → List AnomalyKind) → List A → List AnomalyKind
  all_anomalies f [] = []
  all_anomalies f (x ∷ xs) = f x ++ all_anomalies f xs

-- sessions_by_id: no two sessions have one identifier.
unfoldable pub session_by_id : List LiveSession → Uuid → Option LiveSession
unfolding find
session_by_id sessions id = find (λ s. s.id == id) sessions

-- files_by_segment
unfoldable pub files_of : List SegmentFilePresence → Segment → Option SegmentFilePresence
unfolding find
files_of file_presence segment =
    find (λ f. f.session_id == segment.session_id && f.segment_index == segment.index) file_presence

unfoldable pub inspect_segment :
    Segment → Option LiveSession → Option SegmentFilePresence → List AnomalyKind
unfolding push_if inspect_segment_files inspect_upload
inspect_segment segment session none = []
inspect_segment segment session (some files) =
    push_if (is_none session) orphan_segment
    ++ inspect_segment_files segment files
    ++ inspect_upload segment session

unfoldable pub inspect_row : List LiveSession → ℕ × RoomState → List AnomalyKind
unfolding inspect_room session_by_id
inspect_row sessions (room_id, room) = inspect_room room_id room (session_by_id sessions)

unfoldable pub detect_anomalies :
    List LiveSession
    → List Segment
    → List Submission
    → Table ℕ RoomState
    → List UploadTargetState
    → List SegmentFilePresence
    → List AnomalyKind
unfolding all_anomalies inspect_session get inspect_row inspect_segment session_by_id files_of
    inspect_submission inspect_upload_target
detect_anomalies sessions segments submissions room_states upload_targets file_presence =
    all_anomalies (λ s. inspect_session s (get room_states s.room_id)) sessions
    ++ all_anomalies (inspect_row sessions) room_states
    ++ all_anomalies
        (λ s. inspect_segment s (session_by_id sessions s.session_id) (files_of file_presence s))
        segments
    ++ all_anomalies (λ s. inspect_submission s (session_by_id sessions s.session_id)) submissions
    ++ all_anomalies inspect_upload_target upload_targets
