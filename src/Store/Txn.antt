-- ===== src/Store/Txn.antt =====
-- src/state/store.rs: the database and its transactions. `StateStore::write` runs an operation on
-- the tables and commits what it wrote if it succeeds, else drops it.
use bilive_rec.Prelude.{ℕ, suc, Bool, true, false, Option, none, some, List, [], String}
use bilive_rec.Errors.{StateError, state, Result, ok, err}
use bilive_rec.Model.{Uuid, Timestamp}
use bilive_rec.Model.Session.{LiveSession}
use bilive_rec.Model.Segment.{Segment, ArtifactState}
use bilive_rec.Model.Submission.{Submission}
use bilive_rec.Model.Room.{RoomState}
use bilive_rec.Model.Target.{UploadTarget, UploadTargetState}
use bilive_rec.Store.Table.{Table, values}
use bilive_rec.Store.Table
use bilive_rec.Store.Keys.{SegmentKey, id_key, segment_key, target_key}
use bilive_rec.Store.Range.{range_scan}

-- What a transaction gets from outside: the readings of the clock, in order, the text of an
-- identifier (uuid's `Display`) and of an artifact state (its derived `Debug`).
pub record Env : Type 0 where
  pub clock : ℕ → Timestamp
  pub uuid_text : Uuid → String
  pub artifact_text : ArtifactState → String

pub record Tables : Type 0 where
  pub sessions : Table ℕ LiveSession
  pub segments : Table SegmentKey Segment
  pub submissions : Table ℕ Submission
  pub room_states : Table ℕ RoomState
  pub upload_targets : Table UploadTarget UploadTargetState

pub record Db : Type 0 where
  pub tables : Tables
  pub open tables use *
  pub clock_reads : ℕ

abbrev pub empty_tables : Tables
empty_tables = record {
  sessions = [];
  segments = [];
  submissions = [];
  room_states = [];
  upload_targets = [];
}

abbrev pub Txn : Type 0 → Type 0
Txn A = Env → Db → Result A × Db

unfoldable pub pure : {A : Type 0} → A → Txn A
pure a env db = (ok a, db)

unfoldable pub raise : {A : Type 0} → StateError → Txn A
raise e env db = (err (state e), db)

unfoldable pub lift : {A : Type 0} → Result A → Txn A
lift r env db = (r, db)

abbrev pub continue : {A B : Type 0} → Result A → (A → Txn B) → Txn B
continue (ok a) f env db = f a env db
continue (err e) f env db = (err e, db)

-- if test { return Err(..) }
unfoldable pub fail_if : Bool → StateError → Txn (Unit {0})
fail_if true e env db = (err (state e), db)
fail_if false e env db = (ok tt, db)

-- .ok_or_else(..)
unfoldable pub or_fail : {A : Type 0} → Option A → StateError → Txn A
or_fail none e env db = (err (state e), db)
or_fail (some a) e env db = (ok a, db)

-- jiff::Timestamp::now()
unfoldable pub now : Txn Timestamp
now env db = (ok (env.clock db.clock_reads), record db { clock_reads = suc db.clock_reads })

unfoldable pub asks : {A : Type 0} → (Env → A) → Txn A
asks f env db = (ok (f env), db)

unfoldable pub gets : {A : Type 0} → (Tables → A) → Txn A
gets f env db = (ok (f db.tables), db)

unfoldable pub modify : (Tables → Tables) → Txn (Unit {0})
modify f env db = (ok tt, record db { tables = f db.tables })

infixl 5 ◌>>=◌ ◌>>◌
-- Opening this opens the steps above too.
unfoldable pub ◌>>=◌ : {A B : Type 0} → Txn A → (A → Txn B) → Txn B
unfolding pure raise lift fail_if or_fail now asks gets modify
◌>>=◌ m f env db = let (r, db') = m env db in continue r f env db'

abbrev pub ◌>>◌ : {A B : Type 0} → Txn A → Txn B → Txn B
m >> n = m >>= λ _. n

abbrev pub commit_or_abort : {A : Type 0} → Result A → Tables → Db → Result A × Db
commit_or_abort (ok a) before after = (ok a, after)
commit_or_abort (err e) before after = (err e, record after { tables = before })

-- StateStore::write
unfoldable pub write : {A : Type 0} → Txn A → Txn A
unfolding ◌>>=◌
write operation env db =
    let (result, after) = operation env db in commit_or_abort result db.tables after

-- StoreTxn
abbrev pub get_session : Uuid → Txn (Option LiveSession)
get_session id = gets λ t. Table.get t.sessions id

abbrev pub put_session : LiveSession → Txn (Unit {0})
put_session session = modify λ t. record t { sessions = Table.put session.id session t.sessions }

abbrev pub list_sessions : Txn (List LiveSession)
list_sessions = gets λ t. values t.sessions

abbrev pub get_segment : Uuid → ℕ → Txn (Option Segment)
get_segment session_id index = gets λ t. Table.get t.segments (session_id, index)

abbrev pub put_segment : Segment → Txn (Unit {0})
put_segment segment =
    modify
      λ t. record t { segments = Table.put (segment.session_id, segment.index) segment t.segments }

abbrev pub list_segments : Uuid → Txn (List Segment)
list_segments session_id = gets λ t. range_scan session_id t.segments

abbrev pub list_all_segments : Txn (List Segment)
list_all_segments = gets λ t. values t.segments

abbrev pub get_submission : Uuid → Txn (Option Submission)
get_submission session_id = gets λ t. Table.get t.submissions session_id

abbrev pub put_submission : Submission → Txn (Unit {0})
put_submission submission =
    modify λ t. record t { submissions = Table.put submission.session_id submission t.submissions }

abbrev pub list_submissions : Txn (List Submission)
list_submissions = gets λ t. values t.submissions

abbrev pub get_room_state : ℕ → Txn (Option RoomState)
get_room_state room_id = gets λ t. Table.get t.room_states room_id

abbrev pub put_room_state : ℕ → RoomState → Txn (Unit {0})
put_room_state room_id room =
    modify λ t. record t { room_states = Table.put room_id room t.room_states }

abbrev pub get_upload_target_state : UploadTarget → Txn (Option UploadTargetState)
get_upload_target_state target = gets λ t. Table.get t.upload_targets target

abbrev pub put_upload_target_state : UploadTargetState → Txn (Unit {0})
put_upload_target_state gate =
    modify λ t. record t { upload_targets = Table.put gate.target gate t.upload_targets }
