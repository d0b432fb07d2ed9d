-- ===== src/Tests/Data.antt =====
-- A session of one segment, from its creation to its upload.
use bilive_rec.Prelude.{true, false, none, some, List, [], ◌∷◌, ◌++◌}
use bilive_rec.Model.{CredentialRef}
use bilive_rec.Model.Target.{UploadPlan, SubmitApi}
use bilive_rec.Model.Session.{
  LiveSession, SessionLifecycle, RecordingPlan, OutputPlan, SubmissionSpec, Copyright,
}
use bilive_rec.Model.Segment.{
  Segment, SegmentCloseReason, ArtifactState, UploadState, RemoteAttempt, UploadedPart,
  UploadAttemptOutcome,
}
use bilive_rec.Model.Submission.{Submission, SubmissionState}
use bilive_rec.Store.Txn.{Env}
use bilive_rec.Transitions.Close.{CloseSessionRequest}
use bilive_rec.Runs.Command.{Command}

abbrev pub env : Env
env = record { clock = λ n. n; uuid_text = λ id. "id"; artifact_text = λ a. "artifact" }

abbrev cookie : CredentialRef
cookie = record {
  name = "main";
  cookie_file = record { is_absolute = true; components = "etc" ∷ "cookie" ∷ [] };
}

abbrev pub plan : UploadPlan
plan = record {
  principal = record { credential = cookie; expected_mid = 9 };
  line = "auto";
  threads = 3;
  submit_api = SubmitApi.app;
  delete_after_submit = true;
}

abbrev spec : SubmissionSpec
spec = record {
  title = "live";
  description = "";
  category_id = 17;
  copyright = Copyright.original;
  source = "";
  tags = [];
  is_private = false;
  dynamic = "";
  forbid_reprint = false;
  charging_panel = false;
  close_reply = false;
  close_danmu = false;
  featured_reply = false;
}

abbrev recording : RecordingPlan
recording = record {
  credential = none;
  output_dir = record { is_absolute = true; components = "var" ∷ [] };
  segment_time_ms = none;
  segment_size = none;
  min_segment_size = 0;
  qn = 0;
  cdn = [];
}

abbrev pub session : LiveSession
session = record {
  id = 1;
  room_id = 7;
  room_name = "room";
  title = "live";
  started_at = 0;
  lifecycle = SessionLifecycle.opened;
  recording_plan = recording;
  output_plan = OutputPlan.bilibili plan spec;
  recording_events = [];
}

abbrev pub segment : Segment
segment = record {
  session_id = 1;
  index = 1;
  part_path = record { is_absolute = true; components = "var" ∷ "a.part" ∷ [] };
  final_path = record { is_absolute = true; components = "var" ∷ "a.flv" ∷ [] };
  artifact = ArtifactState.writing;
  artifact_resolutions = [];
  upload = UploadState.not_planned;
  upload_attempts = [];
  upload_resolutions = [];
}

abbrev pub attempt : RemoteAttempt
attempt = record { id = 5; started_at = 100 }

abbrev pub proof : UploadedPart
proof = record { bili_filename = "n1"; part_title = "P1" }

-- The segment is recorded, and its upload is attempted.
abbrev pub attempting : List Command
attempting =
    Command.create_session session
    ∷ Command.open_segment segment
    ∷ Command.begin_artifact_finalization 1 1 SegmentCloseReason.stream_ended
    ∷ Command.complete_artifact_finalization 1 1
    ∷ Command.begin_upload 1 1 attempt
    ∷ []

abbrev pub uploaded : List Command
uploaded = attempting ++ Command.complete_upload 1 1 5 proof ∷ []

abbrev pub unknown : List Command
unknown = attempting ++ Command.mark_upload_ambiguous 1 1 5 "timeout" ∷ []

abbrev pub completed : List Command
completed = uploaded ++ Command.close_session 1 (CloseSessionRequest.natural none) ∷ []

abbrev pub submitting : RemoteAttempt
submitting = record { id = 8; started_at = 200 }

abbrev pub submitted : List Command
submitted =
    completed
    ++ Command.begin_submission 1 submitting
      ∷ Command.complete_submission 1 8 (some 170001) none
      ∷ []

-- What a restart and a close do.
abbrev pub restart : List Command
restart =
    Command.reconcile_interrupted_remote_attempts
    ∷ Command.close_session 1 (CloseSessionRequest.natural none)
    ∷ Command.begin_artifact_delete 1 1
    ∷ []

-- The segment that these leave.
abbrev pub attempting_segment : Segment
attempting_segment = record segment {
  artifact = ArtifactState.ready SegmentCloseReason.stream_ended;
  upload = UploadState.attempting attempt;
  upload_attempts = record { attempt = attempt; finished_at = none; outcome = none } ∷ [];
}

abbrev pub uploaded_segment : Segment
uploaded_segment = record attempting_segment {
  upload = UploadState.uploaded proof;
  upload_attempts =
      record {
        attempt = attempt;
        finished_at = some 1;
        outcome = some (UploadAttemptOutcome.confirmed proof);
      }
      ∷ [];
}

abbrev pub unknown_segment : Segment
unknown_segment = record attempting_segment {
  upload = UploadState.ambiguous attempt "timeout";
  upload_attempts =
      record {
        attempt = attempt;
        finished_at = some 1;
        outcome = some (UploadAttemptOutcome.ambiguous "timeout");
      }
      ∷ [];
}

abbrev pub deleting_segment : Segment
deleting_segment = record uploaded_segment { artifact = ArtifactState.deleting }

abbrev pub first_submission : Submission
first_submission = record {
  session_id = 1;
  state = SubmissionState.attempting submitting;
  attempts = record { attempt = submitting; finished_at = none; outcome = none } ∷ [];
  resolutions = [];
}
