-- ===== src/Transitions.antt =====
-- src/state/transitions.rs: every change of the durable state.
pub mod Guards
pub mod Targets
pub mod History
pub mod Artifacts
pub mod UploadSteps
pub mod Uploads
pub mod SubmissionSteps
pub mod Submissions
pub mod Sessions
pub mod Close
pub mod Quiet
