-- ===== src/Work.antt =====
-- src/uploader: what there is to upload and to submit, and when to try again.
pub mod Reconcile
pub mod Agreement
pub mod Offered
pub mod Validation
pub mod Claimable
pub mod Queue
pub mod Retry
