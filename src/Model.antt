-- ===== src/Model.antt =====
-- src/state/model.rs, a module for each aggregate, with the credential references of
-- src/credential.rs that the aggregates hold.
pub mod Target
pub mod Session
pub mod Segment
pub mod Submission
pub mod Room
use bilive_rec.Prelude.{ℕ, ◌^◌, String, FilePath}

-- A 128-bit identifier, as a number. Its text is of fixed width, so texts sort as the numbers do.
abbrev pub Uuid : Type 0
Uuid = ℕ

-- An instant, counted from the earliest one.
abbrev pub Timestamp : Type 0
Timestamp = ℕ

abbrev pub u32_mod : ℕ
u32_mod = 2 ^ 32

pub record CredentialRef : Type 0 where
  pub name : String
  pub cookie_file : FilePath

pub record UploadPrincipal : Type 0 where
  pub credential : CredentialRef
  pub expected_mid : ℕ
