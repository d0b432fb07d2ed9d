-- ===== src/Lib.antt =====
-- bilive-rec records live rooms of Bilibili, uploads the recorded segments and submits them. All that
-- must survive a crash is in one redb database; this library models that database and every change
-- of it, and proves what holds of every store that the program can reach.
--
-- The parts, and how they interact:
-- - src/state/model.rs is `Model`: sessions, segments, submissions, rooms and upload targets, with
--   the source's variants and fields.
-- - src/state/store.rs is `Store`: a table is a list of entries in key order (Table, Keys), a session's
--   segments are found by a scan of a key range (Range), and `StateStore::write` runs an action on the
--   tables and drops what it wrote if it fails (Txn). An action is a function from the environment and
--   the database to a result and the database. Effects has the rules that follow an action step by
--   step to what it does to one part of the tables.
-- - src/state/transitions.rs is `Transitions`: one function for each public function, with its
--   guards in the source's order. Guards, Targets and History are the helpers at the end of the
--   file; what the source passes as a closure on a segment or a submission is a function in
--   Artifacts, UploadSteps or SubmissionSteps; Artifacts, Uploads, Submissions, Sessions and Close
--   have the transactions.
-- - `Segments` is the abstract view: the steps of a segment (Step), that each transition only takes
--   such steps (Refines, Closing), and what the steps keep (Keys, Sound, SoundSteps, Held, Grows).
-- - `Rooms` is the agreement of sessions with the rows of their rooms (Owned), and that each transition
--   keeps it (Sessions, Closing, Others, Reachable).
-- - `Runs` puts the transitions together: a command is a call of one of them, and a run is a list of
--   commands from the empty store. The recorder, the upload worker and the operator's commands call
--   the transitions in orders that the model does not restrict, so the theorems hold for all of them.
-- - `Outcomes` is what a transition has found in the store when it succeeds: its transaction is taken
--   apart (Inversion), for deletion (Guarded) and submission (Submission).
-- - src/pipeline/state_machine.rs is `Pipeline`: the phases of a supervised room and the test of a
--   change (StateMachine), and sequences of changes (Phases).
-- - src/state/ownership.rs is `Audit`: the audit of sessions and rooms at a start (Ownership), what
--   it lists of tables in key order (Listed), and what it finds in a store that agrees (Passes).
-- - src/state/recovery.rs is `Recovery`: an operator's decisions, each a call of one transition.
-- - src/state/inspection.rs is `Inspection`: the anomalies of each row (Anomalies) and of a snapshot
--   (Detect), as their kinds, and what they say of owners (Owners).
-- - src/uploader/validation.rs and src/uploader/work.rs are `Work`: the reconciliation of a session's
--   uploads (Reconcile) and its agreement with the transitions' guard (Agreement, Offered), the
--   validation before an upload (Validation) and the claim that follows it (Claimable), and the
--   queue (Queue). Retry has the delays and counts of failures of src/uploader/worker.rs.
-- - src/recorder/segment.rs is `Recorder`: paths, rotation and the filter by size (Policy).
-- - src/recorder/flv.rs is `Flv`: the stream's header (Header), tags and their sizes (TagHeader, Tag),
--   the tests of payloads (Avc), that their reads are in range (InRange), the framed units of a packet (Nalus) and the removal of filler units,
--   whose copies in place are a byte list and a write offset (Filler). RoundTrip, Written and
--   Rewritten are about reading and writing; Framed, Scan, Tally, Compact, Compacted and Removal
--   about the removal.
-- - src/recorder/flv_pipeline.rs is `Media`: the repair of timestamps (Timestamps, Steady), the
--   normalizer (Normalizer, Hands, Cleaned, Recorded), and the groups of tags of which those that
--   repeat are left out (Groups, Window). It calls `Flv`; the recorder calls both.
-- - `Tests` has a concrete run and the theorems at it.
--
-- Conventions: a Uuid and a Timestamp are natural numbers. The readings of the clock come from the
-- environment, in order, and nothing is assumed of them. An error message is a constructor of
-- `StateError`, without the values that it prints; a text that is stored is built as in the source,
-- with uuid's and the artifact's printed forms from the environment. A u32 counter keeps its wrap,
-- and the next index of a segment saturates at 2^32 - 1. A path is its
-- components and whether it is absolute. A byte is a natural number below 256; the writers cut each
-- field to its width as the source's casts do, an i64 is an integer, and the fingerprint wraps at
-- 2^64. Loops are structural recursion over a list, but for the two over the units of a packet
-- (visit_length_prefixed_nalus and compact_non_filler_nalus): their fuel is one round for each byte
-- and one more, which is enough since a round passes at least the bytes of a length. Running out is
-- `none`, as is a panic of an index, a slice, a subtraction of usize or `expect` in the functions on
-- payloads, whose bounds are tested where Rust tests them (Prelude.Panics). The file system's answer to is_file
-- is a parameter.
--
-- Not modelled: redb and serde_json, whose calls are taken to succeed and to give back what was
-- stored; the order of the keys of upload targets, which nothing reads; creating and opening the
-- database file (src/state/store.rs); the texts of the operator's report
-- (src/state/inspection.rs); the recorder's
-- loop, its files and the metadata of floating point values (src/recorder/mod.rs, artifact_commit.rs,
-- flv_metadata.rs); the rest of src/pipeline; the upload worker's loop and its remote calls
-- (src/uploader); src/bilibili, src/config, src/submission_template.rs, and src/cli.rs.
pub mod Prelude
pub mod Errors
pub mod Model
pub mod Store
pub mod Transitions
pub mod Segments
pub mod Flv
pub mod Media
pub mod Inspection
pub mod Runs
pub mod Outcomes
pub mod Rooms
pub mod Work
pub mod Recorder
pub mod Recovery
pub mod Audit
pub mod Pipeline
pub mod Tests
