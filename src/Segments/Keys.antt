-- ===== src/Segments/Keys.antt =====
-- The keys of segments, and the order of the table, under the steps of Step.
use bilive_rec.Prelude.{◌≡◌, refl, arith}
use bilive_rec.Model.Segment.{Segment}
use bilive_rec.Store.Table.{Each, Each-put}
use bilive_rec.Store.Keys.{segment_key}
use bilive_rec.Store.Sorted.{IsSorted, Fits, put-IsSorted}
use bilive_rec.Transitions.Close.{exclusion}
use bilive_rec.Transitions.History.{finish_upload_history, finish_unfinished_upload_as_ambiguous}
use bilive_rec.Transitions.UploadSteps.{
  claim_upload, confirm_upload, retry_upload, block_with, make_ambiguous, resolve_with,
  abandon_upload,
}
use bilive_rec.Segments.Step.{
  Segments, Actor, SegmentStep, ArtifactStep, WorkerStep, OperatorStep, artifact, worker, operator,
  finalize, finalized, discard, discarded, resolve, kept, excluded, delete, deleted, fail,
  exclude_failed, claim, confirm, retry, block, ambiguous, deny, affirm, abandon, key_of, Evolves,
  here, step, opened,
}

abbrev SameKey : Segment → Segment → Type 0
SameKey s s' = (s'.session_id ≡ s.session_id) × (s'.index ≡ s.index)

artifact-key : (s s' : Segment) → ArtifactStep s s' → SameKey s s'
unfolding exclusion
artifact-key s s' (finalize reason e) = ground arith
artifact-key s s' (finalized e) = ground arith
artifact-key s s' (discard reason e) = ground arith
artifact-key s s' (discarded e) = ground arith
artifact-key s s' (resolve reason decision remark at c e) = ground arith
artifact-key s s' (kept e) = ground arith
artifact-key s s' (excluded e) = ground arith
artifact-key s s' (delete e) = ground arith
artifact-key s s' (deleted e) = ground arith
artifact-key s s' (fail reason close c e) = ground arith
artifact-key s s' (exclude_failed e) = ground arith

worker-key : (s s' : Segment) → WorkerStep s s' → SameKey s s'
unfolding claim_upload confirm_upload retry_upload block_with make_ambiguous finish_upload_history
worker-key s s' (claim attempt e) = ground arith
worker-key s s' (confirm id proof now c e) = ground arith
worker-key s s' (retry id reason at now c e) = ground arith
worker-key s s' (block id reason now c e) = ground arith
worker-key s s' (ambiguous id reason now c e) = ground arith

operator-key : (s s' : Segment) → OperatorStep s s' → SameKey s s'
unfolding resolve_with abandon_upload finish_unfinished_upload_as_ambiguous
operator-key s s' (deny lifecycle remark id now c e) = ground arith
operator-key s s' (affirm proof remark id now c e) = ground arith
operator-key s s' (abandon now c e) = ground arith

pub step-SameKey : {a : Actor} (s s' : Segment) → SegmentStep a s s' → SameKey s s'
step-SameKey s s' (artifact st) = artifact-key s s' st
step-SameKey s s' (worker st) = worker-key s s' st
step-SameKey s s' (operator by st) = operator-key s s' st

pub key_of-step : {a : Actor} (s s' : Segment) → SegmentStep a s s' → key_of s' ≡ key_of s
key_of-step s s' st = let same = step-SameKey s s' st in λ i. (same.0 i, same.1 i)

pub Evolves-IsSorted : {a : Actor} {m n : Segments} → Evolves a m n → IsSorted m → IsSorted n
Evolves-IsSorted here h = h
Evolves-IsSorted (step k ev found st) h = put-IsSorted _ _ _ (Evolves-IsSorted ev h)
Evolves-IsSorted (opened ev absent new) h = put-IsSorted _ _ _ (Evolves-IsSorted ev h)

pub Evolves-Fits : {a : Actor} {m n : Segments} → Evolves a m n → Each Fits m → Each Fits n
Evolves-Fits here h = h
Evolves-Fits (step k ev found st) h = Each-put Fits _ _ _ (refl, refl) (Evolves-Fits ev h)
Evolves-Fits (opened ev absent new) h = Each-put Fits _ _ _ (refl, refl) (Evolves-Fits ev h)

pub Evolves-trans : {a : Actor} {l m n : Segments} → Evolves a l m → Evolves a m n → Evolves a l n
Evolves-trans p here = p
Evolves-trans p (step k q found st) = step k (Evolves-trans p q) found st
Evolves-trans p (opened q absent new) = opened (Evolves-trans p q) absent new
