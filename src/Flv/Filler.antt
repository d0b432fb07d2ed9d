-- ===== src/Flv/Filler.antt =====
-- recorder/flv.rs: taking the filler units (type 12) out of an AVC packet in place.
use Prim.Native.Nat.{zero, suc}
use bilive_rec.Prelude.{
  ℕ, ◌+◌, Bool, true, false, ◌||◌, ◌&&◌, Option, none, some, List, [], ◌∷◌, ◌++◌, leb, length, ◌==◌,
  ltb, if◌then◌else◌,
}
use bilive_rec.Prelude.Outcome.{Outcome, ok, err}
use bilive_rec.Prelude.Bytes.{take, drop}
use bilive_rec.Prelude.Panics.{slice, slice_from, minus, expect, ◌>>=◌}
use bilive_rec.Flv.Avc.{AvcPayloadError, unsupported_annex_b_start_code}
use bilive_rec.Flv.Nalus.{NaluSpan, avc_nalu_payload, read_nalu_span, visit_length_prefixed_nalus}

pub record AvcNaluInspection : Type 0 where
  pub has_sps : Bool
  pub has_pps : Bool

pub record AvcFillerRemoval : Type 0 where
  pub inspection : AvcNaluInspection
  pub retained_nalus : ℕ
  pub removed_filler_nalus : ℕ
  pub removed_filler_payload_bytes : ℕ
  pub removed_filler_total_bytes : ℕ

unfoldable pub changed : AvcFillerRemoval → Bool
changed removal = ltb 0 removal.removed_filler_nalus

unfoldable pub empty_after_removal : AvcFillerRemoval → Bool
empty_after_removal removal = removal.retained_nalus == 0

abbrev pub nothing_seen : AvcFillerRemoval
nothing_seen = record {
  inspection = record { has_sps = false; has_pps = false };
  retained_nalus = 0;
  removed_filler_nalus = 0;
  removed_filler_payload_bytes = 0;
  removed_filler_total_bytes = 0;
}

-- The closure of `remove_avc_filler_nalus`; what it captures is what the result is made of.
unfoldable pub visit_nalu : ℕ → NaluSpan → AvcFillerRemoval → AvcFillerRemoval
visit_nalu length_size nalu s =
    if nalu.nalu_type == 12
    then record {
      inspection = s.inspection;
      retained_nalus = s.retained_nalus;
      removed_filler_nalus = s.removed_filler_nalus + 1;
      removed_filler_payload_bytes = s.removed_filler_payload_bytes + nalu.payload_len;
      removed_filler_total_bytes = s.removed_filler_total_bytes + (length_size + nalu.payload_len);
    }
    else record {
      inspection = record {
        has_sps = if nalu.nalu_type == 7 then true else s.inspection.has_sps;
        has_pps = if nalu.nalu_type == 8 then true else s.inspection.has_pps;
      };
      retained_nalus = s.retained_nalus + 1;
      removed_filler_nalus = s.removed_filler_nalus;
      removed_filler_payload_bytes = s.removed_filler_payload_bytes;
      removed_filler_total_bytes = s.removed_filler_total_bytes;
    }

-- slice::starts_with
abbrev starts_with : List ℕ → List ℕ → Bool
starts_with bytes [] = true
starts_with [] (x ∷ xs) = false
starts_with (b ∷ bytes) (x ∷ xs) = b == x && starts_with bytes xs

unfoldable pub starts_with_annex_b_start_code : List ℕ → Bool
starts_with_annex_b_start_code payload =
    starts_with payload (0 ∷ 0 ∷ 1 ∷ []) || starts_with payload (0 ∷ 0 ∷ 0 ∷ 1 ∷ [])

-- slice::copy_within(src_start..src_end, to), which panics if the source or the target is out of range.
unfoldable pub copy_within : List ℕ → ℕ → ℕ → ℕ → Option (List ℕ)
unfolding slice minus
copy_within bytes src_start src_end to = do
  moved ← slice bytes src_start src_end
  count ← minus src_end src_start
  last ← minus (length bytes) count
  if leb to last then some (take to bytes ++ (moved ++ drop (to + count) bytes)) else none

-- The loop's locals, with the bytes. A round of the loop that finds a unit.
unfoldable pub compact_nalu : List ℕ → NaluSpan → ℕ → Option (List ℕ × ℕ)
unfolding copy_within minus
compact_nalu bytes span write_offset =
    let src_start = 5 + span.length_offset in
    let src_end = 5 + (span.payload_offset + span.payload_len) in
    if span.nalu_type == 12 then some (bytes, write_offset) else do
      moved ←
          if src_start == write_offset
          then some bytes
          else copy_within bytes src_start src_end write_offset
      count ← minus src_end src_start
      some (moved, write_offset + count)

-- `none` is a panic, that of `expect` too, or that the fuel ran out.
unfoldable pub compact_loop : ℕ → List ℕ → ℕ → ℕ → ℕ → Option (List ℕ)
unfolding read_nalu_span compact_nalu minus slice_from expect
compact_loop zero bytes length_size read_offset write_offset = none
compact_loop (suc fuel) bytes length_size read_offset write_offset = do
  left ← minus (length bytes) 5
  elim (ltb read_offset left) [
    | false ↦ some (take write_offset bytes)
    | true ↦ (do
      payload ← slice_from bytes 5
      read ← read_nalu_span payload length_size read_offset
      span ← expect read
      next ← compact_nalu bytes span write_offset
      compact_loop fuel next.0 length_size (span.payload_offset + span.payload_len) next.1)
  ]

unfoldable pub compact_non_filler_nalus : List ℕ → ℕ → Option (List ℕ)
unfolding compact_loop
compact_non_filler_nalus bytes length_size = compact_loop (suc (length bytes)) bytes length_size 0 5

-- The result and the packet, which is changed in place.
abbrev pub Removed : Type 0
Removed = Outcome AvcPayloadError AvcFillerRemoval × List ℕ

unfoldable pub compact_if : Bool → List ℕ → ℕ → AvcFillerRemoval → Option Removed
unfolding compact_non_filler_nalus
compact_if false bytes length_size removal = some (ok removal, bytes)
compact_if true bytes length_size removal = elim (compact_non_filler_nalus bytes length_size) [
  | none ↦ none
  | some compacted ↦ some (ok removal, compacted)
]

unfoldable pub remove_from_payload : List ℕ → ℕ → List ℕ → Option Removed
unfolding compact_if visit_length_prefixed_nalus visit_nalu starts_with_annex_b_start_code changed
remove_from_payload bytes length_size payload =
    elim (visit_length_prefixed_nalus (visit_nalu length_size) payload length_size nothing_seen) [
      | none ↦ none
      | some scanned ↦ elim scanned [
        | err e ↦ some (
          err (
              if starts_with_annex_b_start_code payload then unsupported_annex_b_start_code else e),
          bytes,
        )
        | ok removal ↦ compact_if (changed removal) bytes length_size removal
      ]
    ]

unfoldable pub remove_avc_filler_nalus : List ℕ → ℕ → Option Removed
unfolding avc_nalu_payload remove_from_payload
remove_avc_filler_nalus bytes length_size = do
  found ← avc_nalu_payload bytes length_size
  elim found [
    | err e ↦ some (err e, bytes)
    | ok payload ↦ remove_from_payload bytes length_size payload
  ]
