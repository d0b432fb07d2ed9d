-- ===== src/Flv/Nalus.antt =====
-- recorder/flv.rs: the NAL units of an AVC payload, each behind its length.
use Prim.Native.Nat.{bit_and, zero, suc}
use bilive_rec.Prelude.{
  ℕ, ◌+◌, ◌*◌, ◌^◌, Bool, true, false, not, ◌||◌, Option, none, some, List, [], ◌∷◌, length, ◌==◌,
  ltb, if◌then◌else◌,
}
use bilive_rec.Prelude.Outcome.{Outcome, ok, err}
use bilive_rec.Prelude.Panics.{index, slice, slice_from, minus, ◌>>=◌}
use bilive_rec.Flv.Avc.{
  AvcPayloadError, is_avc_nalu_packet, not_nalu_packet, nalu_packet_too_short,
  invalid_nalu_length_size, empty_nalu_payload, truncated_nalu_length, zero_nalu_length,
  truncated_nalu, invalid_nalu_header,
}

pub record NaluSpan : Type 0 where
  pub length_offset : ℕ
  pub payload_offset : ℕ
  pub payload_len : ℕ
  pub nalu_type : ℕ

-- matches!(length_size, 1 | 2 | 4)
abbrev pub is_length_size : ℕ → Bool
is_length_size n = n == 1 || n == 2 || n == 4

unfoldable pub avc_nalu_payload : List ℕ → ℕ → Option (Outcome AvcPayloadError (List ℕ))
unfolding is_avc_nalu_packet slice_from
avc_nalu_payload bytes length_size = do
  is_packet ← is_avc_nalu_packet bytes
  if not is_packet
      then some (err not_nalu_packet)
      else if not (is_length_size length_size)
      then some (err invalid_nalu_length_size)
      else if ltb (length bytes) 5
      then some (err nalu_packet_too_short)
      else do payload ← slice_from bytes 5; some (ok payload)

-- The loop over the length's bytes: a shift by 8 and the byte below it. At most four bytes fit.
abbrev pub nalu_len_of : ℕ → List ℕ → ℕ
nalu_len_of nalu_len [] = nalu_len
nalu_len_of nalu_len (byte ∷ bytes) = nalu_len_of (nalu_len * 2 ^ 8 + byte) bytes

-- offset > payload.len() || payload.len() - offset < length_size
unfoldable pub length_is_truncated : List ℕ → ℕ → ℕ → Option Bool
unfolding minus
length_is_truncated payload length_size offset =
    if ltb (length payload) offset
    then some true
    else do left ← minus (length payload) offset; some (ltb left length_size)

unfoldable pub read_nalu_span : List ℕ → ℕ → ℕ → Option (Outcome AvcPayloadError NaluSpan)
unfolding length_is_truncated slice minus index
read_nalu_span payload length_size offset = do
  is_truncated ← length_is_truncated payload length_size offset
  if is_truncated then some (err truncated_nalu_length) else do
    length_bytes ← slice payload offset (offset + length_size)
    let nalu_len = nalu_len_of 0 length_bytes
    let payload_offset = offset + length_size
    if nalu_len == 0 then some (err zero_nalu_length) else do
      left ← minus (length payload) payload_offset
      if ltb left nalu_len then some (err truncated_nalu) else do
        first ← index payload payload_offset
        if not (bit_and first 0x80 == 0)
            then some (err invalid_nalu_header)
            else some (
                ok (record {
                  length_offset = offset;
                  payload_offset = payload_offset;
                  payload_len = nalu_len;
                  nalu_type = bit_and first 0x1f;
                }))

module _ {S : Type 0} (visit : NaluSpan → S → S) where
  -- The closure's captures are the state `S`; `none` is a panic, or that the fuel ran out.
  unfoldable pub visit_loop : ℕ → List ℕ → ℕ → ℕ → S → Option (Outcome AvcPayloadError S)
  unfolding read_nalu_span
  visit_loop zero payload length_size offset s = none
  visit_loop (suc fuel) payload length_size offset s = elim (ltb offset (length payload)) [
    | false ↦ some (ok s)
    | true ↦ (do
      read ← read_nalu_span payload length_size offset
      elim read [
        | err e ↦ some (err e)
        | ok nalu ↦
            visit_loop fuel payload length_size (nalu.payload_offset + nalu.payload_len)
              (visit nalu s)
      ])
  ]

  -- Every unit is a byte long at least, so that a round per byte and one more are enough.
  unfoldable pub visit_length_prefixed_nalus : List ℕ → ℕ → S → Option (Outcome AvcPayloadError S)
  unfolding visit_loop
  visit_length_prefixed_nalus [] length_size s = some (err empty_nalu_payload)
  visit_length_prefixed_nalus (b ∷ payload) length_size s =
      visit_loop (suc (length (b ∷ payload))) (b ∷ payload) length_size 0 s
