-- ===== src/Flv/Avc.antt =====
-- recorder/flv.rs on the payload of audio and video tags: what kind of packet it is, the errors of
-- an AVC payload, and the length size that an AVC sequence header states. `none` is a panic.
use Prim.Native.Nat.{bit_and, ◌/◌}
use bilive_rec.Prelude.{
  ℕ, ◌+◌, ◌^◌, Bool, false, not, ◌&&◌, Option, some, List, is_empty, length, ◌==◌, ltb,
  if◌then◌else◌,
}
use bilive_rec.Prelude.Outcome.{Outcome, ok, err}
use bilive_rec.Prelude.Panics.{index, ◌>>=◌}

-- byte & 0x0F
abbrev lower_half : ℕ → ℕ
lower_half b = bit_and b 0x0f

-- (byte >> 4) & 0x0F
abbrev upper_half : ℕ → ℕ
upper_half b = bit_and (b / 2 ^ 4) 0x0f

unfoldable pub is_avc_video_tag : List ℕ → Option Bool
unfolding index
is_avc_video_tag bytes =
    if is_empty bytes then some false else do first ← index bytes 0; some (lower_half first == 7)

unfoldable pub is_avc_keyframe : List ℕ → Option Bool
unfolding index
is_avc_keyframe bytes = if ltb (length bytes) 2 then some false else do
  first ← index bytes 0
  packet_type ← index bytes 1
  some (upper_half first == 1 && lower_half first == 7 && packet_type == 1)

unfoldable pub is_avc_nalu_packet : List ℕ → Option Bool
unfolding index
is_avc_nalu_packet bytes = if ltb (length bytes) 2 then some false else do
  first ← index bytes 0
  packet_type ← index bytes 1
  some (lower_half first == 7 && packet_type == 1)

unfoldable pub is_avc_sequence_header : List ℕ → Option Bool
unfolding index
is_avc_sequence_header bytes = if ltb (length bytes) 2 then some false else do
  first ← index bytes 0
  packet_type ← index bytes 1
  some (lower_half first == 7 && packet_type == 0)

unfoldable pub is_aac_sequence_header : List ℕ → Option Bool
unfolding index
is_aac_sequence_header bytes = if ltb (length bytes) 2 then some false else do
  first ← index bytes 0
  packet_type ← index bytes 1
  some (upper_half first == 10 && packet_type == 0)

pub data AvcPayloadError : Type 0 where
  not_sequence_header : AvcPayloadError
  sequence_header_too_short : AvcPayloadError
  invalid_sequence_header : AvcPayloadError
  not_nalu_packet : AvcPayloadError
  nalu_packet_too_short : AvcPayloadError
  invalid_nalu_length_size : AvcPayloadError
  empty_nalu_payload : AvcPayloadError
  truncated_nalu_length : AvcPayloadError
  zero_nalu_length : AvcPayloadError
  truncated_nalu : AvcPayloadError
  invalid_nalu_header : AvcPayloadError
  unsupported_annex_b_start_code : AvcPayloadError

unfoldable pub avc_nalu_length_size_from_sequence_header :
    List ℕ → Option (Outcome AvcPayloadError ℕ)
unfolding is_avc_sequence_header index
avc_nalu_length_size_from_sequence_header bytes = do
  is_header ← is_avc_sequence_header bytes
  if not is_header
      then some (err not_sequence_header)
      else if ltb (length bytes) 10
      then some (err sequence_header_too_short)
      else do
        version ← index bytes 5
        if not (version == 1) then some (err invalid_sequence_header) else do
          last ← index bytes 9
          let length_size = bit_and last 0x03 + 1
          if length_size == 3 then some (err invalid_nalu_length_size) else some (ok length_size)
