-- ===== src/Media/Normalizer.antt =====
-- FlvNormalizer in recorder/flv_pipeline.rs: the cached headers, and what is done with each tag.
use bilive_rec.Prelude.{
  ℕ, ◌+◌, ◌%◌, ◌^◌, min, Bool, true, false, not, ◌&&◌, ◌||◌, Option, none, some, List, length, ◌==◌,
  leb, is_some, is_some_and, if◌then◌else◌,
}
use bilive_rec.Prelude.Outcome.{Outcome, ok, err}
use bilive_rec.Prelude.Bytes.{bytes_eq}
use bilive_rec.Prelude.Panics.{◌>>=◌}
use bilive_rec.Flv.TagHeader.{FlvTagType, audio, video, script_data}
use bilive_rec.Flv.Tag.{FlvTag}
use bilive_rec.Flv.Avc.{
  AvcPayloadError, is_avc_video_tag, is_avc_keyframe, is_avc_nalu_packet, is_avc_sequence_header,
  is_aac_sequence_header, avc_nalu_length_size_from_sequence_header,
}
use bilive_rec.Flv.Filler.{
  AvcFillerRemoval, Removed, changed, empty_after_removal, remove_avc_filler_nalus,
}
use bilive_rec.Media.Timestamps
use bilive_rec.Media.Timestamps.{TimestampNormalizer, normalize}

-- AppError::StreamProtocol, by the texts that this file gives it.
pub data StreamError : Type 0 where
  unsupported_video_codec : StreamError
  invalid_avc_sequence_header : AvcPayloadError → StreamError
  invalid_avc_nalu_packet : AvcPayloadError → StreamError

pub record FlvNormalizer : Type 0 where
  pub metadata_tag : Option FlvTag
  pub avc_seq_tag : Option FlvTag
  pub aac_seq_tag : Option FlvTag
  pub avc_nalu_length_size : Option ℕ
  pub in_band_parameter_sets_seen : ℕ
  pub avc_in_band_parameter_sets : Bool
  pub pending_header_change : Bool
  pub timestamp : TimestampNormalizer

pub data NormalizedAction : Type 0 where
  drop_tag : NormalizedAction
  write_tag : FlvTag → Bool → NormalizedAction

abbrev pub new : FlvNormalizer
new = record {
  metadata_tag = none;
  avc_seq_tag = none;
  aac_seq_tag = none;
  avc_nalu_length_size = none;
  in_band_parameter_sets_seen = 0;
  avc_in_band_parameter_sets = false;
  pending_header_change = false;
  timestamp = Timestamps.new;
}

unfoldable pub is_synced : FlvNormalizer → Bool
is_synced self = is_some self.metadata_tag && is_some self.avc_seq_tag && is_some self.aac_seq_tag

abbrev is_cache : FlvTagType → List ℕ → Option Bool
unfolding is_avc_sequence_header is_aac_sequence_header
is_cache script_data bytes = some true
is_cache video bytes = is_avc_sequence_header bytes
is_cache audio bytes = is_aac_sequence_header bytes

unfoldable pub is_cache_tag : FlvTag → Option Bool
unfolding is_cache
is_cache_tag tag = is_cache tag.header.tag_type tag.tag_data

unfoldable pub start_new_file : FlvNormalizer → FlvNormalizer
start_new_file self = record self { pending_header_change = false; timestamp = Timestamps.new }

-- u8::saturating_add
unfoldable pub note_in_band_parameter_sets : FlvNormalizer → FlvNormalizer
note_in_band_parameter_sets self =
    let seen = min (self.in_band_parameter_sets_seen + 1) 255 in
    if self.avc_in_band_parameter_sets then self else record self {
      in_band_parameter_sets_seen = seen;
      avc_in_band_parameter_sets = self.avc_in_band_parameter_sets || leb 2 seen;
    }

-- is_some_and(|old| old.data != tag.data)
abbrev pub differs : Option FlvTag → FlvTag → Bool
differs cached tag = is_some_and cached (λ old. not (bytes_eq old.tag_data tag.tag_data))

-- What a call of `observe_tag` gives: an action and the normalizer after it, or an error. `none` is
-- a panic of the functions on payloads.
abbrev pub Observed : Type 0
Observed = Option (Outcome StreamError (NormalizedAction × FlvNormalizer))

unfoldable pub cache_sequence_header : FlvNormalizer → FlvTag → Bool → ℕ → FlvNormalizer
cache_sequence_header self tag recording length_size =
    let header_changed = recording && differs self.avc_seq_tag tag in
    let length_size_changed =
      is_some_and self.avc_nalu_length_size (λ old. not (old == length_size)) in
    record self {
      pending_header_change =
          (header_changed && (not self.avc_in_band_parameter_sets || length_size_changed))
          || self.pending_header_change;
      avc_nalu_length_size = some length_size;
      avc_seq_tag = some tag;
    }

unfoldable pub observe_sequence_header : FlvNormalizer → FlvTag → Bool → Observed
unfolding avc_nalu_length_size_from_sequence_header cache_sequence_header
observe_sequence_header self tag recording = do
  read ← avc_nalu_length_size_from_sequence_header tag.tag_data
  elim read [
    | err e ↦ some (err (invalid_avc_sequence_header e))
    | ok length_size ↦ some (ok (drop_tag, cache_sequence_header self tag recording length_size))
  ]

-- The tag after removal: its data is what is left, and its size is set if something was removed.
unfoldable pub with_data : FlvTag → AvcFillerRemoval → List ℕ → FlvTag
unfolding changed
with_data tag removal bytes = record {
  header = record {
    tag_type = tag.header.tag_type;
    data_size = if changed removal then length bytes % 2 ^ 32 else tag.header.data_size;
    timestamp = tag.header.timestamp;
    stream_id = tag.header.stream_id;
  };
  tag_data = bytes;
}

unfoldable pub after_removal : FlvNormalizer → FlvTag → Bool → Removed → Observed
unfolding with_data empty_after_removal note_in_band_parameter_sets
after_removal self tag is_keyframe (err e, bytes) = some (err (invalid_avc_nalu_packet e))
after_removal self tag is_keyframe (ok removal, bytes) =
    let noted =
      if is_keyframe && removal.inspection.has_sps && removal.inspection.has_pps
      then note_in_band_parameter_sets self
      else self in
    if empty_after_removal removal
    then some (ok (drop_tag, self))
    else some (ok (write_tag (with_data tag removal bytes) is_keyframe, noted))

unfoldable pub observe_nalus : FlvNormalizer → FlvTag → Bool → ℕ → Observed
unfolding remove_avc_filler_nalus after_removal
observe_nalus self tag is_keyframe length_size = do
  removed ← remove_avc_filler_nalus tag.tag_data length_size
  after_removal self tag is_keyframe removed

unfoldable pub observe_packet : FlvNormalizer → FlvTag → Bool → Option ℕ → Observed
unfolding is_avc_nalu_packet observe_nalus
observe_packet self tag is_keyframe none = some (ok (write_tag tag is_keyframe, self))
observe_packet self tag is_keyframe (some length_size) = do
  is_packet ← is_avc_nalu_packet tag.tag_data
  if is_packet
      then observe_nalus self tag is_keyframe length_size
      else some (ok (write_tag tag is_keyframe, self))

unfoldable pub observe_media : FlvNormalizer → FlvTag → Option ℕ → Observed
unfolding is_avc_keyframe observe_packet
observe_media self tag found = do
  is_keyframe ← is_avc_keyframe tag.tag_data
  observe_packet self tag is_keyframe found

unfoldable pub observe_video : FlvNormalizer → FlvTag → Bool → Observed
unfolding is_avc_video_tag is_avc_sequence_header observe_sequence_header observe_media
observe_video self tag recording = do
  is_avc ← is_avc_video_tag tag.tag_data
  if not is_avc then some (err unsupported_video_codec) else do
    is_header ← is_avc_sequence_header tag.tag_data
    if is_header
        then observe_sequence_header self tag recording
        else observe_media self tag self.avc_nalu_length_size

unfoldable pub observe_audio : FlvNormalizer → FlvTag → Bool → Observed
unfolding is_aac_sequence_header
observe_audio self tag recording = do
  is_header ← is_aac_sequence_header tag.tag_data
  if is_header
      then some (
          ok (
            drop_tag,
            record self {
              pending_header_change =
                  (recording && differs self.aac_seq_tag tag) || self.pending_header_change;
              aac_seq_tag = some tag;
            },
          ))
      else some (ok (write_tag tag false, self))

unfoldable pub observe_as : FlvTagType → FlvNormalizer → FlvTag → Bool → Observed
unfolding observe_video observe_audio
observe_as script_data self tag recording =
    some (ok (drop_tag, record self { metadata_tag = some tag }))
observe_as video self tag recording = observe_video self tag recording
observe_as audio self tag recording = observe_audio self tag recording

unfoldable pub observe_tag : FlvNormalizer → FlvTag → Bool → Observed
unfolding observe_as
observe_tag self tag recording = observe_as tag.header.tag_type self tag recording

unfoldable pub normalize_media_timestamp : FlvNormalizer → FlvTag → FlvTag × FlvNormalizer
unfolding normalize
normalize_media_timestamp self tag =
    let (out, next) = normalize self.timestamp tag in (out, record self { timestamp = next })
