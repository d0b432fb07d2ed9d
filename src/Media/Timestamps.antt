-- ===== src/Media/Timestamps.antt =====
-- TimestampNormalizer in recorder/flv_pipeline.rs.
use Prim.Native.Nat.{max}
use bilive_rec.Prelude.{ℕ, ◌+◌, ◌-◌, ◌^◌, min, Bool, true, false, not, ◌||◌, if◌then◌else◌}
use bilive_rec.Prelude.Int.{ℤ, pos, ◌-ℤ◌, ltb_ℤ, min_ℤ, as_u32}
use bilive_rec.Flv.TagHeader.{FlvTagType, audio, video, script_data}
use bilive_rec.Flv.Tag.{FlvTag}

abbrev pub timestamp_jump_threshold_ms : ℕ
timestamp_jump_threshold_ms = 500

abbrev pub u32_max : ℕ
u32_max = 2 ^ 32 - 1

pub record TimestampNormalizer : Type 0 where
  pub initialized : Bool
  pub current_offset : ℤ
  pub last_original : ℕ
  pub last_output : ℕ

abbrev pub new : TimestampNormalizer
new = record { initialized = false; current_offset = pos 0; last_original = 0; last_output = 0 }

abbrev pub fallback_delta : FlvTagType → ℕ
fallback_delta audio = 22
fallback_delta video = 33
fallback_delta script_data = 0

unfoldable pub fallback_delta_for_tag : FlvTag → ℕ
fallback_delta_for_tag tag = fallback_delta tag.header.tag_type

-- !(-THRESHOLD..=THRESHOLD).contains(&diff)
abbrev pub jumps : ℤ → Bool
jumps diff =
    ltb_ℤ diff (pos 0 -ℤ pos timestamp_jump_threshold_ms)
    || ltb_ℤ (pos timestamp_jump_threshold_ms) diff

-- The offset and the output that the first test of a later tag chooses.
unfoldable pub rebase : TimestampNormalizer → ℕ → ℕ → ℤ × ℤ
unfolding ◌-ℤ◌
rebase self original delta =
    let target = min (self.last_output + delta) u32_max in
    if jumps (pos original -ℤ pos self.last_original)
    then (pos original -ℤ pos target, pos target)
    else (self.current_offset, pos original -ℤ self.current_offset)

-- An output below 0 becomes 0, and is where the offset starts anew.
abbrev pub clamp : ℕ → ℤ × ℤ → ℤ × ℤ
clamp original (offset, output) =
    if ltb_ℤ output (pos 0) then (pos original, pos 0) else (offset, output)

-- The new timestamp, and the normalizer after it.
unfoldable pub normalized : TimestampNormalizer → ℕ → ℕ → ℕ × TimestampNormalizer
unfolding rebase as_u32
normalized self original delta =
    let chosen = clamp original (rebase self original delta) in
    let output = as_u32 (min_ℤ chosen.1 (pos u32_max)) in
    if not self.initialized
    then (
      0,
      record {
        initialized = true;
        current_offset = pos original;
        last_original = original;
        last_output = 0;
      },
    )
    else (
      output,
      record {
        initialized = self.initialized;
        current_offset = chosen.0;
        last_original = original;
        last_output = max self.last_output output;
      },
    )

unfoldable pub with_timestamp : FlvTag → ℕ → FlvTag
with_timestamp tag timestamp = record {
  header = record {
    tag_type = tag.header.tag_type;
    data_size = tag.header.data_size;
    timestamp = timestamp;
    stream_id = tag.header.stream_id;
  };
  tag_data = tag.tag_data;
}

unfoldable pub normalize : TimestampNormalizer → FlvTag → FlvTag × TimestampNormalizer
unfolding normalized fallback_delta_for_tag with_timestamp
normalize self tag =
    let (timestamp, next) = normalized self tag.header.timestamp (fallback_delta_for_tag tag) in
    (with_timestamp tag timestamp, next)
