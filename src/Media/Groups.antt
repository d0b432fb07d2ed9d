-- ===== src/Media/Groups.antt =====
-- MediaGroupBuffer, MediaGroupDeduplicator and StableHasher in recorder/flv_pipeline.rs.
use Prim.Native.Nat.{bit_xor, ◌/◌}
use bilive_rec.Prelude.{
  ℕ, ◌+◌, ◌-◌, ◌*◌, ◌%◌, ◌^◌, min, Bool, true, false, not, ◌&&◌, ◌||◌, none, some, List, [], ◌∷◌,
  ◌++◌, length, last, any, ◌==◌, ltb, if◌then◌else◌,
}
use bilive_rec.Prelude.Bytes.{be_byte0, be_byte1, be_byte2, be_byte3}
use bilive_rec.Prelude.Int.{pos, ◌-ℤ◌, ltb_ℤ}
use bilive_rec.Flv.TagHeader.{FlvTagType, audio, video, script_data, tag_byte}
use bilive_rec.Flv.Tag.{FlvTag}

-- The hash of a group: 64 bits, and a product that wraps.
abbrev hash_step : ℕ → ℕ → ℕ
hash_step hash byte = bit_xor hash byte * 0x0000_0100_0000_01b3 % 2 ^ 64

unfoldable pub write_bytes : ℕ → List ℕ → ℕ
write_bytes hash [] = hash
write_bytes hash (byte ∷ bytes) = write_bytes (hash_step hash byte) bytes

unfoldable pub write_u8 : ℕ → ℕ → ℕ
unfolding write_bytes
write_u8 hash value = write_bytes hash (value ∷ [])

unfoldable pub write_u32 : ℕ → ℕ → ℕ
unfolding write_bytes
write_u32 hash value =
    write_bytes hash (be_byte0 value ∷ be_byte1 value ∷ be_byte2 value ∷ be_byte3 value ∷ [])

unfoldable pub write_u64 : ℕ → ℕ → ℕ
unfolding write_bytes
write_u64 hash value =
    let upper = value / 2 ^ 32 in
    write_bytes hash (
      be_byte0 upper
      ∷ be_byte1 upper
      ∷ be_byte2 upper
      ∷ be_byte3 upper
      ∷ be_byte0 value
      ∷ be_byte1 value
      ∷ be_byte2 value
      ∷ be_byte3 value
      ∷ [])

unfoldable pub write_tag : ℕ → FlvTag → ℕ
unfolding write_u8 write_u32 write_bytes
write_tag hash tag =
    write_bytes
      (write_u32 (write_u32 (write_u8 hash (tag_byte tag.header.tag_type)) tag.header.data_size)
        tag.header.timestamp)
      tag.tag_data

unfoldable pub fingerprint_from : ℕ → ℕ → List FlvTag → ℕ
unfolding write_tag write_u64
fingerprint_from hash count [] = write_u64 hash count
fingerprint_from hash count (tag ∷ tags) = fingerprint_from (write_tag hash tag) (count + 1) tags

unfoldable pub fingerprint_media_group : List FlvTag → ℕ
unfolding fingerprint_from
fingerprint_media_group tags = fingerprint_from 0xcbf2_9ce4_8422_2325 0 tags

abbrev pub duplicate_history_limit : ℕ
duplicate_history_limit = 16

abbrev pub duplicate_reconnect_threshold : ℕ
duplicate_reconnect_threshold = 10

pub record MediaGroupDeduplicator : Type 0 where
  pub history : List ℕ
  pub duplicate_run : ℕ

pub data MediaGroupDecision : Type 0 where
  unique duplicate reconnect : MediaGroupDecision

abbrev pub no_history : MediaGroupDeduplicator
no_history = record { history = []; duplicate_run = 0 }

-- while history.len() > LIMIT { history.pop_front() }
unfoldable pub trim : List ℕ → List ℕ
trim [] = []
trim (x ∷ history) =
    let rest = trim history in
    if ltb duplicate_history_limit (length (x ∷ history)) then rest else x ∷ history

unfoldable pub observe_fingerprint :
    MediaGroupDeduplicator → ℕ → MediaGroupDecision × MediaGroupDeduplicator
unfolding any trim
observe_fingerprint self fingerprint =
    let run = min (self.duplicate_run + 1) (2 ^ 32 - 1) in
    if any (λ seen. seen == fingerprint) self.history
    then (
      if ltb duplicate_reconnect_threshold run then reconnect else duplicate,
      record { history = self.history; duplicate_run = run },
    )
    else (unique, record { history = trim (self.history ++ (fingerprint ∷ [])); duplicate_run = 0 })

unfoldable pub observe :
    MediaGroupDeduplicator → List FlvTag → MediaGroupDecision × MediaGroupDeduplicator
unfolding fingerprint_media_group observe_fingerprint
observe self tags = observe_fingerprint self (fingerprint_media_group tags)

pub record MediaGroupBuffer : Type 0 where
  pub pending : List FlvTag
  pub deduplicator : MediaGroupDeduplicator

pub data MediaGroupFlush : Type 0 where
  empty : MediaGroupFlush
  unique_group : List FlvTag → MediaGroupFlush
  duplicate_group : Bool → ℕ → MediaGroupFlush

abbrev pub new : MediaGroupBuffer
new = record { pending = []; deduplicator = no_history }

abbrev is_video : FlvTagType → Bool
is_video video = true
is_video audio = false
is_video script_data = false

unfoldable pub is_video_tag : FlvTag → Bool
is_video_tag tag = is_video tag.header.tag_type

-- !(-24_999..24_999).contains(&diff)
unfoldable pub starts_group : FlvTag → FlvTag → Bool
unfolding ◌-ℤ◌
starts_group last_tag tag =
    let diff = pos tag.header.timestamp -ℤ pos last_tag.header.timestamp in
    ltb_ℤ diff (pos 0 -ℤ pos 24_999) || not (ltb_ℤ diff (pos 24_999))

unfoldable pub should_start_new_group : MediaGroupBuffer → FlvTag → Bool → Bool
unfolding is_video_tag starts_group any
should_start_new_group self tag is_keyframe = elim (last self.pending) [
  | none ↦ false
  | some last_tag ↦ (is_keyframe && any is_video_tag self.pending) || starts_group last_tag tag
]

unfoldable pub push : MediaGroupBuffer → FlvTag → MediaGroupBuffer
push self tag = record { pending = self.pending ++ (tag ∷ []); deduplicator = self.deduplicator }

abbrev pub flushed : MediaGroupDecision → List FlvTag → MediaGroupFlush
flushed unique pending = unique_group pending
flushed duplicate pending = duplicate_group false (length pending)
flushed reconnect pending = duplicate_group true (length pending)

abbrev flush_pending : List FlvTag → MediaGroupDeduplicator → MediaGroupFlush × MediaGroupBuffer
unfolding observe
flush_pending [] deduplicator = (empty, record { pending = []; deduplicator = deduplicator })
flush_pending (tag ∷ tags) deduplicator =
    let (decision, next) = observe deduplicator (tag ∷ tags) in
    (flushed decision (tag ∷ tags), record { pending = []; deduplicator = next })

unfoldable pub flush : MediaGroupBuffer → MediaGroupFlush × MediaGroupBuffer
unfolding flush_pending
flush self = flush_pending self.pending self.deduplicator

unfoldable pub reset_deduplicator : MediaGroupBuffer → MediaGroupBuffer
reset_deduplicator self = record { pending = self.pending; deduplicator = no_history }
