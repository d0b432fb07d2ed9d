-- ===== src/Tests/Media.antt =====
-- A stream through the normalizer and the group buffer.
use bilive_rec.Prelude.{ℕ, ◌≡◌, ◌≢◌, refl, some, none, true, List, [], ◌∷◌, ◌++◌, arith}
use bilive_rec.Prelude.Outcome.{ok}
use bilive_rec.Flv.TagHeader.{video}
use bilive_rec.Flv.Tag
use bilive_rec.Flv.Tag.{FlvTag}
use bilive_rec.Flv.Avc.{is_avc_nalu_packet}
use bilive_rec.Media.Timestamps
use bilive_rec.Media.Steady.{AheadOf, normalize_all, normalize_all-AheadOf}
use bilive_rec.Media.Normalizer
use bilive_rec.Media.Normalizer.{FlvNormalizer, write_tag, observe_tag}
use bilive_rec.Media.Cleaned.{IsWritable, IsClean}
use bilive_rec.Media.Recorded.{observe_tag-ne-none, observe_tag-write, observe_tag-IsClean}
use bilive_rec.Media.Groups
use bilive_rec.Media.Window.{flush_all, selected, flush_all-selected}

abbrev packet : FlvTag
packet = record {
  header = record { tag_type = video; data_size = 16; timestamp = 5_000; stream_id = 0 };
  tag_data = 0x17 ∷ 1 ∷ 0 ∷ 0 ∷ 0 ∷ 0 ∷ 0 ∷ 0 ∷ 2 ∷ 0x0c ∷ 0xff ∷ 0 ∷ 0 ∷ 0 ∷ 1 ∷ 0x65 ∷ [];
}

abbrev clean_packet : FlvTag
clean_packet = record {
  header = record { tag_type = video; data_size = 10; timestamp = 5_000; stream_id = 0 };
  tag_data = 0x17 ∷ 1 ∷ 0 ∷ 0 ∷ 0 ∷ 0 ∷ 0 ∷ 0 ∷ 1 ∷ 0x65 ∷ [];
}

-- A normalizer that has seen a sequence header.
abbrev synced : FlvNormalizer
synced = record Normalizer.new { avc_nalu_length_size = some 4 }

observed : observe_tag synced packet true ≡ some (ok (write_tag clean_packet true, synced))
unfolding observe_tag
observed = refl

observe_tag-ne-none_example : observe_tag synced packet true ≢ none
observe_tag-ne-none_example = observe_tag-ne-none synced packet true

packet-IsWritable : IsWritable packet
packet-IsWritable = record {
  fits = record { data_size = omega arith; timestamp = omega arith; stream_id = omega arith };
  size = refl;
}

observe_tag-write_example :
    (bytes : List ℕ) × (Tag.write clean_packet [] ≡ ok ([] ++ bytes))
    × (Tag.read (bytes ++ (7 ∷ [])) ≡ ok (clean_packet, 7 ∷ []))
observe_tag-write_example =
    observe_tag-write synced packet true clean_packet true synced [] (7 ∷ []) packet-IsWritable
      observed

observe_tag-IsClean_example : IsClean 4 clean_packet.tag_data
unfolding is_avc_nalu_packet
observe_tag-IsClean_example =
    observe_tag-IsClean synced packet true clean_packet true synced 4 observed refl refl refl

-- A jump of the stream's clock by more than half a second.
abbrev at : ℕ → FlvTag
at timestamp = record {
  header = record { tag_type = video; data_size = 0; timestamp = timestamp; stream_id = 0 };
  tag_data = [];
}

steady :
    normalize_all Timestamps.new (at 5_000 ∷ at 5_040 ∷ at 100 ∷ at 140 ∷ [])
    ≡ at 0 ∷ at 40 ∷ at 73 ∷ at 113 ∷ []
unfolding normalize_all
steady = refl

normalize_all-AheadOf_example :
    (out : FlvTag) × (outs : List FlvTag) × (normalize_all Timestamps.new (at 5_000 ∷ at 5_040 ∷ [])
      ≡ out ∷ outs)
    × (out.header.timestamp ≡ 0)
    × AheadOf 0 outs
normalize_all-AheadOf_example = normalize_all-AheadOf (at 5_000) (at 5_040 ∷ [])

-- A group that comes again.
abbrev groups : List (List FlvTag)
groups = (at 0 ∷ []) ∷ (at 40 ∷ []) ∷ (at 0 ∷ []) ∷ []

flushed_groups : flush_all Groups.new groups ≡ (at 0 ∷ []) ∷ (at 40 ∷ []) ∷ []
unfolding flush_all
flushed_groups = refl

flush_all-selected_example : flush_all Groups.new groups ≡ selected [] groups
flush_all-selected_example = flush_all-selected groups
