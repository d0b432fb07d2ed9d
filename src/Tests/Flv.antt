-- ===== src/Tests/Flv.antt =====
-- Runs of the FLV readers, writers and of the removal of filler units.
use bilive_rec.Prelude.{ℕ, ◌≡◌, refl, some, List, [], ◌∷◌, ◌++◌, arith}
use bilive_rec.Prelude.Outcome.{ok, err}
use bilive_rec.Flv.Stream.{invalid_signature, invalid_previous_tag_size}
use bilive_rec.Flv.Header
use bilive_rec.Flv.TagHeader.{video}
use bilive_rec.Flv.Tag
use bilive_rec.Flv.Tag.{FlvTag}
use bilive_rec.Flv.Written.{read-write_tag}
use bilive_rec.Flv.Rewritten.{write-read_tag}
use bilive_rec.Flv.Avc.{is_avc_nalu_packet}
use bilive_rec.Flv.Filler.{AvcFillerRemoval, nothing_seen, remove_avc_filler_nalus}
use bilive_rec.Flv.Framed.{Nalu, IsFramed, join}
use bilive_rec.Flv.Tally.{tally}
use bilive_rec.Flv.Compact.{retained}
use bilive_rec.Flv.Removal.{Cleans, remove-Cleans, remove-framed}

-- A video tag at 0x01020304 milliseconds.
abbrev tag : FlvTag
tag = record {
  header = record { tag_type = video; data_size = 2; timestamp = 0x0102_0304; stream_id = 0 };
  tag_data = 0x17 ∷ 0x01 ∷ [];
}

abbrev tag_written : List ℕ
tag_written = 9 ∷ 0 ∷ 0 ∷ 2 ∷ 2 ∷ 3 ∷ 4 ∷ 1 ∷ 0 ∷ 0 ∷ 0 ∷ 0x17 ∷ 0x01 ∷ 0 ∷ 0 ∷ 0 ∷ 13 ∷ []

write_tag : Tag.write tag [] ≡ ok tag_written
unfolding Tag.write
write_tag = refl

read-tag : Tag.read (tag_written ++ (7 ∷ [])) ≡ ok (tag, 7 ∷ [])
unfolding Tag.read
read-tag = refl

read_bad_trailer :
    Tag.read (8 ∷ 0 ∷ 0 ∷ 0 ∷ 0 ∷ 0 ∷ 0 ∷ 0 ∷ 0 ∷ 0 ∷ 0 ∷ 0 ∷ 0 ∷ 0 ∷ 12 ∷ [])
    ≡ err (invalid_previous_tag_size 11 12)
unfolding Tag.read
read_bad_trailer = refl

read_header : Header.read (0x46 ∷ 0x4c ∷ 0x57 ∷ 1 ∷ 5 ∷ 0 ∷ 0 ∷ 0 ∷ 9 ∷ []) ≡ err invalid_signature
unfolding Header.read
read_header = refl

read-write_tag_example : Tag.read (tag_written ++ (7 ∷ [])) ≡ ok (tag, 7 ∷ [])
read-write_tag_example =
    read-write_tag tag tag_written (7 ∷ []) (omega arith) (omega arith) write_tag

write-read_tag_example :
    (bytes : List ℕ) × (Tag.write tag (3 ∷ []) ≡ ok ((3 ∷ []) ++ bytes))
    × (tag_written ++ (7 ∷ []) ≡ bytes ++ (7 ∷ []))
write-read_tag_example =
    write-read_tag (tag_written ++ (7 ∷ [])) tag (7 ∷ []) (3 ∷ []) (omega arith) read-tag

-- A packet with a filler unit in front of a slice.
abbrev front : List ℕ
front = 0x17 ∷ 1 ∷ 0 ∷ 0 ∷ 0 ∷ []

abbrev filler : Nalu
filler = record { length_bytes = 0 ∷ 0 ∷ 0 ∷ 2 ∷ []; body = 0x0c ∷ 0xff ∷ [] }

abbrev slice : Nalu
slice = record { length_bytes = 0 ∷ 0 ∷ 0 ∷ 1 ∷ []; body = 0x65 ∷ [] }

abbrev packet : List ℕ
packet = front ++ join (filler ∷ slice ∷ [])

abbrev counts : AvcFillerRemoval
counts = record {
  inspection = nothing_seen.inspection;
  retained_nalus = 1;
  removed_filler_nalus = 1;
  removed_filler_payload_bytes = 2;
  removed_filler_total_bytes = 6;
}

removed : remove_avc_filler_nalus packet 4 ≡ some (ok counts, front ++ join (slice ∷ []))
unfolding remove_avc_filler_nalus
removed = refl

remove-Cleans_example : Cleans 4 packet (remove_avc_filler_nalus packet 4)
remove-Cleans_example = remove-Cleans packet 4

filler-IsFramed : IsFramed 4 filler
filler-IsFramed = record { size = refl; states = refl; filled = omega arith; is_header = refl }

slice-IsFramed : IsFramed 4 slice
slice-IsFramed = record { size = refl; states = refl; filled = omega arith; is_header = refl }

remove-framed_example :
    remove_avc_filler_nalus packet 4
    ≡ some (
      ok (tally 4 nothing_seen (filler ∷ slice ∷ [])),
      front ++ join (retained (filler ∷ slice ∷ [])),
    )
unfolding is_avc_nalu_packet
remove-framed_example =
    remove-framed 4 front filler (slice ∷ []) refl refl refl (filler-IsFramed, (slice-IsFramed, tt))
