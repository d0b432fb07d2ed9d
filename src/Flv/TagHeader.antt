-- ===== src/Flv/TagHeader.antt =====
-- FlvTagHeader in recorder/flv.rs: the eleven bytes in front of a tag's data.
use bilive_rec.Prelude.{ℕ, List, [], ◌∷◌, ◌==◌, ltb, if◌then◌else◌}
use bilive_rec.Prelude.Outcome.{Outcome, ok, err, ◌>>=◌}
use bilive_rec.Prelude.Bytes.{byte_at, from_be_bytes, be_byte0, be_byte1, be_byte2, be_byte3}
use bilive_rec.Flv.Stream.{
  IoError, Read, Write, read_exact, write_all, invalid_tag_type, data_size_exceeds,
  stream_id_exceeds,
}

pub data FlvTagType : Type 0 where
  audio video script_data : FlvTagType

-- `tag_type as u8`
abbrev pub tag_byte : FlvTagType → ℕ
tag_byte audio = 8
tag_byte video = 9
tag_byte script_data = 18

pub record FlvTagHeader : Type 0 where
  pub tag_type : FlvTagType
  pub data_size : ℕ
  pub timestamp : ℕ
  pub stream_id : ℕ

abbrev pub tag_type_of : ℕ → Outcome IoError FlvTagType
tag_type_of b =
    if b == 8
    then ok audio
    else if b == 9
    then ok video
    else if b == 18
    then ok script_data
    else err invalid_tag_type

-- The fields of the eleven bytes; the eighth has the upper byte of the timestamp.
unfoldable pub header_of : FlvTagType → List ℕ → FlvTagHeader
unfolding from_be_bytes
header_of tag_type buf = record {
  tag_type = tag_type;
  data_size = from_be_bytes 0 (byte_at buf 1) (byte_at buf 2) (byte_at buf 3);
  timestamp = from_be_bytes (byte_at buf 7) (byte_at buf 4) (byte_at buf 5) (byte_at buf 6);
  stream_id = from_be_bytes 0 (byte_at buf 8) (byte_at buf 9) (byte_at buf 10);
}

unfoldable pub read : Read FlvTagHeader
unfolding read_exact header_of
read source = do
  (buf, rest) ← read_exact 11 source
  tag_type ← tag_type_of (byte_at buf 0)
  ok (header_of tag_type buf, rest)

unfoldable pub header_bytes : FlvTagHeader → List ℕ
header_bytes header =
    tag_byte header.tag_type
    ∷ be_byte1 header.data_size
    ∷ be_byte2 header.data_size
    ∷ be_byte3 header.data_size
    ∷ be_byte1 header.timestamp
    ∷ be_byte2 header.timestamp
    ∷ be_byte3 header.timestamp
    ∷ be_byte0 header.timestamp
    ∷ be_byte1 header.stream_id
    ∷ be_byte2 header.stream_id
    ∷ be_byte3 header.stream_id
    ∷ []

unfoldable pub write : FlvTagHeader → Write
unfolding header_bytes write_all
write header out =
    if ltb 0x00ff_ffff header.data_size
    then err data_size_exceeds
    else if ltb 0x00ff_ffff header.stream_id
    then err stream_id_exceeds
    else write_all (header_bytes header) out
