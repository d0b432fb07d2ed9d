-- ===== src/Flv/Tag.antt =====
-- FlvTag in recorder/flv.rs: a header, its data and the size of both.
use bilive_rec.Prelude.{ℕ, ◌+◌, ◌%◌, ◌^◌, List, [], ◌∷◌, length, not, ◌==◌, if◌then◌else◌}
use bilive_rec.Prelude.Outcome.{ok, err, ◌>>=◌}
use bilive_rec.Prelude.Bytes.{byte_at, from_be_bytes, be_byte0, be_byte1, be_byte2, be_byte3}
use bilive_rec.Flv.Stream.{
  Read, Write, read_exact, write_all, data_size_mismatch, invalid_previous_tag_size,
}
use bilive_rec.Flv.TagHeader
use bilive_rec.Flv.TagHeader.{FlvTagHeader}

pub record FlvTag : Type 0 where
  pub header : FlvTagHeader
  pub tag_data : List ℕ

unfoldable pub read_previous_tag_size : Read ℕ
unfolding read_exact from_be_bytes
read_previous_tag_size source = do
  (buf, rest) ← read_exact 4 source
  ok (from_be_bytes (byte_at buf 0) (byte_at buf 1) (byte_at buf 2) (byte_at buf 3), rest)

unfoldable pub write_previous_tag_size : ℕ → Write
unfolding write_all
write_previous_tag_size size out =
    write_all (be_byte0 size ∷ be_byte1 size ∷ be_byte2 size ∷ be_byte3 size ∷ []) out

-- The last four bytes of a tag. The header's size has 24 bits, so that the sum fits in 32.
unfoldable pub read_trailer : FlvTagHeader → List ℕ → Read FlvTag
unfolding read_previous_tag_size
read_trailer header tag_data source = do
  (previous_tag_size, rest) ← read_previous_tag_size source
  let expected_size = 11 + header.data_size
  if not (previous_tag_size == expected_size)
      then err (invalid_previous_tag_size expected_size previous_tag_size)
      else ok (record { header = header; tag_data = tag_data }, rest)

unfoldable pub read : Read FlvTag
unfolding TagHeader.read read_exact read_trailer
read source = do
  (header, after_header) ← TagHeader.read source
  (tag_data, after_data) ← read_exact header.data_size after_header
  read_trailer header tag_data after_data

unfoldable pub write : FlvTag → Write
unfolding TagHeader.write write_all write_previous_tag_size
write tag out =
    if not (length tag.tag_data % 2 ^ 32 == tag.header.data_size)
    then err data_size_mismatch
    else do
      with_header ← TagHeader.write tag.header out
      with_data ← write_all tag.tag_data with_header
      write_previous_tag_size (11 + tag.header.data_size) with_data
