-- ===== src/Flv/RoundTrip.antt =====
-- What recorder/flv.rs writes for a tag, and that its readers give the tag back.
use mathlib.Core.List.{append_assoc}
use bilive_rec.Prelude.{
  ℕ, ◌≡◌, refl, ap, ◌+◌, ◌<◌, ◌^◌, List, [], ◌∷◌, ◌++◌, length, arith, ◌==◌, true,
}
use bilive_rec.Prelude.Outcome.{ok}
use bilive_rec.Prelude.Bytes.{
  be_byte0, be_byte1, be_byte2, be_byte3, from_be_bytes_of, from_be_bytes_of_24,
}
use bilive_rec.Flv.Stream.{read_exact, read_exact-append}
use bilive_rec.Flv.TagHeader
use bilive_rec.Flv.TagHeader.{
  FlvTagType, audio, video, script_data, FlvTagHeader, tag_byte, tag_type_of, header_of,
  header_bytes,
}
use bilive_rec.Flv.Tag
use bilive_rec.Flv.Tag.{FlvTag, read_trailer, read_previous_tag_size, write_previous_tag_size}

-- The fields have the widths that the format gives them.
pub record Fits (header : FlvTagHeader) : Type 0 where
  pub data_size : header.data_size < 2 ^ 24
  pub timestamp : header.timestamp < 2 ^ 32
  pub stream_id : header.stream_id < 2 ^ 24

header_ext :
    (t : FlvTagType) {a b c a' b' c' : ℕ}
    → a ≡ a'
    → b ≡ b'
    → c ≡ c'
    → ◌≡◌ {A = FlvTagHeader}
        (record { tag_type = t; data_size = a; timestamp = b; stream_id = c })
        (record { tag_type = t; data_size = a'; timestamp = b'; stream_id = c' })
header_ext t p q r = rw (p, q, r) refl

header_of-header_bytes :
    (header : FlvTagHeader) → Fits header → header_of header.tag_type (header_bytes header) ≡ header
unfolding header_of header_bytes
header_of-header_bytes header fits =
    header_ext header.tag_type (from_be_bytes_of_24 _ fits.data_size)
      (from_be_bytes_of _ fits.timestamp) (from_be_bytes_of_24 _ fits.stream_id)

tag_type_of-tag_byte : (t : FlvTagType) → tag_type_of (tag_byte t) ≡ ok t
tag_type_of-tag_byte audio = refl
tag_type_of-tag_byte video = refl
tag_type_of-tag_byte script_data = refl

header-back :
    (header : FlvTagHeader) (rest : List ℕ)
    → Fits header
    → TagHeader.read (header_bytes header ++ rest) ≡ ok (header, rest)
unfolding TagHeader.read read_exact header_bytes header_of
header-back header rest fits =
    rw (tag_type_of-tag_byte header.tag_type)
      (ap (λ h. ok (h, rest)) (header_of-header_bytes header fits))

-- What a tag becomes: header, data, and the size of both.
abbrev pub size_bytes : ℕ → List ℕ
size_bytes size = be_byte0 size ∷ be_byte1 size ∷ be_byte2 size ∷ be_byte3 size ∷ []

unfoldable pub tag_bytes : FlvTag → List ℕ
tag_bytes tag = header_bytes tag.header ++ (tag.tag_data ++ size_bytes (11 + tag.header.data_size))

size-back :
    (size : ℕ) (rest : List ℕ)
    → size < 2 ^ 32
    → read_previous_tag_size (size_bytes size ++ rest) ≡ ok (size, rest)
unfolding read_previous_tag_size read_exact
size-back size rest h = ap (λ n. ok (n, rest)) (from_be_bytes_of size h)

data-back :
    (tag : FlvTag) (rest : List ℕ)
    → length tag.tag_data ≡ tag.header.data_size
    → read_exact tag.header.data_size (tag.tag_data ++ rest) ≡ ok (tag.tag_data, rest)
data-back tag rest size = rw (← size) (read_exact-append tag.tag_data rest)

==_refl : (n : ℕ) → (n == n) ≡ true
==_refl n = ground arith

trailer-back :
    (tag : FlvTag) (rest : List ℕ)
    → Fits tag.header
    → read_trailer tag.header tag.tag_data (size_bytes (11 + tag.header.data_size) ++ rest)
      ≡ ok (tag, rest)
unfolding read_trailer
trailer-back tag rest fits =
    let size = from_be_bytes_of (11 + tag.header.data_size) (omega (arith, fits.data_size)) in
    rw (size, ==_refl (11 + tag.header.data_size)) refl

-- The reader gives back the tag and leaves what follows it.
pub tag-back :
    (tag : FlvTag) (rest : List ℕ)
    → Fits tag.header
    → length tag.tag_data ≡ tag.header.data_size
    → Tag.read (tag_bytes tag ++ rest) ≡ ok (tag, rest)
unfolding Tag.read tag_bytes
tag-back tag rest fits size =
    let trailer = size_bytes (11 + tag.header.data_size) in
    rw
      (
        append_assoc (header_bytes tag.header) (tag.tag_data ++ trailer) rest,
        header-back tag.header ((tag.tag_data ++ trailer) ++ rest) fits,
        append_assoc tag.tag_data trailer rest,
        data-back tag (trailer ++ rest) size,
      )
      (trailer-back tag rest fits)
