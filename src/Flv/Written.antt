-- ===== src/Flv/Written.antt =====
-- What a successful write of recorder/flv.rs says of the tag, and reading it back.
use mathlib.Core.List.{append_assoc}
use bilive_rec.Prelude.{
  ℕ, ◌≡◌, sym, ◌∙◌, subst, ◌+◌, ◌<◌, ◌^◌, ◌%◌, List, [], ◌++◌, length, arith, ==_iff, ◌==◌,
  Bool-cases, inl, inr,
}
use bilive_rec.Prelude.Outcome.{ok, chain_ok, ok_inj}
use bilive_rec.Flv.Stream.{IoError, write_all}
use bilive_rec.Flv.TagHeader
use bilive_rec.Flv.TagHeader.{FlvTagHeader, header_bytes}
use bilive_rec.Flv.Tag
use bilive_rec.Flv.Tag.{FlvTag, write_previous_tag_size}
use bilive_rec.Flv.RoundTrip.{size_bytes, tag_bytes, tag-back}

header-writes :
    (header : FlvTagHeader) (out bytes : List ℕ)
    → TagHeader.write header out ≡ ok bytes
    → (out ++ header_bytes header ≡ bytes)
      × (header.data_size < 2 ^ 24)
      × (header.stream_id < 2 ^ 24)
unfolding TagHeader.write
header-writes header out bytes e =
    grind (arith, e, λ (x y : List ℕ). ok_inj {E = IoError} {a = x} {b = y})

data-writes :
    (tag : FlvTag) (out bytes : List ℕ)
    → Tag.write tag out ≡ ok bytes
    → (length tag.tag_data % 2 ^ 32 ≡ tag.header.data_size)
      × ((mid : List ℕ) × (TagHeader.write tag.header out ≡ ok mid)
          × ((mid ++ tag.tag_data) ++ size_bytes (11 + tag.header.data_size) ≡ bytes))
unfolding Tag.write write_all write_previous_tag_size
data-writes tag out bytes e =
    elim (Bool-cases (length tag.tag_data % 2 ^ 32 == tag.header.data_size)) [
      | inr differs ↦ absurd (ground (arith, e))
      | inl same ↦
          let (mid, h, f) = chain_ok (TagHeader.write tag.header out) _ bytes (rw same at e) in
          ((==_iff _ _).0 same, (mid, h, ok_inj f))
    ]

pub write_lem :
    (tag : FlvTag) (out bytes : List ℕ)
    → Tag.write tag out ≡ ok bytes
    → (bytes ≡ out ++ tag_bytes tag)
      × (length tag.tag_data % 2 ^ 32 ≡ tag.header.data_size)
      × (tag.header.data_size < 2 ^ 24)
      × (tag.header.stream_id < 2 ^ 24)
unfolding tag_bytes
write_lem tag out bytes e =
    let (size, (mid, h, joined)) = data-writes tag out bytes e in
    let (before, small, stream) = header-writes tag.header out mid h in
    let trailer = size_bytes (11 + tag.header.data_size) in
    let bytes_e : (out ++ header_bytes tag.header ++ tag.tag_data) ++ trailer ≡ bytes =
      subst (λ m. (m ++ tag.tag_data) ++ trailer ≡ bytes) (sym before) joined in
    (
      sym bytes_e
          ∙ append_assoc (out ++ header_bytes tag.header) tag.tag_data trailer
          ∙ append_assoc out (header_bytes tag.header) (tag.tag_data ++ trailer),
      size,
      small,
      stream,
    )

-- A tag that was written is read back, with whatever follows it left.
pub read-write_tag :
    (tag : FlvTag) (bytes rest : List ℕ)
    → length tag.tag_data < 2 ^ 32
    → tag.header.timestamp < 2 ^ 32
    → Tag.write tag [] ≡ ok bytes
    → Tag.read (bytes ++ rest) ≡ ok (tag, rest)
read-write_tag tag bytes rest short time e =
    let (b, size, small, stream) = write_lem tag [] bytes e in
    rw b (
      tag-back tag rest (record { data_size = small; timestamp = time; stream_id = stream })
        (omega (arith, size)))
