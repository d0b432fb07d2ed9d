-- ===== src/Flv/InRange.antt =====
-- No index, slice or subtraction of the payload code in recorder/flv.rs is out of range.
use Prim.Native.Nat.{bit_and}
use bilive_rec.Prelude.{
  ℕ, ◌+◌, ◌-◌, ◌<◌, ◌≤◌, ◌≡◌, refl, Bool, true, false, not, ◌||◌, some, ◌⊎◌, inl, inr, List, [],
  ◌∷◌, length, ◌==◌, leb, ltb, if◌then◌else◌, arith, Bool-cases,
}
use bilive_rec.Prelude.Outcome.{Outcome, ok, err}
use bilive_rec.Prelude.Bytes.{byte_at, take, drop}
use bilive_rec.Prelude.Panics.{index, ◌>>=◌, index-some}
use bilive_rec.Flv.Avc.{
  AvcPayloadError, is_avc_video_tag, is_avc_keyframe, is_avc_nalu_packet, is_avc_sequence_header,
  is_aac_sequence_header, avc_nalu_length_size_from_sequence_header, not_nalu_packet,
  nalu_packet_too_short, invalid_nalu_length_size, truncated_nalu_length, zero_nalu_length,
  truncated_nalu, invalid_nalu_header, not_sequence_header, sequence_header_too_short,
  invalid_sequence_header,
}
use bilive_rec.Flv.Nalus.{NaluSpan, nalu_len_of, is_length_size, avc_nalu_payload, read_nalu_span}

-- A test of the first two bytes, behind the test that there are two.
two_bytes :
    (bytes : List ℕ) (test : ℕ → ℕ → Bool)
    → (b : Bool) × ((if ltb (length bytes) 2
          then some false
          else do first ← index bytes 0; second ← index bytes 1; some (test first second))
        ≡ some b)
two_bytes bytes test = elim (Bool-cases (ltb (length bytes) 2)) [
  | inl short ↦ (false, rw short refl)
  | inr long ↦
      let there : 1 < length bytes = ground (arith, long) in
      (
        test (byte_at bytes 0) (byte_at bytes 1),
        rw (long, index-some bytes 0 (omega (arith, there)), index-some bytes 1 there) refl,
      )
]

pub is_avc_keyframe-some : (bytes : List ℕ) → (b : Bool) × (is_avc_keyframe bytes ≡ some b)
unfolding is_avc_keyframe
is_avc_keyframe-some bytes = two_bytes bytes _

pub is_avc_nalu_packet-some : (bytes : List ℕ) → (b : Bool) × (is_avc_nalu_packet bytes ≡ some b)
unfolding is_avc_nalu_packet
is_avc_nalu_packet-some bytes = two_bytes bytes _

pub is_avc_sequence_header-some :
    (bytes : List ℕ) → (b : Bool) × (is_avc_sequence_header bytes ≡ some b)
unfolding is_avc_sequence_header
is_avc_sequence_header-some bytes = two_bytes bytes _

pub is_aac_sequence_header-some :
    (bytes : List ℕ) → (b : Bool) × (is_aac_sequence_header bytes ≡ some b)
unfolding is_aac_sequence_header
is_aac_sequence_header-some bytes = two_bytes bytes _

pub is_avc_video_tag-some : (bytes : List ℕ) → (b : Bool) × (is_avc_video_tag bytes ≡ some b)
unfolding is_avc_video_tag index
is_avc_video_tag-some [] = (false, refl)
is_avc_video_tag-some (b ∷ bytes) =
    let there : ltb 0 (length (b ∷ bytes)) ≡ true = ground arith in
    (bit_and b 0x0f == 7, rw there refl)

length_size_behind :
    (bytes : List ℕ) (b : Bool)
    → is_avc_sequence_header bytes ≡ some b
    → (r : Outcome AvcPayloadError ℕ) × (avc_nalu_length_size_from_sequence_header bytes ≡ some r)
unfolding avc_nalu_length_size_from_sequence_header
length_size_behind bytes false e =
    (err not_sequence_header, rw (avc_nalu_length_size_from_sequence_header, e) refl)
length_size_behind bytes true e = elim (Bool-cases (ltb (length bytes) 10)) [
  | inl short ↦
      (err sequence_header_too_short, rw (avc_nalu_length_size_from_sequence_header, e, short) refl)
  | inr long ↦
      let version : ltb 5 (length bytes) ≡ true = ground (arith, long) in
      let last : ltb 9 (length bytes) ≡ true = ground (arith, long) in
      elim (Bool-cases (byte_at bytes 5 == 1)) [
        | inr other ↦ (
          err invalid_sequence_header,
          rw (avc_nalu_length_size_from_sequence_header, e, long, version, other) refl,
        )
        | inl known ↦ elim (Bool-cases (bit_and (byte_at bytes 9) 0x03 + 1 == 3)) [
          | inl three ↦ (
            err invalid_nalu_length_size,
            rw (avc_nalu_length_size_from_sequence_header, e, long, version, known, last, three)
                refl,
          )
          | inr size ↦ (
            ok (bit_and (byte_at bytes 9) 0x03 + 1),
            rw (avc_nalu_length_size_from_sequence_header, e, long, version, known, last, size)
                refl,
          )
        ]
      ]
]

pub length_size-some :
    (bytes : List ℕ)
    → (r : Outcome AvcPayloadError ℕ) × (avc_nalu_length_size_from_sequence_header bytes ≡ some r)
length_size-some bytes =
    let (b, e) = is_avc_sequence_header-some bytes in length_size_behind bytes b e

payload_behind :
    (bytes : List ℕ) (length_size : ℕ) (b : Bool)
    → is_avc_nalu_packet bytes ≡ some b
    → ((e : AvcPayloadError) × (avc_nalu_payload bytes length_size ≡ some (err e)))
      ⊎ ((5 ≤ length bytes) × (avc_nalu_payload bytes length_size ≡ some (ok (drop 5 bytes))))
unfolding avc_nalu_payload
payload_behind bytes length_size false e = inl (not_nalu_packet, rw (avc_nalu_payload, e) refl)
payload_behind bytes length_size true e = elim (Bool-cases (is_length_size length_size)) [
  | inr other ↦ inl (invalid_nalu_length_size, rw (avc_nalu_payload, e, other) refl)
  | inl known ↦ elim (Bool-cases (ltb (length bytes) 5)) [
    | inl short ↦ inl (nalu_packet_too_short, rw (avc_nalu_payload, e, known, short) refl)
    | inr long ↦
        let there : leb 5 (length bytes) ≡ true = ground (arith, long) in
        inr (ground (arith, long), rw (avc_nalu_payload, e, known, long, there) refl)
  ]
]

pub avc_nalu_payload-cases :
    (bytes : List ℕ) (length_size : ℕ)
    → ((e : AvcPayloadError) × (avc_nalu_payload bytes length_size ≡ some (err e)))
      ⊎ ((5 ≤ length bytes) × (avc_nalu_payload bytes length_size ≡ some (ok (drop 5 bytes))))
avc_nalu_payload-cases bytes length_size =
    let (b, e) = is_avc_nalu_packet-some bytes in payload_behind bytes length_size b e

-- What the code finds at an offset, with reads that are given what is there.
unfoldable pub spanned : List ℕ → ℕ → ℕ → Outcome AvcPayloadError NaluSpan
spanned payload length_size offset =
    let nalu_len = nalu_len_of 0 (take length_size (drop offset payload)) in
    let payload_offset = offset + length_size in
    let first = byte_at payload payload_offset in
    if ltb (length payload) offset || ltb (length payload - offset) length_size
    then err truncated_nalu_length
    else if nalu_len == 0
    then err zero_nalu_length
    else if ltb (length payload - payload_offset) nalu_len
    then err truncated_nalu
    else if not (bit_and first 0x80 == 0)
    then err invalid_nalu_header
    else ok (record {
      length_offset = offset;
      payload_offset = payload_offset;
      payload_len = nalu_len;
      nalu_type = bit_and first 0x1f;
    })

-- The tests behind the length's bytes.
unit_tests :
    (payload : List ℕ) (offset nalu_len : ℕ) (span : ℕ → NaluSpan)
    → (if nalu_len == 0
        then some (err zero_nalu_length)
        else if ltb (length payload - offset) nalu_len
        then some (err truncated_nalu)
        else do
          first ← index payload offset
          if not (bit_and first 0x80 == 0)
              then some (err invalid_nalu_header)
              else some (ok (span first)))
      ≡ some (
          if nalu_len == 0
          then err zero_nalu_length
          else if ltb (length payload - offset) nalu_len
          then err truncated_nalu
          else if not (bit_and (byte_at payload offset) 0x80 == 0)
          then err invalid_nalu_header
          else ok (span (byte_at payload offset)))
unit_tests payload offset nalu_len span = elim (Bool-cases (nalu_len == 0)) [
  | inl empty ↦ rw empty refl
  | inr filled ↦ elim (Bool-cases (ltb (length payload - offset) nalu_len)) [
    | inl cut ↦ rw (filled, cut) refl
    | inr whole ↦
        let first = index-some payload offset (ground (arith, filled, whole)) in
        elim (Bool-cases (bit_and (byte_at payload offset) 0x80 == 0)) [
          | inl header ↦ rw (filled, whole, first, header) refl
          | inr other ↦ rw (filled, whole, first, other) refl
        ]
  ]
]

pub read_nalu_span-some :
    (payload : List ℕ) (length_size offset : ℕ)
    → read_nalu_span payload length_size offset ≡ some (spanned payload length_size offset)
unfolding read_nalu_span spanned
read_nalu_span-some payload length_size offset = elim (Bool-cases (ltb (length payload) offset)) [
  | inl beyond ↦ rw beyond refl
  | inr inside ↦
      let there : leb offset (length payload) ≡ true = ground (arith, inside) in
      elim (Bool-cases (ltb (length payload - offset) length_size)) [
        | inl short ↦ rw (inside, there, short) refl
        | inr fits ↦
            let ordered : leb offset (offset + length_size) ≡ true = ground arith in
            let ends : leb (offset + length_size) (length payload) ≡ true =
              ground (arith, inside, fits) in
            let size : offset + length_size - offset ≡ length_size = omega arith in
            rw (inside, there, fits, ordered, ends, size)
              (unit_tests payload (offset + length_size) _ _)
      ]
]
