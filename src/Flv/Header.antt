-- ===== src/Flv/Header.antt =====
-- FlvHeader in recorder/flv.rs: the nine bytes in front of the tags.
use Prim.Native.Nat.{bit_and, bit_or}
use bilive_rec.Prelude.{
  ℕ, ◌≡◌, refl, Bool, true, false, not, ◌&&◌, List, [], ◌∷◌, ◌++◌, ◌==◌, if◌then◌else◌,
}
use bilive_rec.Prelude.Outcome.{ok, err, ◌>>=◌}
use bilive_rec.Prelude.Bytes.{byte_at, from_be_bytes, be_byte0, be_byte1, be_byte2, be_byte3}
use bilive_rec.Flv.Stream.{
  Read, Write, read_exact, write_all, invalid_signature, unsupported_version, unsupported_offset,
}

pub record FlvHeader : Type 0 where
  pub has_video : Bool
  pub has_audio : Bool

-- b"FLV"
abbrev is_signature : List ℕ → Bool
is_signature buf = byte_at buf 0 == 0x46 && byte_at buf 1 == 0x4c && byte_at buf 2 == 0x56

header_offset : List ℕ → ℕ
unfolding from_be_bytes
header_offset buf = from_be_bytes (byte_at buf 5) (byte_at buf 6) (byte_at buf 7) (byte_at buf 8)

unfoldable pub read : Read FlvHeader
unfolding read_exact header_offset
read source = do
  (buf, rest) ← read_exact 9 source
  if not (is_signature buf)
      then err invalid_signature
      else if not (byte_at buf 3 == 1)
      then err (unsupported_version (byte_at buf 3))
      else if not (header_offset buf == 9)
      then err (unsupported_offset (header_offset buf))
      else ok (
        record {
          has_video = not (bit_and (byte_at buf 4) 1 == 0);
          has_audio = not (bit_and (byte_at buf 4) 4 == 0);
        },
        rest,
      )

-- buf[4], which starts as 0.
abbrev flags : FlvHeader → ℕ
flags header =
    let video = if header.has_video then bit_or 0 1 else 0 in
    if header.has_audio then bit_or video 4 else video

unfoldable pub write : FlvHeader → Write
unfolding write_all
write header out =
    write_all
      (0x46
        ∷ 0x4c
        ∷ 0x56
        ∷ 1
        ∷ flags header
        ∷ be_byte0 9
        ∷ be_byte1 9
        ∷ be_byte2 9
        ∷ be_byte3 9
        ∷ [])
      out

-- The header with these two flags, written and read back.
Returned : Bool → Bool → List ℕ → Type 0
Returned has_video has_audio rest =
    let header : FlvHeader = record { has_video = has_video; has_audio = has_audio } in
    (bytes : List ℕ) × (write header [] ≡ ok bytes) × (read (bytes ++ rest) ≡ ok (header, rest))

both_flags : (has_video has_audio : Bool) (rest : List ℕ) → Returned has_video has_audio rest
unfolding read write Returned
both_flags true true rest = (_, refl, refl)
both_flags true false rest = (_, refl, refl)
both_flags false true rest = (_, refl, refl)
both_flags false false rest = (_, refl, refl)

pub read-write :
    (header : FlvHeader) (rest : List ℕ)
    → (bytes : List ℕ) × (write header [] ≡ ok bytes) × (read (bytes ++ rest) ≡ ok (header, rest))
unfolding Returned
read-write header rest = both_flags header.has_video header.has_audio rest
