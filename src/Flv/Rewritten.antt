-- ===== src/Flv/Rewritten.antt =====
-- Writing back a tag that recorder/flv.rs read.
use mathlib.Core.List.{append_assoc}
use Prim.Native.Nat.{zero, suc}
use bilive_rec.Prelude.{
  ℕ, ◌≡◌, refl, sym, ap, ◌∙◌, subst, ◌+◌, ◌<◌, ◌^◌, ◌%◌, List, [], ◌∷◌, ◌++◌, length, All, arith,
  ◌==◌, true, ==_iff,
}
use bilive_rec.Prelude.Outcome.{ok, chain_ok, guard_ok, ok_inj}
use bilive_rec.Prelude.Bytes.{
  IsByte, byte_at, from_be_bytes, be_byte0, be_byte1, be_byte2, be_byte3,
}
use bilive_rec.Flv.Stream.{read_exact, read_exact_takes}
use bilive_rec.Flv.TagHeader
use bilive_rec.Flv.TagHeader.{
  FlvTagType, FlvTagHeader, tag_byte, tag_type_of, header_of, header_bytes, audio, video,
  script_data,
}
use bilive_rec.Flv.Tag
use bilive_rec.Flv.Tag.{FlvTag, read_trailer, read_previous_tag_size}
use bilive_rec.Flv.RoundTrip.{Fits, size_bytes, tag_bytes}

-- f 0, f 1, … f (n - 1)
abbrev table : ℕ → (ℕ → ℕ) → List ℕ
table zero f = []
table (suc n) f = f 0 ∷ table n (λ i. f (suc i))

table-byte_at : (buf : List ℕ) (n : ℕ) → length buf ≡ n → table n (byte_at buf) ≡ buf
table-byte_at [] zero e = refl
table-byte_at [] (suc n) e = absurd (omega (arith, e))
table-byte_at (b ∷ buf) zero e = absurd (omega (arith, e))
table-byte_at (b ∷ buf) (suc n) e = ap (λ t. b ∷ t) (table-byte_at buf n (omega (arith, e)))

byte_at-IsByte : (buf : List ℕ) → All IsByte buf → (i : ℕ) → byte_at buf i < 256
byte_at-IsByte [] h i = omega arith
byte_at-IsByte (b ∷ buf) (p, h) zero = p
byte_at-IsByte (b ∷ buf) (p, h) (suc i) = byte_at-IsByte buf h i

All-append : (xs ys : List ℕ) → All IsByte (xs ++ ys) → All IsByte xs × All IsByte ys
All-append [] ys h = (tt, h)
All-append (x ∷ xs) ys (p, h) = let (hx, hy) = All-append xs ys h in ((p, hx), hy)

-- Splitting a number into its bytes, after it was made of them.
module _ (a b c d : ℕ) (ha : a < 256) (hb : b < 256) (hc : c < 256) (hd : d < 256) where
  byte0_of : be_byte0 (from_be_bytes a b c d) ≡ a
  unfolding from_be_bytes
  byte0_of = omega arith

  byte1_of : be_byte1 (from_be_bytes a b c d) ≡ b
  unfolding from_be_bytes
  byte1_of = omega arith

  byte2_of : be_byte2 (from_be_bytes a b c d) ≡ c
  unfolding from_be_bytes
  byte2_of = omega arith

  byte3_of : be_byte3 (from_be_bytes a b c d) ≡ d
  unfolding from_be_bytes
  byte3_of = omega arith

tag_type_of_ok : (b : ℕ) (t : FlvTagType) → tag_type_of b ≡ ok t → tag_byte t ≡ b
tag_type_of_ok b audio e = ground (arith, e)
tag_type_of_ok b video e = ground (arith, e)
tag_type_of_ok b script_data e = ground (arith, e)

header_bytes-header_of :
    (t : FlvTagType) (buf : List ℕ)
    → length buf ≡ 11
    → All IsByte buf
    → tag_byte t ≡ byte_at buf 0
    → header_bytes (header_of t buf) ≡ buf
unfolding header_bytes header_of
header_bytes-header_of t buf size bytes e =
    let at : (i : ℕ) → byte_at buf i < 256 = byte_at-IsByte buf bytes in
    let z : 0 < 256 = omega arith in
    rw
      (
        e,
        byte1_of 0 (byte_at buf 1) (byte_at buf 2) (byte_at buf 3) z (at 1) (at 2) (at 3),
        byte2_of 0 (byte_at buf 1) (byte_at buf 2) (byte_at buf 3) z (at 1) (at 2) (at 3),
        byte3_of 0 (byte_at buf 1) (byte_at buf 2) (byte_at buf 3) z (at 1) (at 2) (at 3),
        byte1_of 0 (byte_at buf 8) (byte_at buf 9) (byte_at buf 10) z (at 8) (at 9) (at 10),
        byte2_of 0 (byte_at buf 8) (byte_at buf 9) (byte_at buf 10) z (at 8) (at 9) (at 10),
        byte3_of 0 (byte_at buf 8) (byte_at buf 9) (byte_at buf 10) z (at 8) (at 9) (at 10),
        byte0_of (byte_at buf 7) (byte_at buf 4) (byte_at buf 5) (byte_at buf 6) (at 7) (at 4)
            (at 5) (at 6),
        byte1_of (byte_at buf 7) (byte_at buf 4) (byte_at buf 5) (byte_at buf 6) (at 7) (at 4)
            (at 5) (at 6),
        byte2_of (byte_at buf 7) (byte_at buf 4) (byte_at buf 5) (byte_at buf 6) (at 7) (at 4)
            (at 5) (at 6),
        byte3_of (byte_at buf 7) (byte_at buf 4) (byte_at buf 5) (byte_at buf 6) (at 7) (at 4)
            (at 5) (at 6),
      )
      (table-byte_at buf 11 size)

from_be_bytes_below :
    (a b c d : ℕ)
    → a < 256
    → b < 256
    → c < 256
    → d < 256
    → (from_be_bytes a b c d < 2 ^ 32) × (from_be_bytes 0 b c d < 2 ^ 24)
unfolding from_be_bytes
from_be_bytes_below a b c d ha hb hc hd = omega arith

header_of-Fits : (t : FlvTagType) (buf : List ℕ) → All IsByte buf → Fits (header_of t buf)
unfolding header_of
header_of-Fits t buf bytes =
    let at : (i : ℕ) → byte_at buf i < 256 = byte_at-IsByte buf bytes in
    record {
      data_size = (from_be_bytes_below 0 _ _ _ (omega arith) (at 1) (at 2) (at 3)).1;
      timestamp = (from_be_bytes_below _ _ _ _ (at 7) (at 4) (at 5) (at 6)).0;
      stream_id = (from_be_bytes_below 0 _ _ _ (omega arith) (at 8) (at 9) (at 10)).1;
    }

-- The bytes of a header that was read, and what is left behind it.
read_header_lem :
    (source : List ℕ) (p : FlvTagHeader × List ℕ)
    → All IsByte source
    → TagHeader.read source ≡ ok p
    → (source ≡ header_bytes p.0 ++ p.1) × Fits p.0 × All IsByte p.1
unfolding TagHeader.read
read_header_lem source p bytes e =
    let (q, r, f) = chain_ok (read_exact 11 source) _ p e in
    let (t, g, k) = chain_ok (tag_type_of (byte_at q.0 0)) _ p f in
    let (split, size) = read_exact_takes 11 source q r in
    let (front, back) = All-append q.0 q.1 (subst (All IsByte) split bytes) in
    let same = header_bytes-header_of t q.0 size front (tag_type_of_ok _ t g) in
    subst (λ x. (source ≡ header_bytes x.0 ++ x.1) × Fits x.0 × All IsByte x.1) (ok_inj k)
      (split ∙ ap (λ b. b ++ q.1) (sym same), header_of-Fits t q.0 front, back)

size_bytes-from_be_bytes :
    (buf : List ℕ)
    → length buf ≡ 4
    → All IsByte buf
    → size_bytes (from_be_bytes (byte_at buf 0) (byte_at buf 1) (byte_at buf 2) (byte_at buf 3))
      ≡ buf
size_bytes-from_be_bytes buf size bytes =
    let at : (i : ℕ) → byte_at buf i < 256 = byte_at-IsByte buf bytes in
    rw
      (
        byte0_of (byte_at buf 0) (byte_at buf 1) (byte_at buf 2) (byte_at buf 3) (at 0) (at 1)
            (at 2) (at 3),
        byte1_of (byte_at buf 0) (byte_at buf 1) (byte_at buf 2) (byte_at buf 3) (at 0) (at 1)
            (at 2) (at 3),
        byte2_of (byte_at buf 0) (byte_at buf 1) (byte_at buf 2) (byte_at buf 3) (at 0) (at 1)
            (at 2) (at 3),
        byte3_of (byte_at buf 0) (byte_at buf 1) (byte_at buf 2) (byte_at buf 3) (at 0) (at 1)
            (at 2) (at 3),
      )
      (table-byte_at buf 4 size)

read_size_lem :
    (source : List ℕ) (p : ℕ × List ℕ)
    → All IsByte source
    → read_previous_tag_size source ≡ ok p
    → source ≡ size_bytes p.0 ++ p.1
unfolding read_previous_tag_size
read_size_lem source p bytes e =
    let (q, r, f) = chain_ok (read_exact 4 source) _ p e in
    let (split, size) = read_exact_takes 4 source q r in
    let (front, back) = All-append q.0 q.1 (subst (All IsByte) split bytes) in
    subst (λ x. source ≡ size_bytes x.0 ++ x.1) (ok_inj f)
      (split ∙ ap (λ b. b ++ q.1) (sym (size_bytes-from_be_bytes q.0 size front)))

trailer_lem :
    (header : FlvTagHeader) (tag_data source : List ℕ) (p : FlvTag × List ℕ)
    → All IsByte source
    → read_trailer header tag_data source ≡ ok p
    → (source ≡ size_bytes (11 + header.data_size) ++ p.1)
      × (◌≡◌ {A = FlvTag} (record { header = header; tag_data = tag_data }) p.0)
unfolding read_trailer
trailer_lem header tag_data source p bytes e =
    let (q, r, f) = chain_ok (read_previous_tag_size source) _ p e in
    let (same, k) = guard_ok (q.0 == 11 + header.data_size) _ _ p f in
    let front =
      subst (λ n. source ≡ size_bytes n ++ q.1) ((==_iff _ _).0 same)
        (read_size_lem source q bytes r) in
    subst
      (λ (x : FlvTag × List ℕ).
        (source ≡ size_bytes (11 + header.data_size) ++ x.1)
        × (◌≡◌ {A = FlvTag} (record { header = header; tag_data = tag_data }) x.0))
      (ok_inj k) (front, refl)

-- The bytes of a tag that was read, and what is left behind it.
pub read_lem :
    (source : List ℕ) (p : FlvTag × List ℕ)
    → All IsByte source
    → Tag.read source ≡ ok p
    → (source ≡ tag_bytes p.0 ++ p.1)
      × Fits p.0.header
      × (length p.0.tag_data ≡ p.0.header.data_size)
unfolding Tag.read tag_bytes
read_lem source p bytes e =
    let (h, r, f) = chain_ok (TagHeader.read source) _ p e in
    let (d, r', f') = chain_ok (read_exact h.0.data_size h.1) _ p f in
    let (split, fits, behind) = read_header_lem source h bytes r in
    let (split', size) = read_exact_takes h.0.data_size h.1 d r' in
    let (front, back) = All-append d.0 d.1 (subst (All IsByte) split' behind) in
    let (split'', same) = trailer_lem h.0 d.0 d.1 p back f' in
    let trailer = size_bytes (11 + h.0.data_size) in
    let whole : source ≡ (header_bytes h.0 ++ (d.0 ++ trailer)) ++ p.1 =
      split
      ∙ ap (λ b. header_bytes h.0 ++ b)
          (split' ∙ ap (λ b. d.0 ++ b) split'' ∙ sym (append_assoc d.0 trailer p.1))
      ∙ sym (append_assoc (header_bytes h.0) (d.0 ++ trailer) p.1) in
    subst
      (λ (t : FlvTag).
        (source ≡ tag_bytes t ++ p.1) × Fits t.header × (length t.tag_data ≡ t.header.data_size))
      same (whole, fits, size)

header-writes :
    (header : FlvTagHeader) (out : List ℕ)
    → Fits header
    → TagHeader.write header out ≡ ok (out ++ header_bytes header)
unfolding TagHeader.write
header-writes header out fits = ground (arith, fits.data_size, fits.stream_id)

pub tag-writes :
    (tag : FlvTag) (out : List ℕ)
    → Fits tag.header
    → length tag.tag_data ≡ tag.header.data_size
    → Tag.write tag out ≡ ok (out ++ tag_bytes tag)
unfolding Tag.write tag_bytes
tag-writes tag out fits size =
    let same : (length tag.tag_data % 2 ^ 32 == tag.header.data_size) ≡ true =
      (==_iff _ _).1 (omega (arith, size, fits.data_size)) in
    let trailer = size_bytes (11 + tag.header.data_size) in
    rw (same, header-writes tag.header out fits)
      (ap ok (
        append_assoc (out ++ header_bytes tag.header) tag.tag_data trailer
        ∙ append_assoc out (header_bytes tag.header) (tag.tag_data ++ trailer)))

pub write-read_tag :
    (source : List ℕ) (tag : FlvTag) (rest out : List ℕ)
    → All IsByte source
    → Tag.read source ≡ ok (tag, rest)
    → (bytes : List ℕ) × (Tag.write tag out ≡ ok (out ++ bytes)) × (source ≡ bytes ++ rest)
write-read_tag source tag rest out bytes e =
    let (whole, fits, size) = read_lem source (tag, rest) bytes e in
    (tag_bytes tag, tag-writes tag out fits size, whole)
