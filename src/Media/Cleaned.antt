-- ===== src/Media/Cleaned.antt =====
-- What is left of a packet after removal: no filler, and no more bytes than before.
use bilive_rec.Prelude.{
  ℕ, ◌≤◌, ◌≡◌, refl, sym, ap, ◌∙◌, subst, ◌%◌, ◌^◌, false, not, List, [], ◌∷◌, ◌++◌, length,
  length-append, any, count_where, keep, if◌then◌else◌, arith, Bool-cases, inl, inr, ◌==◌,
}
use bilive_rec.Flv.Tag.{FlvTag}
use bilive_rec.Flv.RoundTrip.{Fits}
use bilive_rec.Flv.Framed.{Nalu, AllFramed, framed, join}
use bilive_rec.Flv.Filler.{changed, empty_after_removal}
use bilive_rec.Flv.Tally.{is_filler, tally}
use bilive_rec.Flv.Compact.{retained}
use bilive_rec.Flv.Compacted.{retained_all}
use bilive_rec.Flv.Removal.{Packet, cleaned, counted, changed-false}
use bilive_rec.Media.Normalizer.{with_data}

-- What removal leaves has no filler, and at least one unit.
pub record IsClean (length_size : ℕ) (bytes : List ℕ) : Type 0 where
  pub header : List ℕ
  pub nalu : Nalu
  pub nalus : List Nalu
  pub size : length header ≡ 5
  pub splits : bytes ≡ header ++ join (nalu ∷ nalus)
  pub frames : AllFramed length_size (nalu ∷ nalus)
  pub no_filler : any is_filler (nalu ∷ nalus) ≡ false

retained-frames :
    (length_size : ℕ) (nalus : List Nalu)
    → AllFramed length_size nalus
    → AllFramed length_size (retained nalus)
unfolding keep
retained-frames length_size [] frames = tt
retained-frames length_size (nalu ∷ nalus) (frame, frames) = elim (Bool-cases (is_filler nalu)) [
  | inl filler ↦ rw (keep, filler) (retained-frames length_size nalus frames)
  | inr other ↦ rw (keep, other) (frame, retained-frames length_size nalus frames)
]

retained-no_filler : (nalus : List Nalu) → any is_filler (retained nalus) ≡ false
unfolding keep any
retained-no_filler [] = refl
retained-no_filler (nalu ∷ nalus) = elim (Bool-cases (is_filler nalu)) [
  | inl filler ↦ rw (keep, filler) (retained-no_filler nalus)
  | inr other ↦ rw (keep, other) (rw other (retained-no_filler nalus))
]

retained_some :
    (nalus : List Nalu)
    → ((count_where (λ n. not (is_filler n)) nalus == 0) ≡ false)
    → (nalu : Nalu) × (rest : List Nalu) × (retained nalus ≡ nalu ∷ rest)
unfolding keep count_where
retained_some [] e = absurd cc
retained_some (nalu ∷ nalus) e = elim (Bool-cases (is_filler nalu)) [
  | inl filler ↦
      let (n, rest, h) = retained_some nalus (rw filler at e) in (n, rest, rw (keep, filler) h)
  | inr other ↦ (nalu, retained nalus, rw (keep, other) refl)
]

length-retained : (nalus : List Nalu) → length (join (retained nalus)) ≤ length (join nalus)
unfolding keep
length-retained [] = omega arith
length-retained (nalu ∷ nalus) = elim (Bool-cases (is_filler nalu)) [
  | inl filler ↦
      rw (keep, filler)
        (omega (arith, length-retained nalus, length-append (framed nalu) (join nalus)))
  | inr other ↦
      rw (keep, other)
        (omega (
          arith,
          length-retained nalus,
          length-append (framed nalu) (join nalus),
          length-append (framed nalu) (join (retained nalus)),
        ))
]

pub cleaned-IsClean :
    (length_size : ℕ) (bytes : List ℕ) (packet : Packet length_size bytes)
    → empty_after_removal (counted packet) ≡ false
    → IsClean length_size (cleaned packet)
unfolding empty_after_removal tally
cleaned-IsClean length_size bytes packet e =
    let (nalu, nalus, h) = retained_some packet.nalus (ground (arith, e)) in
    record {
      header = packet.header;
      nalu = nalu;
      nalus = nalus;
      size = packet.size;
      splits = ap (λ t. packet.header ++ join t) h;
      frames =
          subst (AllFramed length_size) h (retained-frames length_size packet.nalus packet.frames);
      no_filler = subst (λ t. any is_filler t ≡ false) h (retained-no_filler packet.nalus);
    }

-- A tag that can be written: its fields have their widths, and its size is that of its data.
pub record IsWritable (tag : FlvTag) : Type 0 where
  pub fits : Fits tag.header
  pub size : length tag.tag_data ≡ tag.header.data_size

module _ (length_size : ℕ) (tag : FlvTag) (packet : Packet length_size tag.tag_data) where
  length-cleaned : length (cleaned packet) ≤ length tag.tag_data
  length-cleaned = omega (
    arith,
    ap length packet.splits,
    length-append packet.header (join packet.nalus),
    length-append packet.header (join (retained packet.nalus)),
    length-retained packet.nalus,
  )

  unchanged : changed (counted packet) ≡ false → cleaned packet ≡ tag.tag_data
  unchanged e =
      ap (λ t. packet.header ++ join t)
        (retained_all packet.nalus (changed-false length_size packet.nalus e))
      ∙ sym packet.splits

  -- The size that the tag gets is the length of what is left.
  size_set :
      IsWritable tag
      → (if changed (counted packet)
          then length (cleaned packet) % 2 ^ 32
          else tag.header.data_size)
        ≡ length (cleaned packet)
  size_set writable = elim (Bool-cases (changed (counted packet))) [
    | inl e ↦ rw e (omega (arith, writable.fits.data_size, writable.size, length-cleaned))
    | inr e ↦ rw e (omega (arith, writable.size, ap length (unchanged e)))
  ]

pub with_data-IsWritable :
    (length_size : ℕ) (tag : FlvTag) (packet : Packet length_size tag.tag_data)
    → IsWritable tag
    → IsWritable (with_data tag (counted packet) (cleaned packet))
unfolding with_data
with_data-IsWritable length_size tag packet writable =
    let size = size_set length_size tag packet writable in
    record {
      fits = record {
        data_size = omega (
          arith,
          size,
          writable.size,
          writable.fits.data_size,
          length-cleaned length_size tag packet,
        );
        timestamp = writable.fits.timestamp;
        stream_id = writable.fits.stream_id;
      };
      size = sym size;
    }
