-- ===== src/Flv/Compacted.antt =====
-- The loop of `compact_non_filler_nalus` in recorder/flv.rs leaves the units that are no filler.
use Prim.Native.Nat.{zero, suc}
use mathlib.Core.List.{append_assoc, append-nil}
use bilive_rec.Prelude.{
  ℕ, ◌+◌, ◌-◌, ◌<◌, ◌≡◌, refl, sym, ap, ◌∙◌, true, false, inl, inr, some, List, [], ◌∷◌, ◌++◌,
  length, length-append, count_where, keep, ◌≤◌, ltb, arith, Bool-cases,
}
use bilive_rec.Prelude.Outcome.{ok}
use bilive_rec.Prelude.Bytes.{take, drop, take-append, drop-append, drop-drop, length-drop}
use bilive_rec.Prelude.Panics.{bind_some, minus-some, slice_from-some}
use bilive_rec.Flv.Nalus.{NaluSpan, read_nalu_span}
use bilive_rec.Flv.Framed.{
  Nalu, IsFramed, AllFramed, framed, join, length-join, span_of, span_at, length-framed,
}
use bilive_rec.Flv.Filler.{compact_nalu, compact_loop, compact_non_filler_nalus}
use bilive_rec.Flv.Tally.{is_filler}
use bilive_rec.Flv.Compact.{Halfway, kept, retained, compact_nalu_step}

-- The code finds the next unit where the units still to be read begin.
Halfway-span :
    (length_size : ℕ) (bytes : List ℕ) (read write : ℕ) (written : List ℕ) (nalu : Nalu)
    (nalus : List Nalu)
    → IsFramed length_size nalu
    → Halfway bytes read write written (nalu ∷ nalus)
    → (5 ≤ length bytes)
      × (ltb read (length bytes - 5) ≡ true)
      × (read_nalu_span (drop 5 bytes) length_size read ≡ some (ok (span_of read length_size nalu)))
Halfway-span length_size bytes read write written nalu nalus frame half = (
  ground (arith, whole, half.meets),
  ground (arith, whole, half.meets, frame.filled, length-framed length_size nalu frame),
  span_at length_size (drop 5 bytes) (join nalus) read nalu frame
      (omega (arith, whole, half.meets, length-drop bytes 5)) at,
)
  where
    whole :
        length bytes
        ≡ length written + (length half.gap + (length (framed nalu) + length (join nalus)))
    whole = omega (
      arith,
      ap length half.splits,
      length-append written (half.gap ++ join (nalu ∷ nalus)),
      length-append half.gap (join (nalu ∷ nalus)),
      length-append (framed nalu) (join nalus),
    )

    at : drop read (drop 5 bytes) ≡ framed nalu ++ join nalus
    at =
        sym (drop-drop bytes 5 read)
        ∙ ap (drop (5 + read))
            (half.splits ∙ sym (append_assoc written half.gap (join (nalu ∷ nalus))))
        ∙ drop-append (written ++ half.gap) (join (nalu ∷ nalus)) (5 + read)
            (omega (arith, half.meets, length-append written half.gap))

loop_next :
    (fuel : ℕ) (bytes : List ℕ) (length_size read write : ℕ) (span : NaluSpan) (next : List ℕ × ℕ)
    → 5 ≤ length bytes
    → ltb read (length bytes - 5) ≡ true
    → read_nalu_span (drop 5 bytes) length_size read ≡ some (ok span)
    → compact_nalu bytes span write ≡ some next
    → compact_loop (suc fuel) bytes length_size read write
      ≡ compact_loop fuel next.0 length_size (span.payload_offset + span.payload_len) next.1
unfolding compact_loop
loop_next fuel bytes length_size read write span next header more found compacted =
    bind_some _ (minus-some (length bytes) 5 header)
    ∙ rw more
        (bind_some _ (slice_from-some bytes 5 header) ∙ bind_some _ found ∙ bind_some _ compacted)

loop_done :
    (fuel : ℕ) (bytes : List ℕ) (length_size read write : ℕ)
    → 5 ≤ length bytes
    → ltb read (length bytes - 5) ≡ false
    → compact_loop (suc fuel) bytes length_size read write ≡ some (take write bytes)
unfolding compact_loop
loop_done fuel bytes length_size read write header done =
    bind_some _ (minus-some (length bytes) 5 header) ∙ rw done refl

-- What a unit leaves, in front of what the units behind it leave.
retained_cons :
    (nalu : Nalu) (nalus : List Nalu)
    → kept nalu ++ join (retained nalus) ≡ join (retained (nalu ∷ nalus))
unfolding keep
retained_cons nalu nalus = elim (Bool-cases (is_filler nalu)) [
  | inl filler ↦ rw (keep, filler) refl
  | inr other ↦ rw (keep, other) refl
]

compact_loop_lem :
    (fuel length_size : ℕ) (bytes : List ℕ) (read write : ℕ) (written : List ℕ) (nalus : List Nalu)
    → AllFramed length_size nalus
    → Halfway bytes read write written nalus
    → length nalus < fuel
    → compact_loop fuel bytes length_size read write ≡ some (written ++ join (retained nalus))
unfolding keep
compact_loop_lem zero length_size bytes read write written nalus frames half h =
    absurd (omega (arith, h))
compact_loop_lem (suc fuel) length_size bytes read write written [] frames half h =
    loop_done fuel bytes length_size read write (ground (arith, whole, half.meets))
      (ground (arith, whole, half.meets))
    ∙ ap some (
        ap (take write) half.splits
        ∙ take-append written (half.gap ++ []) write half.size
        ∙ sym (append-nil written))
  where
    whole : length bytes ≡ length written + length half.gap
    whole = omega (
      arith,
      ap length half.splits,
      length-append written (half.gap ++ []),
      length-append half.gap [],
    )
compact_loop_lem (suc fuel) length_size bytes read write written (nalu ∷ nalus) (frame, frames) half
      h =
    let (header, more, found) =
      Halfway-span length_size bytes read write written nalu nalus frame half in
    let (next, compacted, further) =
      compact_nalu_step length_size bytes read write written nalu nalus frame half in
    loop_next fuel bytes length_size read write _ next header more found compacted
    ∙ compact_loop_lem fuel length_size _ _ _ (written ++ kept nalu) nalus frames further
        (omega (arith, h))
    ∙ ap some (
        append_assoc written (kept nalu) (join (retained nalus))
        ∙ ap (λ t. written ++ t) (retained_cons nalu nalus))

pub compact_lem :
    (length_size : ℕ) (header : List ℕ) (nalus : List Nalu)
    → AllFramed length_size nalus
    → length header ≡ 5
    → compact_non_filler_nalus (header ++ join nalus) length_size
      ≡ some (header ++ join (retained nalus))
unfolding compact_non_filler_nalus
compact_lem length_size header nalus frames size =
    compact_loop_lem (suc (length (header ++ join nalus))) length_size (header ++ join nalus) 0 5
      header nalus frames
      (record {
        gap = [];
        splits = refl;
        size = size;
        header = omega arith;
        meets = omega (arith, size);
      })
      (omega (arith, length-join length_size nalus frames, length-append header (join nalus)))

-- Where nothing is a filler, every unit stays.
pub retained_all : (nalus : List Nalu) → count_where is_filler nalus ≡ 0 → retained nalus ≡ nalus
unfolding keep count_where
retained_all [] e = refl
retained_all (nalu ∷ nalus) e = elim (Bool-cases (is_filler nalu)) [
  | inl filler ↦ absurd (omega (arith, rw filler at e))
  | inr other ↦ rw other (ap (λ t. nalu ∷ t) (retained_all nalus (rw other at e)))
]
