-- ===== src/Flv/Compact.antt =====
-- Compaction in recorder/flv.rs: the bytes move to the front while the loop still reads behind them.
use mathlib.Core.List.{append_assoc, append-nil}
use bilive_rec.Prelude.{
  ℕ, ◌+◌, ◌-◌, ◌≤◌, ◌≡◌, refl, sym, ap, ◌∙◌, subst, true, false, not, inl, inr, Option, some, leb,
  List, [], ◌∷◌, ◌++◌, length, length-append, keep, ◌==◌, if◌then◌else◌, arith, Bool-cases, ==_iff,
}
use bilive_rec.Prelude.Bytes.{
  take, drop, take-append, drop-append, drop-append_left, drop-drop, length-drop,
}
use bilive_rec.Flv.Framed.{Nalu, IsFramed, framed, join, span_of, length-framed}
use bilive_rec.Flv.Filler.{copy_within, compact_nalu}
use bilive_rec.Flv.Tally.{is_filler}

-- The bytes of the units that stay, and their units.
abbrev pub kept : Nalu → List ℕ
kept nalu = if is_filler nalu then [] else framed nalu

abbrev pub retained : List Nalu → List Nalu
retained nalus = keep (λ n. not (is_filler n)) nalus

-- Between two rounds: what has been written, what lies between, and the units still to be read.
pub record Halfway (bytes : List ℕ) (read write : ℕ) (written : List ℕ) (nalus : List Nalu)
    : Type 0 where
  pub gap : List ℕ
  pub splits : bytes ≡ written ++ (gap ++ join nalus)
  pub size : length written ≡ write
  pub header : 5 ≤ write
  pub meets : length written + length gap ≡ 5 + read

-- copy_within over data whose parts are known: the unit moves in front of the gap.
copy_within_parts :
    (written gap unit rest : List ℕ) (src_start src_end write : ℕ)
    → length written ≡ write
    → length written + length gap ≡ src_start
    → src_start + length unit ≡ src_end
    → copy_within (written ++ (gap ++ (unit ++ rest))) src_start src_end write
      ≡ some ((written ++ unit) ++ (drop (length unit) (gap ++ unit) ++ rest))
unfolding copy_within
copy_within_parts written gap unit rest src_start src_end write w s e =
    rw (ordered, inside, short, room, size, front, moved, behind)
      (ap some (sym (append_assoc written unit (drop (length unit) (gap ++ unit) ++ rest))))
  where
    whole :
        length (written ++ (gap ++ (unit ++ rest)))
        ≡ length written + (length gap + (length unit + length rest))
    whole = omega (
      arith,
      length-append written (gap ++ (unit ++ rest)),
      length-append gap (unit ++ rest),
      length-append unit rest,
    )

    ordered : leb src_start src_end ≡ true
    ordered = ground (arith, e)

    inside : leb src_end (length (written ++ (gap ++ (unit ++ rest)))) ≡ true
    inside = ground (arith, e, s, whole)

    size : src_end - src_start ≡ length unit
    size = omega (arith, e)

    short : leb (src_end - src_start) (length (written ++ (gap ++ (unit ++ rest)))) ≡ true
    short = ground (arith, size, whole)

    room : leb write (length (written ++ (gap ++ (unit ++ rest))) - (src_end - src_start)) ≡ true
    room = ground (arith, size, whole, w)

    front : take write (written ++ (gap ++ (unit ++ rest))) ≡ written
    front = take-append written (gap ++ (unit ++ rest)) write w

    from : drop src_start (written ++ (gap ++ (unit ++ rest))) ≡ unit ++ rest
    from =
        ap (drop src_start) (sym (append_assoc written gap (unit ++ rest)))
        ∙ drop-append (written ++ gap) (unit ++ rest) src_start
            (omega (arith, s, length-append written gap))

    moved : take (length unit) (drop src_start (written ++ (gap ++ (unit ++ rest)))) ≡ unit
    moved = ap (take (length unit)) from ∙ take-append unit rest (length unit) refl

    behind :
        drop (write + length unit) (written ++ (gap ++ (unit ++ rest)))
        ≡ drop (length unit) (gap ++ unit) ++ rest
    behind =
        drop-drop (written ++ (gap ++ (unit ++ rest))) write (length unit)
        ∙ ap (drop (length unit)) (drop-append written (gap ++ (unit ++ rest)) write w)
        ∙ ap (drop (length unit)) (sym (append_assoc gap unit rest))
        ∙ drop-append_left (gap ++ unit) rest (length unit) (omega (arith, length-append gap unit))

no_gap : (gap : List ℕ) → length gap ≡ 0 → gap ≡ []
no_gap [] e = refl
no_gap (b ∷ gap) e = absurd (omega (arith, e))

module _ (length_size : ℕ) (bytes : List ℕ) (read write : ℕ) (written : List ℕ) (nalu : Nalu)
    (nalus : List Nalu) (frame : IsFramed length_size nalu)
    (half : Halfway bytes read write written (nalu ∷ nalus)) where
  abbrev after : ℕ
  after = read + length_size + length nalu.body

  -- The bytes that the unit takes are those between the loop's two offsets.
  span_size : 5 + after - (5 + read) ≡ length (framed nalu)
  span_size = omega (arith, length-framed length_size nalu frame)

  skip : Halfway bytes after write written nalus
  skip = record {
    gap = half.gap ++ framed nalu;
    splits =
        half.splits
        ∙ ap (λ t. written ++ t) (sym (append_assoc half.gap (framed nalu) (join nalus)));
    size = half.size;
    header = half.header;
    meets = omega (
      arith,
      half.meets,
      length-append half.gap (framed nalu),
      length-framed length_size nalu frame,
    );
  }

  stay :
      5 + read ≡ write
      → Halfway bytes after (write + (5 + after - (5 + read))) (written ++ framed nalu) nalus
  stay e =
      let empty = no_gap half.gap (omega (arith, e, half.meets, half.size)) in
      record {
        gap = [];
        splits =
            half.splits
            ∙ ap (λ t. written ++ (t ++ join (nalu ∷ nalus))) empty
            ∙ sym (append_assoc written (framed nalu) (join nalus));
        size = omega (arith, span_size, half.size, length-append written (framed nalu));
        header = omega (arith, half.header);
        meets = omega (
          arith,
          e,
          half.size,
          length-append written (framed nalu),
          length-framed length_size nalu frame,
        );
      }

  abbrev moved : List ℕ
  moved =
      (written ++ framed nalu)
      ++ (drop (length (framed nalu)) (half.gap ++ framed nalu) ++ join nalus)

  copied : copy_within bytes (5 + read) (5 + after) write ≡ some moved
  copied =
      ap (λ t. copy_within t (5 + read) (5 + after) write) half.splits
      ∙ copy_within_parts written half.gap (framed nalu) (join nalus) (5 + read) (5 + after) write
          half.size half.meets (omega (arith, length-framed length_size nalu frame))

  move : Halfway moved after (write + (5 + after - (5 + read))) (written ++ framed nalu) nalus
  move = record {
    gap = drop (length (framed nalu)) (half.gap ++ framed nalu);
    splits = refl;
    size = omega (arith, span_size, half.size, length-append written (framed nalu));
    header = omega (arith, half.header);
    meets = omega (
      arith,
      half.meets,
      length-append written (framed nalu),
      length-append half.gap (framed nalu),
      length-drop (half.gap ++ framed nalu) (length (framed nalu)),
      length-framed length_size nalu frame,
    );
  }

  -- A round does not panic, and leaves the loop at the next unit.
  abbrev Next : Option (List ℕ × ℕ) → List ℕ → Type 0
  Next r w = (p : List ℕ × ℕ) × (r ≡ some p) × Halfway p.0 after p.1 w nalus

  forward : leb (5 + read) (5 + after) ≡ true
  forward = ground arith

  abbrev round : Option (List ℕ × ℕ)
  round = compact_nalu bytes (span_of read length_size nalu) write

  round_skip : is_filler nalu ≡ true → Next round (written ++ kept nalu)
  unfolding compact_nalu
  round_skip filler =
      rw (compact_nalu, filler)
        (subst (Next (some (bytes, write))) (sym (append-nil written)) ((bytes, write), refl, skip))

  round_moves :
      is_filler nalu ≡ false → ((5 + read) == write) ≡ false → Next round (written ++ kept nalu)
  unfolding compact_nalu
  round_moves other apart = rw (compact_nalu, other, apart, copied, forward) (_, refl, move)

  round_stays :
      is_filler nalu ≡ false → ((5 + read) == write) ≡ true → Next round (written ++ kept nalu)
  unfolding compact_nalu
  round_stays other same =
      rw (compact_nalu, other, same, forward) (_, refl, stay ((==_iff _ _).0 same))

  pub compact_nalu_step : Next round (written ++ kept nalu)
  compact_nalu_step = elim (Bool-cases (is_filler nalu)) [
    | inl filler ↦ round_skip filler
    | inr other ↦ elim (Bool-cases ((5 + read) == write)) [
      | inl same ↦ round_stays other same
      | inr apart ↦ round_moves other apart
    ]
  ]
