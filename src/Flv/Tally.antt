-- ===== src/Flv/Tally.antt =====
-- What the closure of `remove_avc_filler_nalus` has counted after a walk over units.
use bilive_rec.Prelude.{
  ℕ, ◌+◌, ◌≡◌, refl, ◌∙◌, Bool, not, ◌||◌, inl, inr, List, [], ◌∷◌, length, any, count_where, ◌==◌,
  if◌then◌else◌, arith, Bool-cases,
}
use bilive_rec.Flv.Framed.{Nalu, type_of, span_of}
use bilive_rec.Flv.Filler.{AvcFillerRemoval, AvcNaluInspection, visit_nalu}
use bilive_rec.Flv.Scan.{folded}

abbrev pub is_filler : Nalu → Bool
is_filler nalu = type_of nalu == 12

abbrev pub is_sps : Nalu → Bool
is_sps nalu = type_of nalu == 7

abbrev pub is_pps : Nalu → Bool
is_pps nalu = type_of nalu == 8

-- The bytes of the filler units, each with `extra` bytes more.
pub filler_bytes : ℕ → List Nalu → ℕ
filler_bytes extra [] = 0
filler_bytes extra (nalu ∷ nalus) =
    let rest = filler_bytes extra nalus in
    if is_filler nalu then extra + length nalu.body + rest else rest

-- The counts of the closure, each on its own, on top of `s`.
unfoldable pub tally : ℕ → AvcFillerRemoval → List Nalu → AvcFillerRemoval
unfolding any count_where filler_bytes
tally length_size s nalus = record {
  inspection = record {
    has_sps = any is_sps nalus || s.inspection.has_sps;
    has_pps = any is_pps nalus || s.inspection.has_pps;
  };
  retained_nalus = s.retained_nalus + count_where (λ n. not (is_filler n)) nalus;
  removed_filler_nalus = s.removed_filler_nalus + count_where is_filler nalus;
  removed_filler_payload_bytes = s.removed_filler_payload_bytes + filler_bytes 0 nalus;
  removed_filler_total_bytes = s.removed_filler_total_bytes + filler_bytes length_size nalus;
}

removal_ext :
    {a a' : AvcNaluInspection} {b c d e b' c' d' e' : ℕ}
    → a ≡ a'
    → b ≡ b'
    → c ≡ c'
    → d ≡ d'
    → e ≡ e'
    → ◌≡◌ {A = AvcFillerRemoval}
        (record {
          inspection = a;
          retained_nalus = b;
          removed_filler_nalus = c;
          removed_filler_payload_bytes = d;
          removed_filler_total_bytes = e;
        })
        (record {
          inspection = a';
          retained_nalus = b';
          removed_filler_nalus = c';
          removed_filler_payload_bytes = d';
          removed_filler_total_bytes = e';
        })
removal_ext p q r t u = rw (p, q, r, t, u) refl

inspection_ext :
    {a b a' b' : Bool}
    → a ≡ a'
    → b ≡ b'
    → ◌≡◌ {A = AvcNaluInspection}
        (record { has_sps = a; has_pps = b })
        (record { has_sps = a'; has_pps = b' })
inspection_ext p q = rw (p, q) refl

pub tally_step :
    (length_size offset : ℕ) (s : AvcFillerRemoval) (nalu : Nalu) (nalus : List Nalu)
    → tally length_size (visit_nalu length_size (span_of offset length_size nalu) s) nalus
      ≡ tally length_size s (nalu ∷ nalus)
unfolding tally visit_nalu
tally_step length_size offset s nalu nalus = elim (Bool-cases (is_filler nalu)) [
  | inl filler ↦
      removal_ext (inspection_ext (ground (arith, filler)) (ground (arith, filler)))
        (ground (arith, filler)) (ground (arith, filler)) (ground (arith, filler))
        (ground (arith, filler))
  | inr other ↦
      removal_ext (inspection_ext (ground (arith, other)) (ground (arith, other)))
        (ground (arith, other)) (ground (arith, other)) (ground (arith, other))
        (ground (arith, other))
]

pub folded-visit_nalu :
    (length_size offset : ℕ) (nalus : List Nalu) (s : AvcFillerRemoval)
    → folded (visit_nalu length_size) length_size offset nalus s ≡ tally length_size s nalus
unfolding folded
folded-visit_nalu length_size offset [] s =
    unfold tally in removal_ext refl (omega arith) (omega arith) (omega arith) (omega arith)
folded-visit_nalu length_size offset (nalu ∷ nalus) s =
    folded-visit_nalu length_size (offset + length_size + length nalu.body) nalus _
    ∙ tally_step length_size offset s nalu nalus
