-- ===== src/Flv/Scan.antt =====
-- The walk of recorder/flv.rs over the units of a payload ends, at an error or at the end of units.
use Prim.Native.Nat.{zero, suc}
use native.Mathlib.Nat.{add_assoc}
use bilive_rec.Prelude.{
  ℕ, ◌+◌, ◌-◌, ◌<◌, ◌≤◌, ◌≡◌, refl, sym, ap, ◌∙◌, subst, true, false, ◌⊎◌, inl, inr, Option, some,
  List, [], ◌∷◌, ◌++◌, length, length-append, ltb, arith, Bool-cases,
}
use bilive_rec.Prelude.Outcome.{Outcome, ok, err, Outcome-cases}
use bilive_rec.Prelude.Bytes.{drop, drop_all, drop-drop, drop-append, length-drop}
use bilive_rec.Flv.Avc.{AvcPayloadError}
use bilive_rec.Flv.Nalus.{NaluSpan, read_nalu_span, visit_loop}
use bilive_rec.Flv.InRange.{spanned, read_nalu_span-some}
use bilive_rec.Flv.Framed.{
  Nalu, AllFramed, join, framed, span_of, span_at, Found, span-Found, length-framed,
}

module _ {S : Type 0} (visit : NaluSpan → S → S) (length_size : ℕ) where
  -- The closure on the spans of the units, from the first on.
  unfoldable pub folded : ℕ → List Nalu → S → S
  folded offset [] s = s
  folded offset (nalu ∷ nalus) s =
      folded (offset + length_size + length nalu.body) nalus
        (visit (span_of offset length_size nalu) s)

  abbrev pub Walked : List ℕ → ℕ → S → Option (Outcome AvcPayloadError S) → Type 0
  Walked payload offset s r =
      ((e : AvcPayloadError) × (r ≡ some (err e)))
      ⊎ ((nalus : List Nalu) × AllFramed length_size nalus
          × (drop offset payload ≡ join nalus)
          × (r ≡ some (ok (folded offset nalus s))))

  -- A unit in front of the units that the rest of the walk found.
  walk_step :
      (payload : List ℕ) (offset : ℕ) (s : S) (span : NaluSpan)
      (r : Option (Outcome AvcPayloadError S))
      → Found length_size payload offset span
      → Walked payload (span.payload_offset + span.payload_len) (visit span s) r
      → Walked payload offset s r
  unfolding folded
  walk_step payload offset s span r found (inl failed) = inl failed
  walk_step payload offset s span r found (inr (nalus, frames, e, done)) = inr (
    found.nalu ∷ nalus,
    (found.frame, frames),
    found.splits ∙ ap (λ t. framed found.nalu ++ t) e,
    done
        ∙ ap
            (λ (n : NaluSpan).
              some (ok (folded (n.payload_offset + n.payload_len) nalus (visit n s))))
            (sym found.is_span),
  )

  span_cases :
      (payload : List ℕ) (offset : ℕ)
      → ((span : NaluSpan) × (read_nalu_span payload length_size offset ≡ some (ok span)))
        ⊎ ((e : AvcPayloadError) × (read_nalu_span payload length_size offset ≡ some (err e)))
  span_cases payload offset =
      let there = read_nalu_span-some payload length_size offset in
      elim (Outcome-cases (spanned payload length_size offset)) [
        | inl (span, e) ↦ inl (span, there ∙ ap some e)
        | inr (e, failed) ↦ inr (e, there ∙ ap some failed)
      ]

  -- The three ways that a round goes.
  round_done :
      (fuel : ℕ) (payload : List ℕ) (offset : ℕ) (s : S)
      → ltb offset (length payload) ≡ false
      → visit_loop visit (suc fuel) payload length_size offset s ≡ some (ok s)
  unfolding visit_loop
  round_done fuel payload offset s done = rw (visit_loop, done) refl

  round_failed :
      (fuel : ℕ) (payload : List ℕ) (offset : ℕ) (s : S) (e : AvcPayloadError)
      → ltb offset (length payload) ≡ true
      → read_nalu_span payload length_size offset ≡ some (err e)
      → visit_loop visit (suc fuel) payload length_size offset s ≡ some (err e)
  unfolding visit_loop
  round_failed fuel payload offset s e more failed = rw (visit_loop, more, failed) refl

  pub round_next :
      (fuel : ℕ) (payload : List ℕ) (offset : ℕ) (s : S) (span : NaluSpan)
      → ltb offset (length payload) ≡ true
      → read_nalu_span payload length_size offset ≡ some (ok span)
      → visit_loop visit (suc fuel) payload length_size offset s
        ≡ visit_loop visit fuel payload length_size
            (span.payload_offset + span.payload_len)
            (visit span s)
  unfolding visit_loop
  round_next fuel payload offset s span more read = rw (visit_loop, more, read) refl

  -- The walk fails at a unit, or the data is made of framed units and all have been visited.
  pub visit_loop_walks :
      (fuel : ℕ) (payload : List ℕ) (offset : ℕ) (s : S)
      → offset ≤ length payload
      → length payload - offset < fuel
      → Walked payload offset s (visit_loop visit fuel payload length_size offset s)
  unfolding folded
  visit_loop_walks zero payload offset s inside h = absurd (omega (arith, h))
  visit_loop_walks (suc fuel) payload offset s inside h =
      elim (Bool-cases (ltb offset (length payload))) [
        | inl more ↦ elim (span_cases payload offset) [
          | inl (span, e) ↦
              let found = span-Found length_size payload offset span e in
              subst (Walked payload offset s) (sym (round_next fuel payload offset s span more e)) (
                walk_step payload offset s span _ found (
                  visit_loop_walks fuel payload (span.payload_offset + span.payload_len)
                    (visit span s) found.inside
                    (omega (arith, h, inside, found.moves, found.inside))))
          | inr (e, failed) ↦ inl (e, round_failed fuel payload offset s e more failed)
        ]
        | inr done ↦ inr (
          [],
          tt,
          drop_all payload offset (ground (arith, done)),
          round_done fuel payload offset s done,
        )
      ]

  -- Framed units are walked to their end.
  pub visit_loop-framed :
      (fuel : ℕ) (payload : List ℕ) (offset : ℕ) (s : S) (nalus : List Nalu)
      → AllFramed length_size nalus
      → offset ≤ length payload
      → drop offset payload ≡ join nalus
      → length nalus < fuel
      → visit_loop visit fuel payload length_size offset s ≡ some (ok (folded offset nalus s))
  unfolding folded
  visit_loop-framed zero payload offset s nalus frames inside e h = absurd (omega (arith, h))
  visit_loop-framed (suc fuel) payload offset s [] frames inside e h =
      round_done fuel payload offset s
        (ground (arith, length-drop payload offset, ap length e, inside))
  visit_loop-framed (suc fuel) payload offset s (nalu ∷ nalus) (frame, frames) inside e h =
      round_next fuel payload offset s (span_of offset length_size nalu)
        (ground (arith, whole, frame.filled))
        (span_at length_size payload (join nalus) offset nalu frame inside e)
      ∙ visit_loop-framed fuel payload _ _ nalus frames (omega (arith, whole)) behind
          (omega (arith, h))
    where
      whole : length payload ≡ offset + (length_size + length nalu.body + length (join nalus))
      whole = omega (
        arith,
        inside,
        length-drop payload offset,
        ap length e,
        length-append (framed nalu) (join nalus),
        length-framed length_size nalu frame,
      )

      behind : drop (offset + length_size + length nalu.body) payload ≡ join nalus
      behind =
          ap (λ n. drop n payload) (add_assoc offset length_size (length nalu.body))
          ∙ drop-drop payload offset (length_size + length nalu.body)
          ∙ ap (drop (length_size + length nalu.body)) e
          ∙ drop-append (framed nalu) (join nalus) (length_size + length nalu.body)
              (length-framed length_size nalu frame)
