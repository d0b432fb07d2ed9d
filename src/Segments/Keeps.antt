-- ===== src/Segments/Keeps.antt =====
-- A property that every step of a sound segment keeps is kept by every change of the table.
use bilive_rec.Prelude.{
  ◌≡◌, ◌∙◌, sym, subst, none, some, some_inj, inl, inr, Bool-cases, arith, ap, ◌≢◌,
}
use bilive_rec.Model.Segment.{Segment}
use bilive_rec.Store.Table.{Each, Each-get, get, put, get-put_self, get-put_ne}
use bilive_rec.Store.Keys.{SegmentKey, segment_key, pair_eq, pair_eq_iff}
use bilive_rec.Store.Sorted.{Fits}
use bilive_rec.Segments.Step.{Segments, Actor, SegmentStep, Evolves, here, step, opened, key_of}
use bilive_rec.Segments.Keys.{key_of-step, Evolves-Fits}
use bilive_rec.Segments.Sound.{IsSound}
use bilive_rec.Segments.SoundSteps.{Evolves-IsSound}

-- Under `k`, the table has a segment of which `P` holds.
abbrev pub Has : (Segment → Type 0) → Segments → SegmentKey → Type 0
Has P m k = (s : Segment) × (get m k ≡ some s) × P s

module _ (P : Segment → Type 0) where
  Has-put_same : (m : Segments) (j k : SegmentKey) (s : Segment) → j ≡ k → P s → Has P (put j s m) k
  Has-put_same m j k s e p = (s, subst (λ i. get (put j s m) i ≡ some s) e (get-put_self j s m), p)

  Has-put_other :
      (m : Segments) (j k : SegmentKey) (s : Segment) → j ≢ k → Has P m k → Has P (put j s m) k
  Has-put_other m j k s ne (t, found, p) = (t, get-put_ne j s m k ne ∙ found, p)

  module _ {a : Actor}
      (keeps : (s s' : Segment) → IsSound s → SegmentStep a s s' → P s → P s') where
    pub Evolves-keeps :
        {m n : Segments} (k : SegmentKey)
        → Evolves a m n
        → Each Fits m
        → Each (λ k s. IsSound s) m
        → Has P m k
        → Has P n k
    Evolves-keeps k here fits sound h = h
    Evolves-keeps k (step {n = n} j {s = s} {s' = s'} ev found st) fits sound h =
        let (t, at, p) = Evolves-keeps k ev fits sound h in
        let fit = Each-get Fits j n (Evolves-Fits ev fits) found in
        let own : key_of s' ≡ j = key_of-step s s' st ∙ (λ i. (fit.0 i, fit.1 i)) in
        elim (Bool-cases (pair_eq (key_of s') k)) [
          | inl same ↦
              let e = (pair_eq_iff (key_of s') k).0 same in
              let t_is_s : t ≡ s = some_inj (sym at ∙ ap (get n) (sym e ∙ own) ∙ found) in
              Has-put_same n (key_of s') k s' e
                (keeps s s' (Each-get _ j n (Evolves-IsSound ev sound) found) st (subst P t_is_s p))
          | inr other ↦
              Has-put_other n (key_of s') k s'
                (λ e. absurd (ground (arith, (pair_eq_iff (key_of s') k).1 e))) (t, at, p)
        ]
    Evolves-keeps k (opened {n = n} {s = s} ev absent new) fits sound h =
        let (t, at, p) = Evolves-keeps k ev fits sound h in
        elim (Bool-cases (pair_eq (key_of s) k)) [
          | inl same ↦
              let e = (pair_eq_iff (key_of s) k).0 same in
              let clash : none ≡ some t = sym absent ∙ ap (get n) e ∙ at in
              absurd (ground (arith, clash))
          | inr other ↦
              Has-put_other n (key_of s) k s
                (λ e. absurd (ground (arith, (pair_eq_iff (key_of s) k).1 e))) (t, at, p)
        ]
