-- ===== src/Store/Scan.antt =====
-- src/state/store.rs, `StoreTxn::list_segments`: the scan by prefix against a lookup of each key.
use bilive_rec.Prelude.{
  ℕ, ◌≡◌, refl, sym, ◌∙◌, ap, subst, List, [], ◌∷◌, All, ◌⊎◌, inl, inr, ◌↔◌, some,
}
use bilive_rec.Model.Segment.{Segment}
use bilive_rec.Store.Table.{get, Each}
use bilive_rec.Store.Keys.{segment_key}
use bilive_rec.Store.Range.{range_scan}
use bilive_rec.Store.Sorted.{
  Segments, IsSorted, Fits, Stored, values-Stored, All-range_scan, All-range_scan-get,
  range_scan-session,
}

abbrev pub Lists : Segment → List Segment → Type 0
Lists s [] = ⊥
Lists s (t ∷ ts) = (t ≡ s) ⊎ Lists s ts

All-self :
    (P : Segment → Type 0) (ts : List Segment) → ((t : Segment) → Lists t ts → P t) → All P ts
All-self P [] h = tt
All-self P (t ∷ ts) h = (h t (inl refl), All-self P ts (λ u m. h u (inr m)))

All-Lists : (P : Segment → Type 0) (s : Segment) (ts : List Segment) → All P ts → Lists s ts → P s
All-Lists P s [] a l = absurd l
All-Lists P s (t ∷ ts) a (inl e) = subst P e a.0
All-Lists P s (t ∷ ts) a (inr l) = All-Lists P s ts a.1 l

pub range_scan-get :
    (session_id : ℕ) (m : Segments) (s : Segment)
    → IsSorted m
    → Each Fits m
    → Lists s (range_scan session_id m) ↔ ((i : ℕ) × (get m (session_id, i) ≡ some s))
range_scan-get session_id m s sorted fits = (
  λ l.
      let stored = All-range_scan (Stored m) session_id m (values-Stored m sorted fits) in
      let own = All-Lists _ s _ (range_scan-session session_id m fits) l in
      (s.index, ap (λ j. get m (j, s.index)) (sym own) ∙ All-Lists _ s _ stored l),
  λ (i, found).
      All-range_scan-get (λ t. Lists t (range_scan session_id m)) session_id i m s sorted
        (All-self _ _ (λ t l. l)) found,
)
