-- ===== src/Store/Sorted.antt =====
-- The table of segments in the order of its keys, and the scan of src/state/store.rs
-- (`decode_segments`) over it.
use bilive_rec.Prelude.{
  ℕ, ◌≡◌, ◌≢◌, ap, true, false, some, List, [], ◌∷◌, All, arith, ltb, inl, inr, Bool-cases, subst,
  some_inj, ◌≤◌,
}
use bilive_rec.Model.Segment.{Segment}
use bilive_rec.Store.Table.{Table, get, put, values, Each}
use bilive_rec.Store.Keys.{SegmentKey, segment_key, pair_lt, pair_eq, pair_eq_iff}
use bilive_rec.Store.Range.{take_prefix, range_scan}

abbrev pub Segments : Type 0
Segments = Table SegmentKey Segment

abbrev pub Above : SegmentKey → Segments → Type 0
Above k [] = Unit
Above k ((j, s) ∷ m) = (pair_lt k j ≡ true) × Above k m

-- The keys increase.
abbrev pub IsSorted : Segments → Type 0
IsSorted [] = Unit
IsSorted ((k, s) ∷ m) = Above k m × IsSorted m

-- Each segment is stored under its own identifier and index.
abbrev pub Fits : SegmentKey → Segment → Type 0
Fits k s = (s.session_id ≡ k.0) × (s.index ≡ k.1)

pair_lt_trans : (a b c : SegmentKey) → pair_lt a b ≡ true → pair_lt b c ≡ true → pair_lt a c ≡ true
pair_lt_trans a b c p q = ground arith

Above-trans : (a b : SegmentKey) (m : Segments) → pair_lt a b ≡ true → Above b m → Above a m
Above-trans a b [] p h = tt
Above-trans a b ((j, s) ∷ m) p h = (pair_lt_trans a b j p h.0, Above-trans a b m p h.1)

Above-put :
    (a k : SegmentKey) (s : Segment) (m : Segments)
    → pair_lt a k ≡ true
    → Above a m
    → Above a (put k s m)
unfolding put
Above-put a k s [] p h = (p, tt)
Above-put a k s ((j, t) ∷ m) p h = ground (arith, Above-put a k s m)

not_below : (j k : SegmentKey) → pair_eq j k ≡ false → pair_lt k j ≡ false → pair_lt j k ≡ true
not_below j k p q = ground arith

pub put-IsSorted : (k : SegmentKey) (s : Segment) (m : Segments) → IsSorted m → IsSorted (put k s m)
unfolding put
put-IsSorted k s [] h = (tt, tt)
put-IsSorted k s ((j, t) ∷ m) h = elim (Bool-cases (pair_eq j k)) [
  | inl same ↦ rw same (subst (λ a. Above a m) ((pair_eq_iff j k).0 same) h.0, h.1)
  | inr other ↦ elim (Bool-cases (pair_lt k j)) [
    | inl below ↦ rw (other, below) ((below, Above-trans k j m below h.0), h)
    | inr above ↦
        rw (other, above)
          (Above-put j k s m (not_below j k other above) h.0, put-IsSorted k s m h.1)
  ]
]

-- A key below all keys of a table is not in it.
get-Above :
    (k j : SegmentKey) (m : Segments) {s : Segment}
    → Above k m
    → get m j ≡ some s
    → pair_lt k j ≡ true
unfolding get
get-Above k j [] h g = cc
get-Above k j ((i, t) ∷ m) h g = elim (Bool-cases (pair_eq i j)) [
  | inl same ↦ subst (λ a. pair_lt k a ≡ true) ((pair_eq_iff i j).0 same) h.0
  | inr other ↦ get-Above k j m h.1 (rw other at g)
]

-- What the values of a part of the table say of the whole.
abbrev pub Stored : Segments → Segment → Type 0
Stored m s = get m (s.session_id, s.index) ≡ some s

cons-Stored :
    (k : SegmentKey) (t : Segment) (m : Segments) (s : Segment)
    → Above k m
    → Stored m s
    → Stored ((k, t) ∷ m) s
unfolding get
cons-Stored k t m s above h = ground (arith, get-Above k (s.session_id, s.index) m above h)

cons-All-Stored :
    (k : SegmentKey) (t : Segment) (m : Segments) (xs : List Segment)
    → Above k m
    → All (Stored m) xs
    → All (Stored ((k, t) ∷ m)) xs
cons-All-Stored k t m [] above h = tt
cons-All-Stored k t m (x ∷ xs) above h =
    (cons-Stored k t m x above h.0, cons-All-Stored k t m xs above h.1)

head-Stored : (k : SegmentKey) (t : Segment) (m : Segments) → Fits k t → Stored ((k, t) ∷ m) t
unfolding get
head-Stored k t m h = ground arith

-- Every segment that a whole scan of the table lists is the one stored under its key.
pub values-Stored : (m : Segments) → IsSorted m → Each Fits m → All (Stored m) (values m)
values-Stored [] h f = tt
values-Stored ((k, t) ∷ m) h f =
    (head-Stored k t m f.0, cons-All-Stored k t m (values m) h.0 (values-Stored m h.1 f.1))

-- The keys of a list of segments differ.
abbrev pub key_of : Segment → SegmentKey
key_of s = (s.session_id, s.index)

abbrev pub AreApart : List Segment → Type 0
AreApart [] = Unit
AreApart (s ∷ xs) = All (λ t. key_of s ≢ key_of t) xs × AreApart xs

apart-of-Above :
    (k : SegmentKey) (t : Segment) (m : Segments)
    → Fits k t
    → Above k m
    → Each Fits m
    → All (λ u. key_of t ≢ key_of u) (values m)
apart-of-Above k t [] f above fits = tt
apart-of-Above k t ((j, u) ∷ m) f above fits = (
  λ e. ground (arith, ap (λ (a : SegmentKey). a.0) e, ap (λ (a : SegmentKey). a.1) e),
  apart-of-Above k t m f above.1 fits.1,
)

pub values-AreApart : (m : Segments) → IsSorted m → Each Fits m → AreApart (values m)
values-AreApart [] h f = tt
values-AreApart ((k, t) ∷ m) h f = (apart-of-Above k t m f.0 h.0 f.1, values-AreApart m h.1 f.1)

-- The scan of a session lists segments of the whole scan, in the same order.
All-take_prefix :
    (P : Segment → Type 0) (session_id : ℕ) (m : Segments)
    → All P (values m)
    → All P (take_prefix session_id m)
unfolding take_prefix
All-take_prefix P session_id [] h = tt
All-take_prefix P session_id (((s, i), t) ∷ m) h =
    ground (arith, All-take_prefix P session_id m h.1)

pub All-range_scan :
    (P : Segment → Type 0) (session_id : ℕ) (m : Segments)
    → All P (values m)
    → All P (range_scan session_id m)
unfolding range_scan
All-range_scan P session_id [] h = tt
All-range_scan P session_id (((s, i), t) ∷ m) h =
    ground
      (arith, All-range_scan P session_id m h.1, All-take_prefix P session_id (((s, i), t) ∷ m) h)

AreApart-take_prefix :
    (session_id : ℕ) (m : Segments) → AreApart (values m) → AreApart (take_prefix session_id m)
unfolding take_prefix
AreApart-take_prefix session_id [] h = tt
AreApart-take_prefix session_id (((s, i), t) ∷ m) h = ground (
  arith,
  AreApart-take_prefix session_id m h.1,
  All-take_prefix (λ u. key_of t ≢ key_of u) session_id m h.0,
)

pub AreApart-range_scan :
    (session_id : ℕ) (m : Segments) → AreApart (values m) → AreApart (range_scan session_id m)
unfolding range_scan
AreApart-range_scan session_id [] h = tt
AreApart-range_scan session_id (((s, i), t) ∷ m) h = ground (
  arith,
  AreApart-range_scan session_id m h.1,
  AreApart-take_prefix session_id (((s, i), t) ∷ m) h,
)

-- The scan of a session lists only segments of the session, ...
take_prefix-session :
    (session_id : ℕ) (m : Segments)
    → Each Fits m
    → All (λ s. s.session_id ≡ session_id) (take_prefix session_id m)
unfolding take_prefix
take_prefix-session session_id [] f = tt
take_prefix-session session_id (((s, i), t) ∷ m) f =
    ground (arith, take_prefix-session session_id m f.1)

pub range_scan-session :
    (session_id : ℕ) (m : Segments)
    → Each Fits m
    → All (λ s. s.session_id ≡ session_id) (range_scan session_id m)
unfolding range_scan
range_scan-session session_id [] f = tt
range_scan-session session_id (((s, i), t) ∷ m) f =
    ground (
      arith,
      range_scan-session session_id m f.1,
      take_prefix-session session_id (((s, i), t) ∷ m) f,
    )

abbrev From : ℕ → Segments → Type 0
From session_id [] = Unit
From session_id ((k, u) ∷ m) = (session_id ≤ k.0) × From session_id m

From-of-Above :
    (session_id : ℕ) (k : SegmentKey) (m : Segments)
    → session_id ≤ k.0
    → Above k m
    → From session_id m
From-of-Above session_id k [] le above = tt
From-of-Above session_id k ((j, u) ∷ m) le above =
    (first_le k j le above.0, From-of-Above session_id k m le above.1)
  where
    first_le : (k j : SegmentKey) → session_id ≤ k.0 → pair_lt k j ≡ true → session_id ≤ j.0
    first_le k j le lt = ground arith

-- ... and all of them: what holds of the listed ones holds of every stored one.
All-take_prefix-get :
    (P : Segment → Type 0) (session_id i : ℕ) (m : Segments) (s : Segment)
    → IsSorted m
    → From session_id m
    → All P (take_prefix session_id m)
    → get m (session_id, i) ≡ some s
    → P s
unfolding take_prefix get
All-take_prefix-get P session_id i [] s h from a g = cc
All-take_prefix-get P session_id i ((k, u) ∷ m) s h from a g =
    elim (Bool-cases (pair_eq k (session_id, i))) [
      | inl same ↦ subst P (some_inj (rw same at g)) (head_of same a)
      | inr other ↦
          All-take_prefix-get P session_id i m s h.1 from.1
            (tail_of other (get-Above k (session_id, i) m h.0 (rw other at g)) a) (rw other at g)
    ]
  where
    head_of : pair_eq k (session_id, i) ≡ true → All P (take_prefix session_id ((k, u) ∷ m)) → P u
    head_of same a = ground arith

    tail_of :
        pair_eq k (session_id, i) ≡ false
        → pair_lt k (session_id, i) ≡ true
        → All P (take_prefix session_id ((k, u) ∷ m))
        → All P (take_prefix session_id m)
    tail_of other below a = ground arith

pub All-range_scan-get :
    (P : Segment → Type 0) (session_id i : ℕ) (m : Segments) (s : Segment)
    → IsSorted m
    → All P (range_scan session_id m)
    → get m (session_id, i) ≡ some s
    → P s
unfolding range_scan get
All-range_scan-get P session_id i [] s h a g = cc
All-range_scan-get P session_id i ((k, u) ∷ m) s h a g = elim (Bool-cases (ltb k.0 session_id)) [
  | inl below ↦ All-range_scan-get P session_id i m s h.1 (rw below at a) (skip below g)
  | inr above ↦
      All-take_prefix-get P session_id i ((k, u) ∷ m) s h
        (reach above, From-of-Above session_id k m (reach above) h.0) (rw above at a) g
]
  where
    reach : ltb k.0 session_id ≡ false → session_id ≤ k.0
    reach above = ground arith

    skip :
        ltb k.0 session_id ≡ true
        → get ((k, u) ∷ m) (session_id, i) ≡ some s
        → get m (session_id, i) ≡ some s
    skip below g = ground arith
