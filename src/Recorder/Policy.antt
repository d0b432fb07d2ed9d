-- ===== src/Recorder/Policy.antt =====
-- src/recorder/segment.rs: the paths of a segment, and the tests of rotation and of its size.
use text.Mathlib.TextLemmas.{append_cancel_left}
use bilive_rec.Prelude.{
  ℕ, String, Bool, false, Option, List, [], ◌∷◌, ◌++◌, ◌≡◌, refl, leb, ltb, codes, length, decimal,
  ◌<>◌, FilePath, path_eq, names_eq, str_eq, if◌then◌else◌, is_some_and, Bool-cases, inl, inr,
  eq_iff,
}
use bilive_rec.Model.{Uuid}
use bilive_rec.Model.Segment.{SegmentCloseReason}

pub record SegmentLayout : Type 0 where
  pub output_dir : FilePath

-- A Duration is its length in nanoseconds.
pub record SegmentPolicy : Type 0 where
  pub segment_time : Option ℕ
  pub segment_size : Option ℕ

pub record SegmentFilter : Type 0 where
  pub min_segment_size : ℕ

pub record RecorderPolicy : Type 0 where
  pub layout : SegmentLayout
  pub segment : SegmentPolicy
  pub filter : SegmentFilter

pub data SegmentEvent : Type 0 where
  started : (session_id : Uuid) (index : ℕ) (part_path : FilePath) → SegmentEvent
  finalized filtered :
      (session_id : Uuid) (index : ℕ) (path : FilePath) (size : ℕ)
      (close_reason : SegmentCloseReason)
      → SegmentEvent

-- {:04}
abbrev pad_zeros : ℕ → String
pad_zeros n = if leb 4 n then "" else if leb 3 n then "0" else if leb 2 n then "00" else "000"

unfoldable pub four_digits : ℕ → String
unfolding decimal
four_digits index = let text = decimal index in pad_zeros (length (codes text)) <> text

-- Path::join with a relative name.
abbrev pub join : FilePath → String → FilePath
join path name = record path { components = path.components ++ name ∷ [] }

-- `simple` is Uuid::simple, 32 hexadecimal digits.
module _ (simple : Uuid → String) where
  abbrev stem : Uuid → ℕ → String
  unfolding four_digits
  stem session_id index = simple session_id <> "-" <> four_digits index

  unfoldable pub part_path : SegmentLayout → Uuid → ℕ → FilePath
  unfolding stem
  part_path layout session_id index = join layout.output_dir (stem session_id index <> ".part")

  unfoldable pub final_path : SegmentLayout → Uuid → ℕ → FilePath
  unfolding stem
  final_path layout session_id index = join layout.output_dir (stem session_id index <> ".flv")

unfoldable pub should_rotate_by_size : ℕ → SegmentPolicy → Bool
should_rotate_by_size current_size policy =
    is_some_and policy.segment_size (λ max_size. leb max_size current_size)

unfoldable pub should_rotate_by_elapsed : ℕ → SegmentPolicy → Bool
should_rotate_by_elapsed elapsed policy =
    is_some_and policy.segment_time (λ max_time. leb max_time elapsed)

unfoldable pub should_filter_by_size : ℕ → SegmentFilter → Bool
should_filter_by_size final_size filter = ltb final_size filter.min_segment_size

differ : (stem : String) → str_eq (stem <> ".part") (stem <> ".flv") ≡ false
differ stem = elim (Bool-cases (str_eq (stem <> ".part") (stem <> ".flv"))) [
  | inl same ↦
      let clash = (eq_iff ".part" ".flv").1 (append_cancel_left stem _ _ ((eq_iff _ _).0 same)) in
      cc
  | inr apart ↦ apart
]

last_differs :
    (names : List String) (x y : String)
    → str_eq x y ≡ false
    → names_eq (names ++ x ∷ []) (names ++ y ∷ []) ≡ false
last_differs [] x y h = rw h refl
last_differs (n ∷ names) x y h = elim (Bool-cases (str_eq n n)) [
  | inl same ↦ rw same (last_differs names x y h)
  | inr apart ↦ rw apart refl
]

join_differs :
    (path : FilePath) (x y : String)
    → str_eq x y ≡ false
    → path_eq (join path x) (join path y) ≡ false
unfolding path_eq
join_differs path x y h = elim (Bool-cases path.is_absolute) [
  | inl absolute ↦ rw absolute (last_differs path.components x y h)
  | inr relative ↦ rw relative (last_differs path.components x y h)
]

-- Whatever the directory, the session and the index are, and however the identifier is printed, the
-- part file and the final file of a segment are not at one path.
pub part_path-ne-final_path :
    (simple : Uuid → String) (layout : SegmentLayout) (session_id : Uuid) (index : ℕ)
    → path_eq (part_path simple layout session_id index) (final_path simple layout session_id index)
      ≡ false
unfolding part_path final_path
part_path-ne-final_path simple layout session_id index =
    join_differs layout.output_dir _ _ (differ (stem simple session_id index))
