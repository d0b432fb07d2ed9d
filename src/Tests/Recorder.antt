-- ===== src/Tests/Recorder.antt =====
-- The paths of one segment.
use bilive_rec.Prelude.{◌≡◌, refl, true, false, some, none, [], ◌∷◌, path_eq, decimal}
use bilive_rec.Recorder.Policy.{
  SegmentLayout, four_digits, part_path, final_path, should_rotate_by_size, part_path-ne-final_path,
}

abbrev layout : SegmentLayout
layout = record { output_dir = record { is_absolute = true; components = "tmp" ∷ [] } }

part_path-ne-final_path_example :
    path_eq
      (part_path (λ id. "550e8400e29b41d4a716446655440000") layout 1 42)
      (final_path (λ id. "550e8400e29b41d4a716446655440000") layout 1 42)
    ≡ false
part_path-ne-final_path_example =
    part_path-ne-final_path (λ id. "550e8400e29b41d4a716446655440000") layout 1 42

names_the_file :
    (part_path (λ id. "550e8400e29b41d4a716446655440000") layout 1 42).components
    ≡ "tmp" ∷ "550e8400e29b41d4a716446655440000-0042.part" ∷ []
unfolding part_path four_digits decimal
names_the_file = refl

rotates :
    should_rotate_by_size 1024 (record { segment_time = none; segment_size = some 1024 }) ≡ true
unfolding should_rotate_by_size
rotates = refl
