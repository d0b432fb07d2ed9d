-- ===== src/Store/Range.antt =====
-- src/state/store.rs, `decode_segments`: the scan of one session's segments in key order, from the
-- first key with the session's prefix up to the first one without it.
use bilive_rec.Prelude.{ℕ, List, [], ◌∷◌, ltb, ◌==◌, if◌then◌else◌}
use bilive_rec.Model.Segment.{Segment}
use bilive_rec.Store.Table.{Table}
use bilive_rec.Store.Keys.{SegmentKey}

-- The loop, with its `break`.
unfoldable pub take_prefix : ℕ → Table SegmentKey Segment → List Segment
take_prefix session_id [] = []
take_prefix session_id (((s, i), segment) ∷ m) =
    if s == session_id then segment ∷ take_prefix session_id m else []

-- `table.range(prefix..)` begins at the first key that is not below the prefix.
unfoldable pub range_scan : ℕ → Table SegmentKey Segment → List Segment
range_scan session_id [] = []
range_scan session_id (((s, i), segment) ∷ m) =
    let rest = range_scan session_id m in
    if ltb s session_id then rest else take_prefix session_id (((s, i), segment) ∷ m)
