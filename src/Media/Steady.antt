-- ===== src/Media/Steady.antt =====
-- The timestamps that a file gets: they fit in 32 bits, and none is far ahead of those before it.
use Prim.Native.Nat.{max}
use bilive_rec.Prelude.{
  ℕ, ◌+◌, ◌^◌, ◌<◌, ◌≤◌, ◌≡◌, refl, sym, ◌∙◌, ap, subst, min, true, false, arith, List, [], ◌∷◌,
  Bool-cases, inl, inr,
}
use bilive_rec.Prelude.Int.{
  as_u32, min_ℤ, as_u32-min, ℤ, pos, negsuc, pos_part, neg_part, ◌-ℤ◌, ltb_ℤ, ◌≤ℤ◌, -ℤ_parts,
}
use bilive_rec.Flv.TagHeader.{FlvTagType, audio, video, script_data}
use bilive_rec.Flv.Tag.{FlvTag}
use bilive_rec.Media.Timestamps.{
  TimestampNormalizer, new, u32_max, rebase, jumps, clamp, normalized, normalize, fallback_delta,
  fallback_delta_for_tag, with_timestamp,
}

-- What the last tag gives, with the offset as it is, is not negative, and has been put out or cut off.
pub record IsTimed (n : TimestampNormalizer) : Type 0 where
  pub offset_below : n.current_offset ≤ℤ pos n.last_original
  pub covers : min (pos_part (pos n.last_original -ℤ n.current_offset)) u32_max ≤ n.last_output
  pub fits : n.last_output < 2 ^ 32

-- The choice for a later tag keeps the offset below the original, and is not far ahead.
abbrev Chosen : TimestampNormalizer → ℕ → ℤ × ℤ → Type 0
Chosen n original (offset, output) =
    (offset ≤ℤ pos original)
    × (output ≡ pos (pos_part (pos original -ℤ offset)))
    × (min (pos_part output) u32_max ≤ n.last_output + 500)

clamp_pos : (original o : ℕ) (offset : ℤ) → clamp original (offset, pos o) ≡ (offset, pos o)
clamp_pos original o offset =
    let above : ltb_ℤ (pos o) (pos 0) ≡ false = ground arith in rw above refl

clamp_negsuc :
    (original o : ℕ) (offset : ℤ) → clamp original (offset, negsuc o) ≡ (pos original, pos 0)
clamp_negsuc original o offset =
    let below : ltb_ℤ (negsuc o) (pos 0) ≡ true = ground arith in rw below refl

clamp_lem :
    (n : TimestampNormalizer) (original : ℕ) (offset output : ℤ)
    → pos_part output + pos_part offset ≡ original + (neg_part offset + neg_part output)
    → min (pos_part output) u32_max ≤ n.last_output + 500
    → Chosen n original (clamp original (offset, output))
unfolding ◌-ℤ◌
clamp_lem n original offset (pos o) e b =
    subst (Chosen n original) (sym (clamp_pos original o offset))
      (omega (arith, e), ap pos (ground (arith, e)), b)
clamp_lem n original offset (negsuc o) e b =
    subst (Chosen n original) (sym (clamp_negsuc original o offset))
      (omega arith, ap pos (ground arith), omega arith)

-- A tag near the last one keeps the offset.
near_lem :
    (n : TimestampNormalizer) (original : ℕ)
    → IsTimed n
    → jumps (pos original -ℤ pos n.last_original) ≡ false
    → min (pos_part (pos original -ℤ n.current_offset)) u32_max ≤ n.last_output + 500
unfolding ◌-ℤ◌
near_lem n original timed near = ground (arith, timed.covers, timed.offset_below)

rebase_near :
    (n : TimestampNormalizer) (original delta : ℕ)
    → jumps (pos original -ℤ pos n.last_original) ≡ false
    → rebase n original delta ≡ (n.current_offset, pos original -ℤ n.current_offset)
unfolding rebase
rebase_near n original delta near = rw (rebase, near) refl

rebase_jump :
    (n : TimestampNormalizer) (original delta : ℕ)
    → jumps (pos original -ℤ pos n.last_original) ≡ true
    → rebase n original delta ≡ (
      pos original -ℤ pos (min (n.last_output + delta) u32_max),
      pos (min (n.last_output + delta) u32_max),
    )
unfolding rebase
rebase_jump n original delta jump = rw (rebase, jump) refl

rebase_lem :
    (n : TimestampNormalizer) (original delta : ℕ)
    → IsTimed n
    → delta ≤ 500
    → Chosen n original (clamp original (rebase n original delta))
rebase_lem n original delta timed small =
    elim (Bool-cases (jumps (pos original -ℤ pos n.last_original))) [
      | inl jump ↦
          let target = min (n.last_output + delta) u32_max in
          subst (λ c. Chosen n original (clamp original c))
            (sym (rebase_jump n original delta jump))
            (clamp_lem n original (pos original -ℤ pos target) (pos target)
              (omega (arith, -ℤ_parts (pos original) (pos target))) (omega (arith, small)))
      | inr near ↦
          subst (λ c. Chosen n original (clamp original c))
            (sym (rebase_near n original delta near))
            (clamp_lem n original n.current_offset (pos original -ℤ n.current_offset)
              (omega (arith, -ℤ_parts (pos original) n.current_offset))
              (near_lem n original timed near))
    ]

fallback_small : (tag : FlvTag) → fallback_delta_for_tag tag ≤ 500
unfolding fallback_delta_for_tag
fallback_small tag = of_type tag.header.tag_type
  where
    of_type : (t : FlvTagType) → fallback_delta t ≤ 500
    of_type audio = omega arith
    of_type video = omega arith
    of_type script_data = omega arith

-- A tag after the first: its timestamp, and the normalizer that it leaves.
pub record Later (n : TimestampNormalizer) (output : ℕ) (next : TimestampNormalizer) : Type 0 where
  pub word : output < 2 ^ 32
  pub near : output ≤ n.last_output + 500
  pub begun : next.initialized ≡ true
  pub largest : next.last_output ≡ max n.last_output output
  pub timed : IsTimed next

-- What the conversion makes of an output that is not negative.
output_lem : (o : ℤ) (n : ℕ) → o ≡ pos n → as_u32 (min_ℤ o (pos u32_max)) ≡ min n u32_max
output_lem o n e = ap (λ x. as_u32 (min_ℤ x (pos u32_max))) e ∙ as_u32-min n

normalized-Later :
    (n : TimestampNormalizer) (original delta : ℕ)
    → IsTimed n
    → n.initialized ≡ true
    → delta ≤ 500
    → Later n (normalized n original delta).0 (normalized n original delta).1
unfolding normalized
normalized-Later n original delta timed begun small =
    let (below, part, gap) = rebase_lem n original delta timed small in
    let out = output_lem _ _ part in
    rw (normalized, begun)
      (record {
        word = omega (arith, out);
        near = omega (arith, out, gap, ap pos_part part);
        begun = refl;
        largest = refl;
        timed = record {
          offset_below = below;
          covers = omega (arith, out);
          fits = omega (arith, out, timed.fits);
        };
      })

-- A file: the tags in order, through one normalizer.
unfoldable pub normalize_all : TimestampNormalizer → List FlvTag → List FlvTag
unfolding normalize
normalize_all n [] = []
normalize_all n (tag ∷ tags) = let (out, next) = normalize n tag in out ∷ normalize_all next tags

-- No timestamp is more than 500 ms ahead of the largest before it.
abbrev pub AheadOf : ℕ → List FlvTag → Type 0
AheadOf largest [] = Unit
AheadOf largest (tag ∷ tags) =
    (tag.header.timestamp < 2 ^ 32)
    × (tag.header.timestamp ≤ largest + 500)
    × AheadOf (max largest tag.header.timestamp) tags

later-AheadOf :
    (tags : List FlvTag) (n : TimestampNormalizer)
    → IsTimed n
    → n.initialized ≡ true
    → AheadOf n.last_output (normalize_all n tags)
unfolding normalize_all normalize with_timestamp
later-AheadOf [] n timed begun = tt
later-AheadOf (tag ∷ tags) n timed begun =
    let next = (normalized n tag.header.timestamp (fallback_delta_for_tag tag)).1 in
    let later =
      normalized-Later n tag.header.timestamp (fallback_delta_for_tag tag) timed begun
        (fallback_small tag) in
    (
      later.word,
      later.near,
      subst (λ largest. AheadOf largest (normalize_all next tags)) later.largest
          (later-AheadOf tags next later.timed later.begun),
    )

first-IsTimed :
    (original : ℕ)
    → IsTimed (record {
      initialized = true;
      current_offset = pos original;
      last_original = original;
      last_output = 0;
    })
unfolding ◌-ℤ◌
first-IsTimed original = record {
  offset_below = omega arith;
  covers = ground arith;
  fits = omega arith;
}

-- The tags that one new normalizer is given get timestamps of 32 bits that start at 0, and none is
-- more than 500 ms ahead of the largest before it, whatever their own timestamps are.
pub normalize_all-AheadOf :
    (tag : FlvTag) (tags : List FlvTag)
    → (out : FlvTag) × (outs : List FlvTag) × (normalize_all new (tag ∷ tags) ≡ out ∷ outs)
      × (out.header.timestamp ≡ 0)
      × AheadOf 0 outs
unfolding normalize_all normalize normalized with_timestamp
normalize_all-AheadOf tag tags =
    (_, _, refl, refl, later-AheadOf tags _ (first-IsTimed tag.header.timestamp) refl)
