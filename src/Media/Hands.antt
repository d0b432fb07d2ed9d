-- ===== src/Media/Hands.antt =====
-- Following `observe_tag` in recorder/flv_pipeline.rs to the tag that it hands on for the file.
use bilive_rec.Prelude.{
  ℕ, ◌≡◌, refl, sym, ap, ◌∙◌, subst, ◌⊎◌, Bool, true, false, not, Option, none, some, List,
  if◌then◌else◌, inl, inr,
}
use bilive_rec.Prelude.Outcome.{Outcome, ok, err}
use bilive_rec.Flv.TagHeader.{FlvTagType, audio, video, script_data}
use bilive_rec.Flv.Tag.{FlvTag}
use bilive_rec.Flv.Avc.{AvcPayloadError, is_avc_nalu_packet}
use bilive_rec.Flv.Filler.{AvcFillerRemoval, empty_after_removal}
use bilive_rec.Prelude.Panics.{◌>>=◌, bind_some}
use bilive_rec.Flv.InRange.{
  is_avc_keyframe-some, is_avc_nalu_packet-some, is_avc_sequence_header-some,
  is_aac_sequence_header-some, is_avc_video_tag-some, length_size-some,
}
use bilive_rec.Flv.Removal.{Packet, cleaned, counted, remove-Cleans}
use bilive_rec.Media.Normalizer.{
  FlvNormalizer, drop_tag, write_tag, Observed, observe_packet, cache_sequence_header,
  invalid_avc_sequence_header, with_data, after_removal, observe_nalus, observe_media,
  observe_sequence_header, observe_video, observe_audio, observe_as, observe_tag,
}

-- An observation that does not panic, and whose tag for the file has the property.
abbrev pub Hands : (FlvTag → Type 0) → Observed → Type 0
Hands P none = ⊥
Hands P (some (err e)) = Unit
Hands P (some (ok (drop_tag, next))) = Unit
Hands P (some (ok (write_tag tag is_keyframe, next))) = P tag

-- The tags that are handed on as they came.
abbrev pub IsUntouched : FlvNormalizer → FlvTag → Type 0
IsUntouched self tag =
    (tag.header.tag_type ≡ audio)
    ⊎ (self.avc_nalu_length_size ≡ none)
    ⊎ (is_avc_nalu_packet tag.tag_data ≡ some false)

module _ (P : FlvTag → Type 0) where
  Hands-if :
      (b : Bool) (x y : Observed)
      → (b ≡ true → Hands P x)
      → (b ≡ false → Hands P y)
      → Hands P (if b then x else y)
  Hands-if true x y h k = h refl
  Hands-if false x y h k = k refl

  Hands-bind :
      {B : Type 0} {x : Option B} (k : B → Observed)
      → (b : B) × (x ≡ some b)
      → ((b : B) → x ≡ some b → Hands P (k b))
      → Hands P (x >>= k)
  Hands-bind k (b, e) h = subst (Hands P) (sym (bind_some k e)) (h b e)

  module _ (self : FlvNormalizer) (tag : FlvTag) (recording : Bool)
      (as_is : IsUntouched self tag → P tag)
      (nalus : (is_keyframe : Bool) (length_size : ℕ)
        → self.avc_nalu_length_size ≡ some length_size
        → Hands P (observe_nalus self tag is_keyframe length_size)) where
    sequence_header : Hands P (observe_sequence_header self tag recording)
    unfolding observe_sequence_header
    sequence_header = Hands-bind _ (length_size-some tag.tag_data) (λ read e. of_read read)
      where
        of_read :
            (read : Outcome AvcPayloadError ℕ)
            → Hands P (elim read as (λ _. Observed) [
              | err e ↦ some (err (invalid_avc_sequence_header e))
              | ok length_size ↦
                  some (ok (drop_tag, cache_sequence_header self tag recording length_size))
            ])
        of_read (err e) = tt
        of_read (ok n) = tt

    packet :
        (is_keyframe : Bool) (found : Option ℕ)
        → self.avc_nalu_length_size ≡ found
        → Hands P (observe_packet self tag is_keyframe found)
    unfolding observe_packet
    packet is_keyframe none e = as_is (inr (inl e))
    packet is_keyframe (some length_size) e =
        Hands-bind _ (is_avc_nalu_packet-some tag.tag_data) (λ b known.
          Hands-if b _ _ (λ h. nalus is_keyframe length_size e)
            (λ h. as_is (inr (inr (known ∙ ap some h)))))

    media : Hands P (observe_media self tag self.avc_nalu_length_size)
    unfolding observe_media
    media =
        Hands-bind _ (is_avc_keyframe-some tag.tag_data)
          (λ b e. packet b self.avc_nalu_length_size refl)

    video_tag : Hands P (observe_video self tag recording)
    unfolding observe_video
    video_tag = Hands-bind _ (is_avc_video_tag-some tag.tag_data) (λ is_avc e.
        Hands-if (not is_avc) _ _ (λ h. tt)
          (λ h.
            Hands-bind _ (is_avc_sequence_header-some tag.tag_data)
              (λ is_header e. Hands-if is_header _ _ (λ h. sequence_header) (λ h. media))))

    audio_tag : tag.header.tag_type ≡ audio → Hands P (observe_audio self tag recording)
    unfolding observe_audio
    audio_tag e =
        Hands-bind _ (is_aac_sequence_header-some tag.tag_data)
          (λ is_header known. Hands-if is_header _ _ (λ h. tt) (λ h. as_is (inl e)))

    as_type : (t : FlvTagType) → tag.header.tag_type ≡ t → Hands P (observe_as t self tag recording)
    unfolding observe_as
    as_type script_data e = tt
    as_type video e = video_tag
    as_type audio e = audio_tag e

    -- `observe_tag` hands on what its parts do.
    pub observe_tag-Hands : Hands P (observe_tag self tag recording)
    unfolding observe_tag
    observe_tag-Hands = as_type tag.header.tag_type refl

module _ (P : FlvTag → Type 0) (self : FlvNormalizer) (tag : FlvTag) (is_keyframe : Bool) where
  removed :
      (removal : AvcFillerRemoval) (bytes : List ℕ)
      → (empty_after_removal removal ≡ false → P (with_data tag removal bytes))
      → Hands P (after_removal self tag is_keyframe (ok removal, bytes))
  unfolding after_removal
  removed removal bytes h = Hands-if P (empty_after_removal removal) _ _ (λ e. tt) (λ e. h e)

  -- What is handed on after removal is made of the units that stay.
  pub observe_nalus-Hands :
      (length_size : ℕ)
      → ((packet : Packet length_size tag.tag_data)
          → empty_after_removal (counted packet) ≡ false
          → P (with_data tag (counted packet) (cleaned packet)))
      → Hands P (observe_nalus self tag is_keyframe length_size)
  unfolding observe_nalus after_removal
  observe_nalus-Hands length_size h = elim (remove-Cleans tag.tag_data length_size) [
    | inl (e, r) ↦ rw (observe_nalus, r) tt
    | inr (packet, r) ↦ rw (observe_nalus, r) (removed (counted packet) (cleaned packet) (h packet))
  ]
