-- ===== src/Media/Recorded.antt =====
-- The tags that `observe_tag` hands on for the file can be written, and are read back as they are;
-- tags of cached headers never are, and an AVC packet is handed on without filler.
use bilive_rec.Prelude.{
  ℕ, ◌≡◌, ◌≢◌, sym, ◌∙◌, subst, inl, inr, Bool, true, Option, none, some, List, ◌++◌,
}
use bilive_rec.Prelude.Outcome.{ok}
use bilive_rec.Flv.TagHeader.{video}
use bilive_rec.Flv.Tag
use bilive_rec.Flv.Tag.{FlvTag}
use bilive_rec.Flv.RoundTrip.{tag_bytes, tag-back}
use bilive_rec.Flv.Rewritten.{tag-writes}
use bilive_rec.Flv.Avc.{is_avc_nalu_packet}
use bilive_rec.Flv.Removal.{cleaned}
use bilive_rec.Media.Normalizer.{FlvNormalizer, write_tag, Observed, observe_tag, with_data}
use bilive_rec.Media.Hands.{Hands, IsUntouched, observe_tag-Hands, observe_nalus-Hands}
use bilive_rec.Media.Cleaned.{IsWritable, IsClean, with_data-IsWritable, cleaned-IsClean}

-- A tag of an observation that has the property has it.
Hands_inv :
    (P : FlvTag → Type 0) (r : Observed) (tag : FlvTag) (is_keyframe : Bool) (next : FlvNormalizer)
    → Hands P r
    → r ≡ some (ok (write_tag tag is_keyframe, next))
    → P tag
Hands_inv P r tag is_keyframe next h e = subst (Hands P) e h

Hands-ne-none : (P : FlvTag → Type 0) (r : Observed) → Hands P r → r ≢ none
Hands-ne-none P r h e = subst (Hands P) e h

observe_tag-IsWritable :
    (self : FlvNormalizer) (tag : FlvTag) (recording : Bool)
    → IsWritable tag
    → Hands IsWritable (observe_tag self tag recording)
observe_tag-IsWritable self tag recording writable =
    observe_tag-Hands IsWritable self tag recording (λ h. writable)
      (λ is_keyframe length_size e.
        observe_nalus-Hands IsWritable self tag is_keyframe length_size
          (λ packet h. with_data-IsWritable length_size tag packet writable))

-- Observing a tag gives an action or an error, for any data: no index, slice or subtraction of the
-- functions on payloads is out of range, the panic of `expect` is not reached, and the loops end.
pub observe_tag-ne-none :
    (self : FlvNormalizer) (tag : FlvTag) (recording : Bool) → observe_tag self tag recording ≢ none
observe_tag-ne-none self tag recording =
    Hands-ne-none (λ t. Unit) _
      (observe_tag-Hands (λ t. Unit) self tag recording (λ h. tt)
        (λ is_keyframe length_size e.
          observe_nalus-Hands (λ t. Unit) self tag is_keyframe length_size (λ packet h. tt)))

pub observe_tag-write :
    (self : FlvNormalizer) (tag : FlvTag) (recording : Bool) (out : FlvTag) (is_keyframe : Bool)
    (next : FlvNormalizer) (file rest : List ℕ)
    → IsWritable tag
    → observe_tag self tag recording ≡ some (ok (write_tag out is_keyframe, next))
    → (bytes : List ℕ) × (Tag.write out file ≡ ok (file ++ bytes))
      × (Tag.read (bytes ++ rest) ≡ ok (out, rest))
observe_tag-write self tag recording out is_keyframe next file rest writable e =
    let fine =
      Hands_inv IsWritable _ out is_keyframe next
        (observe_tag-IsWritable self tag recording writable) e in
    (tag_bytes out, tag-writes out file fine.fits fine.size, tag-back out rest fine.fits fine.size)

-- With the length size known, a packet of units is clean.
CleanPacket : FlvNormalizer → FlvTag → Type 0
CleanPacket self out =
    (length_size : ℕ)
    → self.avc_nalu_length_size ≡ some length_size
    → out.header.tag_type ≡ video
    → is_avc_nalu_packet out.tag_data ≡ some true
    → IsClean length_size out.tag_data

untouched-CleanPacket :
    (self : FlvNormalizer) (tag : FlvTag) → IsUntouched self tag → CleanPacket self tag
unfolding CleanPacket
untouched-CleanPacket self tag (inl e) length_size known is_video is_packet = absurd cc
untouched-CleanPacket self tag (inr (inl e)) length_size known is_video is_packet = absurd cc
untouched-CleanPacket self tag (inr (inr e)) length_size known is_video is_packet = absurd cc

some_length : {a b : ℕ} → ◌≡◌ {A = Option ℕ} (some a) (some b) → a ≡ b
some_length h = cc

pub observe_tag-IsClean :
    (self : FlvNormalizer) (tag : FlvTag) (recording : Bool) (out : FlvTag) (is_keyframe : Bool)
    (next : FlvNormalizer) (length_size : ℕ)
    → observe_tag self tag recording ≡ some (ok (write_tag out is_keyframe, next))
    → self.avc_nalu_length_size ≡ some length_size
    → out.header.tag_type ≡ video
    → is_avc_nalu_packet out.tag_data ≡ some true
    → IsClean length_size out.tag_data
unfolding CleanPacket with_data
observe_tag-IsClean self tag recording out is_keyframe next length_size e =
    Hands_inv (CleanPacket self) _ out is_keyframe next
      (observe_tag-Hands (CleanPacket self) self tag recording (untouched-CleanPacket self tag)
        (λ is_keyframe n e.
          observe_nalus-Hands (CleanPacket self) self tag is_keyframe n
            (λ packet h m known is_video is_packet.
              subst (λ k. IsClean k (cleaned packet)) (some_length (sym e ∙ known))
                (cleaned-IsClean n tag.tag_data packet h))))
      e length_size
