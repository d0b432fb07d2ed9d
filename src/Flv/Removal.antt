-- ===== src/Flv/Removal.antt =====
-- The whole of `remove_avc_filler_nalus` in recorder/flv.rs, on every packet.
use Prim.Native.Nat.{suc}
use bilive_rec.Prelude.{
  ℕ, ◌<◌, ◌≤◌, ◌≡◌, refl, sym, ap, ◌∙◌, subst, Bool, true, false, ◌⊎◌, inl, inr, Option, some, List,
  [], ◌∷◌, ◌++◌, length, length-append, count_where, leb, ltb, if◌then◌else◌, arith,
}
use bilive_rec.Prelude.Outcome.{ok, err}
use bilive_rec.Prelude.Bytes.{take, drop, drop-append, take-drop, length-take}
use bilive_rec.Flv.Avc.{
  AvcPayloadError, is_avc_nalu_packet, empty_nalu_payload, unsupported_annex_b_start_code,
}
use bilive_rec.Flv.Nalus.{is_length_size, avc_nalu_payload, visit_loop, visit_length_prefixed_nalus}
use bilive_rec.Flv.InRange.{avc_nalu_payload-cases}
use bilive_rec.Flv.Framed.{Nalu, AllFramed, join, length-join}
use bilive_rec.Flv.Filler.{
  AvcFillerRemoval, Removed, compact_non_filler_nalus, compact_if, changed,
  starts_with_annex_b_start_code, nothing_seen, visit_nalu, remove_from_payload,
  remove_avc_filler_nalus,
}
use bilive_rec.Flv.Scan.{visit_loop_walks, visit_loop-framed}
use bilive_rec.Flv.Tally.{is_filler, tally, folded-visit_nalu}
use bilive_rec.Flv.Compact.{retained}
use bilive_rec.Flv.Compacted.{compact_lem, retained_all}

-- The packet has a header of five bytes and framed units behind it.
pub record Packet (length_size : ℕ) (bytes : List ℕ) : Type 0 where
  pub header : List ℕ
  pub nalus : List Nalu
  pub size : length header ≡ 5
  pub frames : AllFramed length_size nalus
  pub splits : bytes ≡ header ++ join nalus

-- What removal leaves of it.
abbrev pub cleaned : {length_size : ℕ} {bytes : List ℕ} → Packet length_size bytes → List ℕ
cleaned packet = packet.header ++ join (retained packet.nalus)

abbrev pub counted :
    {length_size : ℕ} {bytes : List ℕ} → Packet length_size bytes → AvcFillerRemoval
counted {length_size} packet = tally length_size nothing_seen packet.nalus

pub changed-false :
    (length_size : ℕ) (nalus : List Nalu)
    → changed (tally length_size nothing_seen nalus) ≡ false
    → count_where is_filler nalus ≡ 0
unfolding changed tally
changed-false length_size nalus e = ground (arith, e)

compact_if_lem :
    (length_size : ℕ) (bytes : List ℕ) (packet : Packet length_size bytes) (b : Bool)
    → changed (counted packet) ≡ b
    → compact_if b bytes length_size (counted packet) ≡ some (ok (counted packet), cleaned packet)
unfolding compact_if
compact_if_lem length_size bytes packet true e =
    let compacted : compact_non_filler_nalus bytes length_size ≡ some (cleaned packet) =
      ap (λ t. compact_non_filler_nalus t length_size) packet.splits
      ∙ compact_lem length_size packet.header packet.nalus packet.frames packet.size in
    rw (compact_if, compacted) refl
compact_if_lem length_size bytes packet false e =
    ap (λ t. some (ok (counted packet), t))
      (packet.splits
        ∙ ap (λ t. packet.header ++ join t)
            (sym (retained_all packet.nalus (changed-false length_size packet.nalus e))))

abbrev pub Cleans : ℕ → List ℕ → Option Removed → Type 0
Cleans length_size bytes r =
    ((e : AvcPayloadError) × (r ≡ some (err e, bytes)))
    ⊎ ((packet : Packet length_size bytes) × (r ≡ some (ok (counted packet), cleaned packet)))

-- A walk that fails, and a walk to the end.
payload_failed :
    (bytes : List ℕ) (length_size : ℕ) (payload : List ℕ) (e : AvcPayloadError)
    → visit_length_prefixed_nalus (visit_nalu length_size) payload length_size nothing_seen
      ≡ some (err e)
    → Cleans length_size bytes (remove_from_payload bytes length_size payload)
unfolding remove_from_payload
payload_failed bytes length_size payload e failed = inl (
  if starts_with_annex_b_start_code payload then unsupported_annex_b_start_code else e,
  rw (remove_from_payload, failed) refl,
)

payload_walked :
    (bytes : List ℕ) (length_size : ℕ) (payload : List ℕ) (packet : Packet length_size bytes)
    → visit_length_prefixed_nalus (visit_nalu length_size) payload length_size nothing_seen
      ≡ some (ok (counted packet))
    → remove_from_payload bytes length_size payload ≡ some (ok (counted packet), cleaned packet)
unfolding remove_from_payload
payload_walked bytes length_size payload packet walked =
    rw (remove_from_payload, walked) (compact_if_lem length_size bytes packet _ refl)

-- A payload with a byte in it is walked from its start.
walked_from_start :
    (length_size : ℕ) (payload : List ℕ)
    → 0 < length payload
    → visit_length_prefixed_nalus (visit_nalu length_size) payload length_size nothing_seen
      ≡ visit_loop
          (visit_nalu length_size)
          (suc (length payload))
          payload
          length_size
          0
          nothing_seen
unfolding visit_length_prefixed_nalus
walked_from_start length_size [] h = absurd (omega (arith, h))
walked_from_start length_size (b ∷ payload) h = refl

remove_from_payload_lem :
    (bytes : List ℕ) (length_size : ℕ) (payload : List ℕ)
    → 5 ≤ length bytes
    → drop 5 bytes ≡ payload
    → Cleans length_size bytes (remove_from_payload bytes length_size payload)
unfolding visit_length_prefixed_nalus
remove_from_payload_lem bytes length_size [] long e =
    payload_failed bytes length_size [] empty_nalu_payload refl
remove_from_payload_lem bytes length_size (b ∷ payload) long e =
    elim (visit_loop_walks (visit_nalu length_size) length_size (suc (length (b ∷ payload)))
      (b ∷ payload) 0 nothing_seen (omega arith) (omega arith)) [
        | inl (c, failed) ↦ payload_failed bytes length_size (b ∷ payload) c failed
        | inr (nalus, frames, split, walked) ↦
            let packet : Packet length_size bytes = record {
              header = take 5 bytes;
              nalus = nalus;
              size = length-take bytes 5 long;
              frames = frames;
              splits = sym (take-drop bytes 5) ∙ ap (λ t. take 5 bytes ++ t) (e ∙ split);
            } in
            inr (
              packet,
              payload_walked bytes length_size (b ∷ payload) packet (
                  walked
                  ∙ ap (λ t. some (ok t)) (folded-visit_nalu length_size 0 nalus nothing_seen)),
            )
      ]

failed_payload :
    (bytes : List ℕ) (length_size : ℕ) (e : AvcPayloadError)
    → avc_nalu_payload bytes length_size ≡ some (err e)
    → remove_avc_filler_nalus bytes length_size ≡ some (err e, bytes)
unfolding remove_avc_filler_nalus
failed_payload bytes length_size e h = rw (remove_avc_filler_nalus, h) refl

good_payload :
    (bytes : List ℕ) (length_size : ℕ) (payload : List ℕ)
    → avc_nalu_payload bytes length_size ≡ some (ok payload)
    → remove_avc_filler_nalus bytes length_size ≡ remove_from_payload bytes length_size payload
unfolding remove_avc_filler_nalus
good_payload bytes length_size payload h = rw (remove_avc_filler_nalus, h) refl

-- On any bytes and length size the removal returns, without an index, slice or subtraction out of
-- range and without reaching the panic of `expect`: it either fails and leaves the packet as it was,
-- or the packet is five bytes and units behind their lengths, the counts are those of these units,
-- and the units that are no filler are left, in order.
pub remove-Cleans :
    (bytes : List ℕ) (length_size : ℕ)
    → Cleans length_size bytes (remove_avc_filler_nalus bytes length_size)
remove-Cleans bytes length_size = elim (avc_nalu_payload-cases bytes length_size) [
  | inl (e, failed) ↦ inl (e, failed_payload bytes length_size e failed)
  | inr (long, good) ↦
      subst (Cleans length_size bytes) (sym (good_payload bytes length_size (drop 5 bytes) good))
        (remove_from_payload_lem bytes length_size (drop 5 bytes) long refl)
]

framed_payload :
    (length_size : ℕ) (header payload : List ℕ)
    → is_length_size length_size ≡ true
    → length header ≡ 5
    → is_avc_nalu_packet (header ++ payload) ≡ some true
    → avc_nalu_payload (header ++ payload) length_size ≡ some (ok payload)
unfolding avc_nalu_payload
framed_payload length_size header payload width size is_packet =
    rw (avc_nalu_payload, is_packet, width, long, there, drop-append header payload 5 size) refl
  where
    there : leb 5 (length (header ++ payload)) ≡ true
    there = ground (arith, size, length-append header payload)

    long : ltb (length (header ++ payload)) 5 ≡ false
    long = ground (arith, size, length-append header payload)

-- Removal on a packet of framed units.
pub remove-framed :
    (length_size : ℕ) (header : List ℕ) (nalu : Nalu) (nalus : List Nalu)
    → is_length_size length_size ≡ true
    → length header ≡ 5
    → is_avc_nalu_packet (header ++ join (nalu ∷ nalus)) ≡ some true
    → AllFramed length_size (nalu ∷ nalus)
    → remove_avc_filler_nalus (header ++ join (nalu ∷ nalus)) length_size
      ≡ some (
        ok (tally length_size nothing_seen (nalu ∷ nalus)),
        header ++ join (retained (nalu ∷ nalus)),
      )
remove-framed length_size header nalu nalus width size is_packet frames =
    good_payload bytes length_size payload
      (framed_payload length_size header payload width size is_packet)
    ∙ payload_walked bytes length_size payload
        (record {
          header = header;
          nalus = nalu ∷ nalus;
          size = size;
          frames = frames;
          splits = refl;
        })
        (walked_from_start length_size payload filled
          ∙ visit_loop-framed (visit_nalu length_size) length_size (suc (length payload)) payload 0
              nothing_seen (nalu ∷ nalus) frames (omega arith) refl
              (omega (arith, length-join length_size (nalu ∷ nalus) frames))
          ∙ ap (λ t. some (ok t)) (folded-visit_nalu length_size 0 (nalu ∷ nalus) nothing_seen))
  where
    payload : List ℕ
    payload = join (nalu ∷ nalus)

    bytes : List ℕ
    bytes = header ++ payload

    filled : 0 < length payload
    filled = omega (arith, length-join length_size (nalu ∷ nalus) frames)
