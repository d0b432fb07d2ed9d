-- ===== src/Flv/Framed.antt =====
-- NAL units behind their lengths, described without offsets, and the spans that the code finds.
use Prim.Native.Nat.{bit_and}
use mathlib.Core.List.{append_assoc}
use bilive_rec.Prelude.{
  ℕ, ◌+◌, ◌-◌, ◌<◌, ◌≤◌, ◌≡◌, refl, sym, ap, ◌∙◌, subst, true, List, [], ◌∷◌, ◌++◌, length,
  length-append, All, some, some_inj, ◌==◌, arith,
}
use bilive_rec.Prelude.Outcome.{ok, ok_inj}
use bilive_rec.Prelude.Bytes.{
  byte_at, take, drop, take-append, drop-append, drop-drop, length-drop, length-take, take-drop,
  byte_at-drop, byte_at-append, byte_at-take,
}
use bilive_rec.Flv.Avc.{AvcPayloadError}
use bilive_rec.Flv.Nalus.{NaluSpan, nalu_len_of, read_nalu_span}
use bilive_rec.Flv.InRange.{spanned, read_nalu_span-some}

pub record Nalu : Type 0 where
  pub length_bytes : List ℕ
  pub body : List ℕ

abbrev pub framed : Nalu → List ℕ
framed nalu = nalu.length_bytes ++ nalu.body

abbrev pub join : List Nalu → List ℕ
join [] = []
join (nalu ∷ nalus) = framed nalu ++ join nalus

abbrev pub type_of : Nalu → ℕ
type_of nalu = bit_and (byte_at nalu.body 0) 0x1f

-- What the format asks of a unit: its length in so many bytes, and a header byte whose first bit is 0.
pub record IsFramed (length_size : ℕ) (nalu : Nalu) : Type 0 where
  pub size : length nalu.length_bytes ≡ length_size
  pub states : nalu_len_of 0 nalu.length_bytes ≡ length nalu.body
  pub filled : 0 < length nalu.body
  pub is_header : (bit_and (byte_at nalu.body 0) 0x80 == 0) ≡ true

abbrev pub AllFramed : ℕ → List Nalu → Type 0
AllFramed length_size nalus = All (IsFramed length_size) nalus

pub length-framed :
    (length_size : ℕ) (nalu : Nalu)
    → IsFramed length_size nalu
    → length (framed nalu) ≡ length_size + length nalu.body
length-framed length_size nalu frame =
    omega (arith, frame.size, length-append nalu.length_bytes nalu.body)

-- A unit has a byte, so that the rounds are no more than the bytes.
pub length-join :
    (length_size : ℕ) (nalus : List Nalu)
    → AllFramed length_size nalus
    → length nalus ≤ length (join nalus)
length-join length_size [] frames = omega arith
length-join length_size (nalu ∷ nalus) (frame, frames) = omega (
  arith,
  frame.filled,
  length-framed length_size nalu frame,
  length-append (framed nalu) (join nalus),
  length-join length_size nalus frames,
)

abbrev pub span_of : ℕ → ℕ → Nalu → NaluSpan
span_of offset length_size nalu = record {
  length_offset = offset;
  payload_offset = offset + length_size;
  payload_len = length nalu.body;
  nalu_type = type_of nalu;
}

-- The tests of the code on a unit whose length and first byte are known.
span_read :
    (length_size : ℕ) (payload : List ℕ) (offset nalu_len first : ℕ)
    → nalu_len_of 0 (take length_size (drop offset payload)) ≡ nalu_len
    → byte_at payload (offset + length_size) ≡ first
    → 0 < nalu_len
    → offset + length_size + nalu_len ≤ length payload
    → (bit_and first 0x80 == 0) ≡ true
    → spanned payload length_size offset
      ≡ ok (record {
        length_offset = offset;
        payload_offset = offset + length_size;
        payload_len = nalu_len;
        nalu_type = bit_and first 0x1f;
      })
unfolding spanned
span_read length_size payload offset nalu_len first l f pos inside header =
    rw (l, f, header) (ground arith)

-- At the offset of a framed unit the code finds the unit's span.
pub span_at :
    (length_size : ℕ) (payload rest : List ℕ) (offset : ℕ) (nalu : Nalu)
    → IsFramed length_size nalu
    → offset ≤ length payload
    → drop offset payload ≡ framed nalu ++ rest
    → read_nalu_span payload length_size offset ≡ some (ok (span_of offset length_size nalu))
span_at length_size payload rest offset nalu frame inside e =
    read_nalu_span-some payload length_size offset ∙ ap some found
  where
    at : drop offset payload ≡ nalu.length_bytes ++ (nalu.body ++ rest)
    at = e ∙ append_assoc nalu.length_bytes nalu.body rest

    found : spanned payload length_size offset ≡ ok (span_of offset length_size nalu)
    found =
        span_read length_size payload offset (length nalu.body) (byte_at nalu.body 0)
          (ap (λ t. nalu_len_of 0 (take length_size t)) at
            ∙ ap (nalu_len_of 0)
                (take-append nalu.length_bytes (nalu.body ++ rest) length_size frame.size)
            ∙ frame.states)
          (byte_at-drop payload (offset + length_size)
            ∙ ap (λ t. byte_at t 0)
                (drop-drop payload offset length_size
                  ∙ ap (drop length_size) at
                  ∙ drop-append nalu.length_bytes (nalu.body ++ rest) length_size frame.size)
            ∙ byte_at-append nalu.body rest frame.filled)
          frame.filled
          (omega (
            arith,
            inside,
            frame.size,
            length-drop payload offset,
            ap length at,
            length-append nalu.length_bytes (nalu.body ++ rest),
            length-append nalu.body rest,
          ))
          frame.is_header

-- The unit that a span stands for.
abbrev unit_at : ℕ → List ℕ → ℕ → Nalu
unit_at length_size data_left nalu_len = record {
  length_bytes = take length_size data_left;
  body = take nalu_len (drop length_size data_left);
}

pub record Found (length_size : ℕ) (payload : List ℕ) (offset : ℕ) (span : NaluSpan) : Type 0 where
  pub nalu : Nalu
  pub frame : IsFramed length_size nalu
  pub is_span : span_of offset length_size nalu ≡ span
  pub splits :
      drop offset payload ≡ framed nalu ++ drop (span.payload_offset + span.payload_len) payload
  pub inside : span.payload_offset + span.payload_len ≤ length payload
  pub moves : offset < span.payload_offset + span.payload_len

-- The tests that a span has passed.
span_tests :
    (length_size : ℕ) (payload : List ℕ) (offset : ℕ) (span : NaluSpan) (nalu_len first : ℕ)
    → nalu_len_of 0 (take length_size (drop offset payload)) ≡ nalu_len
    → byte_at payload (offset + length_size) ≡ first
    → spanned payload length_size offset ≡ ok span
    → (offset + length_size + nalu_len ≤ length payload)
      × (0 < nalu_len)
      × ((bit_and first 0x80 == 0) ≡ true)
      × (record {
        length_offset = offset;
        payload_offset = offset + length_size;
        payload_len = nalu_len;
        nalu_type = bit_and first 0x1f;
      }
          ≡ span)
unfolding spanned
span_tests length_size payload offset span nalu_len first l f e =
    grind (arith, l, f, e, λ (x y : NaluSpan). ok_inj {E = AvcPayloadError} {a = x} {b = y})

-- Cutting a unit out of the data.
unit-Found :
    (length_size : ℕ) (payload : List ℕ) (offset nalu_len : ℕ)
    → nalu_len_of 0 (take length_size (drop offset payload)) ≡ nalu_len
    → offset + length_size + nalu_len ≤ length payload
    → 0 < nalu_len
    → (bit_and (byte_at payload (offset + length_size)) 0x80 == 0) ≡ true
    → Found length_size payload offset (record {
      length_offset = offset;
      payload_offset = offset + length_size;
      payload_len = nalu_len;
      nalu_type = bit_and (byte_at payload (offset + length_size)) 0x1f;
    })
unit-Found length_size payload offset nalu_len states inside filled header = record {
  nalu = unit_at length_size (drop offset payload) nalu_len;
  frame = record {
    size = length-take _ length_size (omega (arith, inside, left));
    states = states ∙ sym body_length;
    filled = rw body_length filled;
    is_header = rw first header;
  };
  is_span = rw (body_length, first) refl;
  splits = split;
  inside = inside;
  moves = omega (arith, filled);
}
  where
    left : length (drop offset payload) ≡ length payload - offset
    left = length-drop payload offset

    behind : drop length_size (drop offset payload) ≡ drop (offset + length_size) payload
    behind = sym (drop-drop payload offset length_size)

    body_length : length (take nalu_len (drop length_size (drop offset payload))) ≡ nalu_len
    body_length =
        length-take _ nalu_len
          (omega (arith, inside, left, length-drop (drop offset payload) length_size))

    first :
        byte_at (take nalu_len (drop length_size (drop offset payload))) 0
        ≡ byte_at payload (offset + length_size)
    first =
        byte_at-take _ nalu_len filled
        ∙ ap (λ t. byte_at t 0) behind
        ∙ sym (byte_at-drop payload (offset + length_size))

    split :
        drop offset payload
        ≡ framed (unit_at length_size (drop offset payload) nalu_len)
          ++ drop (offset + length_size + nalu_len) payload
    split =
        sym (take-drop (drop offset payload) length_size)
        ∙ ap (λ t. take length_size (drop offset payload) ++ t)
            (sym (take-drop (drop length_size (drop offset payload)) nalu_len)
              ∙ ap (λ t. take nalu_len (drop length_size (drop offset payload)) ++ t)
                  (ap (drop nalu_len) behind
                    ∙ sym (drop-drop payload (offset + length_size) nalu_len)))
        ∙ sym (
            append_assoc (take length_size (drop offset payload))
              (take nalu_len (drop length_size (drop offset payload)))
              (drop (offset + length_size + nalu_len) payload))

-- Where the code finds a span, a framed unit stands.
pub span-Found :
    (length_size : ℕ) (payload : List ℕ) (offset : ℕ) (span : NaluSpan)
    → read_nalu_span payload length_size offset ≡ some (ok span)
    → Found length_size payload offset span
span-Found length_size payload offset span e =
    let whole = drop offset payload in
    let nalu_len = nalu_len_of 0 (take length_size whole) in
    let first = byte_at payload (offset + length_size) in
    let (inside, filled, header, same) =
      span_tests length_size payload offset span nalu_len first refl refl
        (some_inj (sym (read_nalu_span-some payload length_size offset) ∙ e)) in
    subst (Found length_size payload offset) same
      (unit-Found length_size payload offset nalu_len refl inside filled header)
