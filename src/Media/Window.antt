-- ===== src/Media/Window.antt =====
-- The deduplicator remembers the last groups that went to the file, and nothing else decides whether
-- a group goes there.
use Prim.Native.Nat.{suc}
use bilive_rec.Prelude.{
  ℕ, ◌+◌, ◌-◌, ◌≡◌, ◌≢◌, min, ◌^◌, refl, sym, ap, ◌∙◌, subst, Bool, true, false, List, [], ◌∷◌,
  ◌++◌, length, length-append, any, ◌==◌, ltb, if◌then◌else◌, arith, Bool-cases, inl, inr,
}
use mathlib.Core.List.{append_assoc, append-nil}
use bilive_rec.Prelude.Bytes.{drop, drop-append_left, drop-drop, length-drop}
use bilive_rec.Flv.Tag.{FlvTag}
use bilive_rec.Media.Groups.{
  MediaGroupDeduplicator, MediaGroupDecision, unique, duplicate, reconnect, no_history, trim,
  observe_fingerprint, observe, fingerprint_media_group, MediaGroupBuffer, MediaGroupFlush, empty,
  unique_group, duplicate_group, new, push, flushed, flush,
}

-- The last sixteen.
abbrev pub window : List ℕ → List ℕ
window xs = drop (length xs - 16) xs

-- Dropping one by one from the front is dropping at once.
trim_lem : (xs : List ℕ) → trim xs ≡ window xs
unfolding trim
trim_lem [] = refl
trim_lem (x ∷ xs) = elim (Bool-cases (ltb 16 (length (x ∷ xs)))) [
  | inl long ↦
      rw (trim, long)
        (trim_lem xs
          ∙ ap (λ n. drop n (x ∷ xs))
              (let e : suc (length xs - 16) ≡ suc (length xs) - 16 = ground (arith, long) in e))
  | inr short ↦
      rw (trim, short)
        (ap (λ n. drop n (x ∷ xs)) (let e : 0 ≡ suc (length xs) - 16 = ground (arith, short) in e))
]

-- A window that is extended is the window of what is extended.
window-append : (xs : List ℕ) (x : ℕ) → window (window xs ++ (x ∷ [])) ≡ window (xs ++ (x ∷ []))
window-append xs x =
    ap window (sym joined)
    ∙ ap (λ n. drop n (drop k (xs ++ (x ∷ [])))) refl
    ∙ sym (drop-drop (xs ++ (x ∷ [])) k (length (drop k (xs ++ (x ∷ []))) - 16))
    ∙ ap (λ n. drop n (xs ++ (x ∷ []))) all
  where
    k : ℕ
    k = length xs - 16

    joined : drop k (xs ++ (x ∷ [])) ≡ window xs ++ (x ∷ [])
    joined = drop-append_left xs (x ∷ []) k (omega arith)

    all : k + (length (drop k (xs ++ (x ∷ []))) - 16) ≡ length (xs ++ (x ∷ [])) - 16
    all = omega (arith, length-drop (xs ++ (x ∷ [])) k, length-append xs (x ∷ []))

-- What the deduplicator's history stands for: the fingerprints of all groups that went to the file.
pub record Remembers (deduplicator : MediaGroupDeduplicator) (past : List ℕ) : Type 0 where
  pub history : deduplicator.history ≡ window past

abbrev pub is_remembered : ℕ → List ℕ → Bool
is_remembered fingerprint past = any (λ seen. seen == fingerprint) (window past)

observe_unique :
    (d : MediaGroupDeduplicator) (past : List ℕ) (f : ℕ)
    → Remembers d past
    → is_remembered f past ≡ false
    → ((observe_fingerprint d f).0 ≡ unique)
      × Remembers (observe_fingerprint d f).1 (past ++ (f ∷ []))
unfolding observe_fingerprint
observe_unique d past f r fresh =
    let seen : any (λ seen. seen == f) d.history ≡ false =
      subst (λ h. any (λ seen. seen == f) h ≡ false) (sym r.history) fresh in
    rw (observe_fingerprint, seen)
      (
        refl,
        record {
          history =
              trim_lem (d.history ++ (f ∷ []))
              ∙ ap (λ h. window (h ++ (f ∷ []))) r.history
              ∙ window-append past f;
        },
      )

repeated-ne-unique : (b : Bool) → (if b then reconnect else duplicate) ≢ unique
repeated-ne-unique true e = cc
repeated-ne-unique false e = cc

observe_again :
    (d : MediaGroupDeduplicator) (past : List ℕ) (f : ℕ)
    → Remembers d past
    → is_remembered f past ≡ true
    → ((observe_fingerprint d f).0 ≢ unique) × Remembers (observe_fingerprint d f).1 past
unfolding observe_fingerprint
observe_again d past f r known =
    let seen : any (λ seen. seen == f) d.history ≡ true =
      subst (λ h. any (λ seen. seen == f) h ≡ true) (sym r.history) known in
    rw (observe_fingerprint, seen)
      (
        repeated-ne-unique (ltb 10 (min (d.duplicate_run + 1) (2 ^ 32 - 1))),
        record { history = r.history },
      )

-- Groups that reach the buffer one after another, and those of them that go to the file.
unfoldable pub push_all : MediaGroupBuffer → List FlvTag → MediaGroupBuffer
unfolding push
push_all self [] = self
push_all self (tag ∷ tags) = push_all (push self tag) tags

abbrev written_of : MediaGroupFlush → List (List FlvTag) → List (List FlvTag)
written_of empty rest = rest
written_of (unique_group tags) rest = tags ∷ rest
written_of (duplicate_group exceeded media_tags) rest = rest

unfoldable pub flush_all : MediaGroupBuffer → List (List FlvTag) → List (List FlvTag)
unfolding push_all flush
flush_all self [] = []
flush_all self (group ∷ groups) =
    let (result, next) = flush (push_all self group) in written_of result (flush_all next groups)

-- What the buffer is for, without a buffer: a group with tags goes to the file unless its fingerprint
-- is one of the last sixteen that went there; `past` is all that went there.
unfoldable pub selected : List ℕ → List (List FlvTag) → List (List FlvTag)
selected past [] = []
selected past ([] ∷ groups) = selected past groups
selected past ((tag ∷ tags) ∷ groups) =
    let f = fingerprint_media_group (tag ∷ tags) in
    let as_new = selected (past ++ (f ∷ [])) groups in
    let as_known = selected past groups in
    if is_remembered f past then as_known else (tag ∷ tags) ∷ as_new

push_all_lem :
    (tags : List FlvTag) (self : MediaGroupBuffer)
    → push_all self tags
      ≡ record { pending = self.pending ++ tags; deduplicator = self.deduplicator }
unfolding push_all push
push_all_lem [] self =
    ap (λ p. record { pending = p; deduplicator = self.deduplicator })
      (sym (append-nil self.pending))
push_all_lem (tag ∷ tags) self =
    push_all_lem tags (push self tag)
    ∙ ap (λ p. record { pending = p; deduplicator = self.deduplicator })
        (append_assoc self.pending (tag ∷ []) tags)

abbrev buffer_of : MediaGroupDeduplicator → MediaGroupBuffer
buffer_of deduplicator = record { pending = []; deduplicator = deduplicator }

-- One group that has tags, by what the deduplicator makes of it.
offer_lem :
    (d : MediaGroupDeduplicator) (tag : FlvTag) (tags : List FlvTag) (groups : List (List FlvTag))
    → flush_all (buffer_of d) ((tag ∷ tags) ∷ groups)
      ≡ written_of
          (flushed (observe d (tag ∷ tags)).0 (tag ∷ tags))
          (flush_all (buffer_of (observe d (tag ∷ tags)).1) groups)
unfolding flush_all flush
offer_lem d tag tags groups = rw (push_all_lem (tag ∷ tags) (buffer_of d)) refl

offer_nothing :
    (d : MediaGroupDeduplicator) (groups : List (List FlvTag))
    → flush_all (buffer_of d) ([] ∷ groups) ≡ flush_all (buffer_of d) groups
unfolding flush_all flush push_all
offer_nothing d groups = refl

not_written :
    (decision : MediaGroupDecision) (tags : List FlvTag) (rest : List (List FlvTag))
    → decision ≢ unique
    → written_of (flushed decision tags) rest ≡ rest
not_written unique tags rest h = absurd (h refl)
not_written duplicate tags rest h = refl
not_written reconnect tags rest h = refl

flush_all-selected_from :
    (groups : List (List FlvTag)) (d : MediaGroupDeduplicator) (past : List ℕ)
    → Remembers d past
    → flush_all (buffer_of d) groups ≡ selected past groups
unfolding observe selected
flush_all-selected_from [] d past r = unfold flush_all in refl
flush_all-selected_from ([] ∷ groups) d past r =
    offer_nothing d groups ∙ flush_all-selected_from groups d past r
flush_all-selected_from ((tag ∷ tags) ∷ groups) d past r =
    let f = fingerprint_media_group (tag ∷ tags) in
    let next = (observe_fingerprint d f).1 in
    elim (Bool-cases (is_remembered f past)) [
      | inl known ↦
          let (again, r') = observe_again d past f r known in
          offer_lem d tag tags groups
          ∙ not_written _ (tag ∷ tags) _ again
          ∙ flush_all-selected_from groups next past r'
          ∙ rw (selected, known) refl
      | inr fresh ↦
          let (is_new, r') = observe_unique d past f r fresh in
          offer_lem d tag tags groups
          ∙ ap (λ c. written_of (flushed c (tag ∷ tags)) (flush_all (buffer_of next) groups)) is_new
          ∙ ap (λ t. (tag ∷ tags) ∷ t) (flush_all-selected_from groups next (past ++ (f ∷ [])) r')
          ∙ rw (selected, fresh) refl
    ]

pub flush_all-selected : (groups : List (List FlvTag)) → flush_all new groups ≡ selected [] groups
flush_all-selected groups = flush_all-selected_from groups no_history [] (record { history = refl })
