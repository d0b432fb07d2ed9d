-- ===== src/Segments/Closing.antt =====
-- The transitions that write several segments, or a new one, evolve the table of segments too:
-- open_segment, fail_artifact and close_session of src/state/transitions.rs.
use bilive_rec.Prelude.{
  ℕ, String, ◌≡◌, refl, ◌∙◌, sym, subst, ◌≢◌, Bool, true, false, not, Option, none, some, List, [],
  ◌∷◌, All, arith, inl, inr, is_some, find, if◌then◌else◌, Option-cases,
}
use bilive_rec.Errors.{StateError}
use bilive_rec.Model.{Uuid}
use bilive_rec.Model.Session.{LiveSession, SessionLifecycle}
use bilive_rec.Model.Target.{UploadPlan}
use bilive_rec.Model.Segment.{
  Segment, SegmentCloseReason, ArtifactState, has_open_intent, is_writing, is_failed,
}
use bilive_rec.Store.Table.{Each, get, put, get-put_ne}
use bilive_rec.Store.Keys.{segment_key}
use bilive_rec.Store.Range.{range_scan}
use bilive_rec.Store.Sorted.{
  IsSorted, Fits, Stored, AreApart, values-Stored, values-AreApart, All-range_scan,
  AreApart-range_scan,
}
use bilive_rec.Store.Txn.{Txn, put_segment, ◌>>=◌}
use bilive_rec.Store.Effects.{
  Quiet, Effect-write, Effect-bind, Effect-lift, Effect-gets, Effect-fail_if, Effect-Quiet,
  Effect-modify, Effect-Quiet_rest, Quiet-pure,
}
use bilive_rec.Transitions.Artifacts.{open_segment}
use bilive_rec.Transitions.Sessions.{fail_artifact}
use bilive_rec.Transitions.Close.{
  CloseSessionRequest, abandon_segments, abandon_session, require_no_blocked_target, exclusion,
  exclude_failed_segments, exclude_if, finish_closing, refuse_closing, mark_recovery_required,
  close_or_recover, close_by, close_session, require_closable, require_closer,
}
use bilive_rec.Segments.Step.{
  Segments, Actor, SegmentStep, artifact, operator, fail, exclude_failed, abandon, key_of, Evolves,
  here, step, opened, IsNew,
}
use bilive_rec.Segments.Keys.{key_of-step, Evolves-trans}
use bilive_rec.Segments.Rules.{
  segments_of, Evolving, Evolving-require_segment, Evolving-put_segment, segments_quiet,
}

writing_of : (a : ArtifactState) → is_writing a ≡ true → a ≡ ArtifactState.writing
unfolding is_writing
writing_of a h = ground arith

not-false : (b : Bool) → not b ≡ false → b ≡ true
not-false b h = ground arith

is_some-false {ℓ} : {A : Type ℓ} (o : Option A) → is_some o ≡ false → o ≡ none
is_some-false o h = ground arith

module _ {B : Type 0} {a : Actor} {x : Segments} where
  pub Evolving-put_new :
      (s : Segment) (f : Unit {0} → Txn B)
      → get x (key_of s) ≡ none
      → IsNew s
      → Quiet segments_of (f tt)
      → Evolving a x (put_segment s >>= f)
  Evolving-put_new s f absent new q =
      Effect-modify _ f
        (λ t e. subst (λ y. Evolves a x (put (key_of s) s y)) (sym e) (opened here absent new)) q

  -- One of several writes: the rest starts from the table that it leaves.
  pub Evolving-put_then :
      (s s' : Segment) (f : Unit {0} → Txn B)
      → get x (key_of s) ≡ some s
      → SegmentStep a s s'
      → Evolving a (put (key_of s') s' x) (f tt)
      → Evolving a x (put_segment s' >>= f)
  unfolding ◌>>=◌
  Evolving-put_then s s' f found st h = record {
    at = λ env db e. elim (h.at env _ (λ i. put (key_of s') s' (e i))) [
      | inl same ↦ inr (subst (Evolves a x) (sym same) (step (key_of s) here found st))
      | inr more ↦ inr (Evolves-trans (step (key_of s) here found st) more)
    ];
  }

-- A write under one key leaves what is stored under the others.
Stored-put :
    (s s' : Segment) (x : Segments) (xs : List Segment)
    → key_of s' ≡ key_of s
    → All (λ t. key_of s ≢ key_of t) xs
    → All (Stored x) xs
    → All (Stored (put (key_of s') s' x)) xs
Stored-put s s' x [] e apart h = tt
Stored-put s s' x (t ∷ xs) e apart h = (
  get-put_ne (key_of s') s' x (key_of t) (λ p. apart.0 (sym e ∙ p)) ∙ h.0,
  Stored-put s s' x xs e apart.1 h.1,
)

pub Evolving-abandon_segments :
    {a : Actor} (by : a ≡ Actor.human) (xs : List Segment) (x : Segments)
    → All (Stored x) xs
    → AreApart xs
    → Evolving a x (abandon_segments xs)
unfolding abandon_segments
Evolving-abandon_segments by [] x h apart = Effect-Quiet _ (Quiet-pure tt)
Evolving-abandon_segments {a} by (s ∷ xs) x h apart = Effect-fail_if _ _ _ λ settled.
    Effect-bind _ _ (search segments_quiet) λ now. Effect-lift _ _ λ s' e.
      let st : SegmentStep a s s' = operator by (abandon now settled e) in
      Evolving-put_then s s' _ h.0 st (
        Evolving-abandon_segments by xs _ (Stored-put s s' x xs (key_of-step s s' st) apart.0 h.1)
          apart.1)

Evolving-exclude_failed_segments :
    {a : Actor} (xs : List Segment) (x : Segments)
    → All (Stored x) xs
    → AreApart xs
    → Evolving a x (exclude_failed_segments xs)
unfolding exclude_failed_segments
Evolving-exclude_failed_segments [] x h apart = Effect-Quiet _ (Quiet-pure ([], []))
Evolving-exclude_failed_segments {a} (s ∷ xs) x h apart = elim (Option-cases (exclusion s)) [
  | inl e ↦
      rw (e, exclude_failed_segments)
        (Effect-Quiet_rest _ _ (Evolving-exclude_failed_segments xs x h.1 apart.1)
          λ rest. Quiet-pure (s ∷ rest.0, rest.1))
  | inr (s', e) ↦
      let st : SegmentStep a s s' = artifact (exclude_failed e) in
      let stored = Stored-put s s' x xs (key_of-step s s' st) apart.0 h.1 in
      rw (e, exclude_failed_segments)
        (Evolving-put_then s s' _ h.0 st (
          Effect-Quiet_rest _ _ (Evolving-exclude_failed_segments xs _ stored apart.1)
            λ rest. Quiet-pure (s' ∷ rest.0, s'.index ∷ rest.1)))
]

Evolving-exclude_if :
    {a : Actor} (b : Bool) (xs : List Segment) (x : Segments)
    → All (Stored x) xs
    → AreApart xs
    → Evolving a x (exclude_if b xs)
Evolving-exclude_if true xs x h apart = Evolving-exclude_failed_segments xs x h apart
Evolving-exclude_if false xs x h apart = Effect-Quiet _ (Quiet-pure (xs, []))

-- The rest of close_session leaves the segments alone.
Quiet-require_closable :
    (request : CloseSessionRequest) (lifecycle : SessionLifecycle)
    → Quiet segments_of (require_closable request lifecycle)
unfolding require_closable
Quiet-require_closable (CloseSessionRequest.natural _) lifecycle = search segments_quiet
Quiet-require_closable (CloseSessionRequest.recover _ _) lifecycle = search segments_quiet
Quiet-require_closable (CloseSessionRequest.abandon _) lifecycle = search segments_quiet

Quiet-require_closer :
    (request : CloseSessionRequest) (session : LiveSession)
    → Quiet segments_of (require_closer request session)
unfolding require_closer
Quiet-require_closer (CloseSessionRequest.natural _) session = search segments_quiet
Quiet-require_closer (CloseSessionRequest.recover _ _) session = search segments_quiet
Quiet-require_closer (CloseSessionRequest.abandon _) session = search segments_quiet

Quiet-require_no_blocked_target :
    (id : Uuid) (plan : Option UploadPlan) → Quiet segments_of (require_no_blocked_target id plan)
Quiet-require_no_blocked_target id none = search segments_quiet
Quiet-require_no_blocked_target id (some plan) = search segments_quiet

Quiet-mark_recovery_required :
    (session : LiveSession) (reason : String)
    → Quiet segments_of (mark_recovery_required session reason)
unfolding mark_recovery_required
Quiet-mark_recovery_required session reason = search segments_quiet depth 9

Quiet-refuse_closing :
    (b : Bool) (error : StateError) (session : LiveSession) (reason : String)
    → Quiet segments_of (refuse_closing b error session reason)
unfolding refuse_closing
Quiet-refuse_closing true error session reason = search segments_quiet
Quiet-refuse_closing false error session reason = Quiet-mark_recovery_required session reason

-- Only an operator abandons a session.
abbrev pub MayClose : Actor → CloseSessionRequest → Type 0
MayClose a (CloseSessionRequest.abandon _) = a ≡ Actor.human
MayClose a _ = Unit

module _ {a : Actor} (session_id : Uuid) (session : LiveSession) (xs : List Segment) (x : Segments)
    (h : All (Stored x) xs) (apart : AreApart xs) where
  Evolving-abandon_session :
      a ≡ Actor.human
      → (remark : Option String) → Evolving a x (abandon_session session_id session xs remark)
  unfolding abandon_session
  Evolving-abandon_session by remark = Effect-bind _ _ (search segments_quiet) λ submission.
      Effect-bind _ _ (search segments_quiet) λ _.
        Effect-bind _ _ (Quiet-require_no_blocked_target _ _) λ _.
          Effect-Quiet_rest _ _ (Evolving-abandon_segments by xs x h apart)
            λ _. search segments_quiet depth 9

  Evolving-finish_closing :
      (excluding is_recover : Bool) (remark : Option String)
      → Evolving a x (finish_closing session_id session xs excluding is_recover remark)
  unfolding finish_closing
  Evolving-finish_closing excluding is_recover remark =
      Effect-Quiet_rest _ _ (Evolving-exclude_if excluding xs x h apart)
        λ rest. search segments_quiet depth 9

  Evolving-close_or_recover :
      (excluding is_recover : Bool) (remark : Option String)
      → Evolving a x (close_or_recover session_id session xs excluding is_recover remark)
  unfolding close_or_recover
  Evolving-close_or_recover excluding is_recover remark =
      elim (Option-cases (find (λ s. has_open_intent s.artifact) xs)) [
        | inl settled ↦
            rw (settled, close_or_recover)
              (elim (Option-cases
                (if excluding then none else find (λ s. is_failed s.artifact) xs)) [
                  | inl intact ↦
                      rw (intact, close_or_recover)
                        (Evolving-finish_closing excluding is_recover remark)
                  | inr (s, failed) ↦
                      rw (failed, close_or_recover)
                        (Effect-bind _ _ (search segments_quiet)
                          λ reason. Effect-Quiet _ (Quiet-refuse_closing _ _ _ _))
                ])
        | inr (s, busy) ↦
            rw (busy, close_or_recover)
              (Effect-bind _ _ (search segments_quiet)
                λ reason. Effect-Quiet _ (Quiet-refuse_closing _ _ _ _))
      ]

  Evolving-close_by :
      (request : CloseSessionRequest)
      → MayClose a request
      → Evolving a x (close_by session_id session xs request)
  unfolding close_by
  Evolving-close_by (CloseSessionRequest.natural remark) by =
      Evolving-close_or_recover false false remark
  Evolving-close_by (CloseSessionRequest.recover exclude remark) by =
      Evolving-close_or_recover exclude true remark
  Evolving-close_by (CloseSessionRequest.abandon remark) by = Evolving-abandon_session by remark

pub Evolving-close_session :
    {a : Actor} (x : Segments) (session_id : Uuid) (request : CloseSessionRequest)
    → MayClose a request
    → IsSorted x
    → Each Fits x
    → Evolving a x (close_session session_id request)
unfolding close_session
Evolving-close_session x session_id request by sorted fits = Effect-write _ (
    Effect-bind _ _ (search segments_quiet) λ session. Effect-gets (range_scan session_id) _ (
      Effect-bind _ _ (Quiet-require_closable _ _) λ _.
        Effect-bind _ _ (Quiet-require_closer _ _) λ _.
          Evolving-close_by session_id session _ x
            (All-range_scan (Stored x) session_id x (values-Stored x sorted fits))
            (AreApart-range_scan session_id x (values-AreApart x sorted fits)) request by))

pub Evolving-fail_artifact :
    {a : Actor} {x : Segments} (session_id : Uuid) (index : ℕ) (reason : String)
    (given : Option SegmentCloseReason)
    → Evolving a x (fail_artifact session_id index reason given)
unfolding fail_artifact
Evolving-fail_artifact session_id index reason given = Effect-bind _ _ (search segments_quiet) λ _.
    Effect-write _ (
      Effect-bind _ _ (search segments_quiet) λ session.
        Effect-bind _ _ (search segments_quiet) λ _. Effect-bind _ _ (search segments_quiet) λ _.
          Evolving-require_segment _ _ _ λ s found. Effect-fail_if _ _ _ λ failing.
            Evolving-put_segment _ s _ _ found (artifact (fail reason _ (not-false _ failing) refl))
              (search segments_quiet depth 12))

pub Evolving-open_segment : {a : Actor} {x : Segments} (s : Segment) → Evolving a x (open_segment s)
unfolding open_segment
Evolving-open_segment {x} s = Effect-bind _ _ (search segments_quiet) λ _.
    Effect-bind _ _ (search segments_quiet) λ _. Effect-write _ (
      Effect-bind _ _ (search segments_quiet) λ session.
        Effect-bind _ _ (search segments_quiet) λ _.
          Effect-gets (λ m. get m (key_of s)) _
            (Effect-fail_if _ _ _ λ absent. Effect-bind _ _ (search segments_quiet) λ segments.
              Effect-bind _ _ (search segments_quiet) λ _. Effect-fail_if _ _ _ λ writing.
                Evolving-put_new _ _ (is_some-false _ absent)
                  (record {
                    is_writing = writing_of s.artifact (not-false _ writing);
                    plan = session.output_plan;
                    upload = refl;
                    no_attempts = refl;
                  })
                  (search segments_quiet)))
