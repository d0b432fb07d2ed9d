-- ===== src/Rooms/Closing.antt =====
-- Following close_session of src/state/transitions.rs with the rules of Rooms.
use bilive_rec.Prelude.{
  String, ◌≡◌, refl, Bool, true, false, not, Option, none, some, List, [], ◌∷◌, inl, inr, arith,
  find, if◌then◌else◌, Option-cases,
}
use bilive_rec.Errors.{StateError}
use bilive_rec.Model.{Uuid}
use bilive_rec.Model.Session.{
  LiveSession, is_open, is_recovery_required, is_closed, SessionLifecycle,
}
use bilive_rec.Model.Segment.{Segment, has_open_intent, is_failed}
use bilive_rec.Model.Target.{UploadPlan}
use bilive_rec.Store.Table.{get}
use bilive_rec.Store.Keys.{id_key}
use bilive_rec.Store.Txn.{◌>>=◌}
use bilive_rec.Store.Effects.{Quiet, Quiet-pure, Quiet-bind}
use bilive_rec.Transitions.Close.{
  CloseSessionRequest, close_session, close_by, close_or_recover, finish_closing, refuse_closing,
  mark_recovery_required, abandon_session, abandon_segments, exclude_failed_segments, exclude_if,
  exclusion, require_no_blocked_target, require_closable, require_closer,
}
use bilive_rec.Rooms.Rules.{
  Own, own, Agreed, Leads, Agreeing, Still-Quiet, Leads-bind, Leads-fail_if, Leads-raise,
  Leads-require_session, Agreeing-write,
}
use bilive_rec.Rooms.Claims.{own_quiet, Still-claim, row_of}
use bilive_rec.Rooms.Both.{Leads-block, Leads-close, record_recovery_reason-IsRecorded}

abandon_segments-own : (xs : List Segment) → Quiet own (abandon_segments xs)
unfolding abandon_segments
abandon_segments-own [] = Quiet-pure tt
abandon_segments-own (s ∷ xs) = Quiet-bind _ _ (search own_quiet) λ _.
    Quiet-bind _ _ (search own_quiet) λ at.
      Quiet-bind _ _ (search own_quiet)
        λ s'. Quiet-bind _ _ (search own_quiet) λ _. abandon_segments-own xs

exclude_failed_segments-own : (xs : List Segment) → Quiet own (exclude_failed_segments xs)
unfolding exclude_failed_segments
exclude_failed_segments-own [] = Quiet-pure ([], [])
exclude_failed_segments-own (s ∷ xs) = elim (Option-cases (exclusion s)) [
  | inl e ↦
      rw (e, exclude_failed_segments)
        (Quiet-bind _ _ (exclude_failed_segments-own xs) λ rest. Quiet-pure (s ∷ rest.0, rest.1))
  | inr (s', e) ↦
      rw (e, exclude_failed_segments)
        (Quiet-bind _ _ (search own_quiet) λ _.
          Quiet-bind _ _ (exclude_failed_segments-own xs)
            λ rest. Quiet-pure (s' ∷ rest.0, s'.index ∷ rest.1))
]

exclude_if-own : (b : Bool) (xs : List Segment) → Quiet own (exclude_if b xs)
exclude_if-own true xs = exclude_failed_segments-own xs
exclude_if-own false xs = Quiet-pure (xs, [])

require_no_blocked_target-own :
    (id : Uuid) (plan : Option UploadPlan) → Quiet own (require_no_blocked_target id plan)
require_no_blocked_target-own id none = search own_quiet
require_no_blocked_target-own id (some plan) = search own_quiet

module _ {x : Own} (agree : Agreed x) (id : Uuid) (s : LiveSession) (found : get x.0 id ≡ some s)
    (unclosed : is_closed s.lifecycle ≡ false) where
  mark_recovery_required-Leads : (reason : String) → Leads x (mark_recovery_required s reason)
  unfolding mark_recovery_required
  mark_recovery_required-Leads reason = Leads-bind _ _ (Still-Quiet _ (search own_quiet)) λ at.
      let r = record_recovery_reason-IsRecorded s reason at unclosed in
      Leads-block agree id s found unclosed _ r.reason r.since _ _ _ _ r.id r.room_id refl refl
        r.lifecycle (Quiet-pure _)

  refuse_closing-Leads :
      (b : Bool) (error : StateError) (reason : String) → Leads x (refuse_closing b error s reason)
  unfolding refuse_closing
  refuse_closing-Leads true error reason = Leads-raise error
  refuse_closing-Leads false error reason = mark_recovery_required-Leads reason

  finish_closing-Leads :
      (xs : List Segment) (excluding is_recover : Bool) (remark : Option String)
      → Leads x (finish_closing id s xs excluding is_recover remark)
  unfolding finish_closing
  finish_closing-Leads xs excluding is_recover remark =
      Leads-bind _ _ (Still-Quiet _ (exclude_if-own excluding xs)) λ rest.
        Leads-bind _ _ (Still-Quiet _ (search own_quiet))
          λ at. Leads-close agree id s found unclosed _ _ _ refl refl refl (Quiet-pure _)

  close_or_recover-Leads :
      (xs : List Segment) (excluding is_recover : Bool) (remark : Option String)
      → Leads x (close_or_recover id s xs excluding is_recover remark)
  unfolding close_or_recover
  close_or_recover-Leads xs excluding is_recover remark =
      elim (Option-cases (find (λ t. has_open_intent t.artifact) xs)) [
        | inl settled ↦
            rw (settled, close_or_recover)
              (elim (Option-cases
                (if excluding then none else find (λ t. is_failed t.artifact) xs)) [
                  | inl intact ↦
                      rw (intact, close_or_recover)
                        (finish_closing-Leads xs excluding is_recover remark)
                  | inr (t, failed) ↦
                      rw (failed, close_or_recover)
                        (Leads-bind _ _ (Still-Quiet _ (search own_quiet))
                          λ reason. refuse_closing-Leads _ _ _)
                ])
        | inr (t, busy) ↦
            rw (busy, close_or_recover)
              (Leads-bind _ _ (Still-Quiet _ (search own_quiet))
                λ reason. refuse_closing-Leads _ _ _)
      ]

  abandon_session-Leads :
      (xs : List Segment) (remark : Option String) → Leads x (abandon_session id s xs remark)
  unfolding abandon_session
  abandon_session-Leads xs remark = Leads-bind _ _ (Still-Quiet _ (search own_quiet)) λ submission.
      Leads-bind _ _ (Still-Quiet _ (search own_quiet)) λ _.
        Leads-bind _ _ (Still-Quiet _ (require_no_blocked_target-own _ _)) λ _.
          Leads-bind _ _ (Still-Quiet _ (abandon_segments-own xs)) λ _.
            Leads-bind _ _ (Still-Quiet _ (search own_quiet))
              λ at. Leads-close agree id s found unclosed _ _ _ refl refl refl (Quiet-pure _)

unclosed_if_open : (l : SessionLifecycle) → not (is_open l) ≡ false → is_closed l ≡ false
unfolding is_open is_closed
unclosed_if_open l h = ground arith

unclosed_if_recovery :
    (l : SessionLifecycle) → not (is_recovery_required l) ≡ false → is_closed l ≡ false
unfolding is_recovery_required is_closed
unclosed_if_recovery l h = ground arith

closing-Leads :
    {x : Own} (request : CloseSessionRequest) (id : Uuid) (s : LiveSession) (xs : List Segment)
    → Agreed x
    → get x.0 id ≡ some s
    → Leads x (
        require_closable request s.lifecycle >>= λ _.
        require_closer request s >>= λ _. close_by id s xs request)
unfolding require_closable require_closer close_by
closing-Leads (CloseSessionRequest.natural remark) id s xs agree found =
    Leads-fail_if _ _ _ λ opened.
      Leads-bind _ _ (Still-Quiet _ (search own_quiet)) λ _.
        close_or_recover-Leads agree id s found (unclosed_if_open _ opened) xs false false remark
closing-Leads (CloseSessionRequest.recover exclude remark) id s xs agree found =
    Leads-fail_if _ _ _ λ recovering.
      Leads-bind _ _ (Still-claim s (row_of id s agree found).1) λ _.
        close_or_recover-Leads agree id s found (unclosed_if_recovery _ recovering) xs exclude true
          remark
closing-Leads (CloseSessionRequest.abandon remark) id s xs agree found =
    Leads-fail_if _ _ _ λ unclosed.
      Leads-bind _ _ (Still-claim s (row_of id s agree found).1)
        λ _. abandon_session-Leads agree id s found unclosed xs remark

pub close_session-Agreeing :
    (id : Uuid) (request : CloseSessionRequest) → Agreeing (close_session id request)
unfolding close_session
close_session-Agreeing id request = Agreeing-write _ λ x agree.
    Leads-require_session id _ λ s found.
      Leads-bind _ _ (Still-Quiet _ (search own_quiet))
        λ xs. closing-Leads request id s xs agree found
