-- ===== src/Pipeline/Phases.antt =====
-- Sequences of the phases of src/pipeline/state_machine.rs.
use bilive_rec.Prelude.{◌≡◌, true, false, ◌⊎◌, inl, inr, Bool-cases, arith}
use bilive_rec.Pipeline.StateMachine.{RoomState, requires_active_session, can_transition_to}

-- Allowed changes in a row.
pub data Reaches (a : RoomState) : RoomState → Type 0 where
  here : Reaches a a
  next : {b : RoomState} (c : RoomState) → Reaches a b → can_transition_to b c ≡ true → Reaches a c

-- The path has a change from Resolving to Recording.
abbrev pub Starts : {a b : RoomState} → Reaches a b → Type 0
Starts here = ⊥
Starts (next {b} c p h) = Starts p ⊎ ((b ≡ RoomState.resolving) × (c ≡ RoomState.recording))

entry :
    (b c : RoomState)
    → can_transition_to b c ≡ true
    → requires_active_session b ≡ false
    → requires_active_session c ≡ true
    → (b ≡ RoomState.resolving) × (c ≡ RoomState.recording)
unfolding can_transition_to requires_active_session
entry b c h p q = ground arith

-- A room that gets, by allowed changes, from a phase without a recording session to one with a
-- session has been through the change from Resolving to Recording.
pub path-Starts :
    {a b : RoomState} (p : Reaches a b)
    → requires_active_session a ≡ false
    → requires_active_session b ≡ true
    → Starts p
path-Starts here h k = ground arith
path-Starts (next {b} c p step) h k = elim (Bool-cases (requires_active_session b)) [
  | inl active ↦ inl (path-Starts p h active)
  | inr idle ↦ inr (entry b c step idle k)
]
