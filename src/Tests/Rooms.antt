-- ===== src/Tests/Rooms.antt =====
-- The theorems of Rooms at the runs of Data.
use bilive_rec.Prelude.{ℕ, ◌≡◌, refl, some}
use bilive_rec.Model.Session.{is_closed}
use bilive_rec.Store.Table.{get}
use bilive_rec.Store.Keys.{id_key}
use bilive_rec.Transitions.Guards.{require_or_claim_recovery_owner}
use bilive_rec.Runs.Execute.{run, new_store}
use bilive_rec.Rooms.Owned.{Agree}
use bilive_rec.Rooms.Rules.{own}
use bilive_rec.Rooms.Reachable.{run-Agree, run-one_session, run-claim}
use bilive_rec.Tests.Data.{env, session, attempting, uploaded}
use bilive_rec.Tests.Play.{play}

found_session : get (run attempting env new_store).sessions 1 ≡ some session
unfolding play
found_session = refl

run-Agree_example :
    Agree (run uploaded env new_store).sessions (run uploaded env new_store).room_states
run-Agree_example = run-Agree uploaded env

run-one_session_example : ◌≡◌ {A = ℕ} 1 1
unfolding is_closed
run-one_session_example =
    run-one_session attempting env 1 1 session session found_session found_session refl refl refl

run-claim_example :
    own (require_or_claim_recovery_owner session env (run attempting env new_store)).1.tables
    ≡ own (run attempting env new_store).tables
run-claim_example = run-claim attempting env 1 session found_session
