-- ===== src/Tests/Inspection.antt =====
-- The report on the store of a run of Data.
use bilive_rec.Prelude.{◌≡◌, false, [], ◌∷◌, any}
use bilive_rec.Store.Table.{values}
use bilive_rec.Rooms.Reachable.{run-Agree}
use bilive_rec.Inspection.Anomalies.{FilePresence, inspect}
use bilive_rec.Inspection.Detect.{detect_anomalies}
use bilive_rec.Inspection.Owners.{is_mismatch, detect_anomalies-no_mismatch}
use bilive_rec.Tests.Data.{env, uploaded, uploaded_segment}
use bilive_rec.Tests.Play.{play}

detect_anomalies-no_mismatch_example :
    any is_mismatch (
      detect_anomalies
        (values (play uploaded).sessions)
        (uploaded_segment ∷ [])
        []
        (play uploaded).room_states
        []
        (inspect (λ p. FilePresence.missing) uploaded_segment ∷ []))
    ≡ false
unfolding play
detect_anomalies-no_mismatch_example =
    detect_anomalies-no_mismatch (play uploaded).sessions (play uploaded).room_states
      (uploaded_segment ∷ []) [] [] (inspect (λ p. FilePresence.missing) uploaded_segment ∷ [])
      (run-Agree uploaded env) (tt, tt) (tt, tt)
