-- ===== src/Runs/Reachable.antt =====
-- The segments of the stores that a run reaches.
use bilive_rec.Prelude.{ℕ, ◌≡◌, ◌↔◌, List, [], some}
use bilive_rec.Model.Segment.{Segment}
use bilive_rec.Store.Table.{Each, get}
use bilive_rec.Store.Keys.{segment_key}
use bilive_rec.Store.Range.{range_scan}
use bilive_rec.Store.Scan.{Lists, range_scan-get}
use bilive_rec.Store.Sorted.{IsSorted, Fits}
use bilive_rec.Store.Txn.{Env}
use bilive_rec.Segments.Step.{Actor, Evolves}
use bilive_rec.Segments.Keys.{Evolves-IsSorted, Evolves-Fits}
use bilive_rec.Segments.Sound.{IsSound}
use bilive_rec.Segments.SoundSteps.{Evolves-IsSound}
use bilive_rec.Runs.Command.{Command}
use bilive_rec.Runs.Execute.{run, new_store}
use bilive_rec.Runs.Effects.{run-Evolves, all-MayGive}

module _ (cs : List Command) (env : Env) where
  reached : Evolves Actor.human [] (run cs env new_store).segments
  reached = run-Evolves cs (all-MayGive cs) env new_store tt tt

  pub run-IsSorted : IsSorted (run cs env new_store).segments
  run-IsSorted = Evolves-IsSorted reached tt

  pub run-Fits : Each Fits (run cs env new_store).segments
  run-Fits = Evolves-Fits reached tt

  -- Whatever transitions run, in whatever order and with whatever arguments, every segment that is
  -- stored afterwards is sound.
  pub run-IsSound : Each (λ k s. IsSound s) (run cs env new_store).segments
  run-IsSound = Evolves-IsSound reached tt

  -- In every store that a run reaches, the scan of a session's key range lists a segment exactly if
  -- it is stored under the session's identifier and some index.
  pub run-Lists :
      (session_id : ℕ) (s : Segment)
      → Lists s (range_scan session_id (run cs env new_store).segments)
        ↔ ((i : ℕ) × (get (run cs env new_store).segments (session_id, i) ≡ some s))
  run-Lists session_id s = range_scan-get session_id _ s run-IsSorted run-Fits
