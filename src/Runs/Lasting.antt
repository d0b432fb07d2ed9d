-- ===== src/Runs/Lasting.antt =====
-- The uploads of a run that goes on.
use bilive_rec.Prelude.{◌≡◌, refl, ◌∙◌, ap, some, true, List}
use bilive_rec.Model.Segment.{Segment, UploadState, UploadedPart}
use bilive_rec.Store.Table.{get}
use bilive_rec.Store.Keys.{SegmentKey, segment_key}
use bilive_rec.Store.Txn.{Env, Db}
use bilive_rec.Segments.Step.{Actor, SegmentStep, Evolves}
use bilive_rec.Segments.Sound.{IsSound}
use bilive_rec.Segments.Keeps.{Has, Evolves-keeps}
use bilive_rec.Segments.Held.{is_held, step-held}
use bilive_rec.Segments.Grows.{Grows, Grows-refl, Grows-trans, step-Grows}
use bilive_rec.Runs.Command.{Command}
use bilive_rec.Runs.Execute.{run, new_store}
use bilive_rec.Runs.Effects.{run-Evolves, AllMayGive, all-MayGive}
use bilive_rec.Runs.Reachable.{run-IsSound, run-IsSorted, run-Fits}

module _ (cs : List Command) (env : Env) where
  abbrev reached : Db
  reached = run cs env new_store

  goes_on :
      {a : Actor} (ds : List Command)
      → AllMayGive a ds
      → Evolves a reached.segments (run ds env reached).segments
  goes_on ds by = run-Evolves ds by env reached (run-IsSorted cs env) (run-Fits cs env)

  run-keeps :
      {a : Actor} (ds : List Command) (P : Segment → Type 0)
      → ((s s' : Segment) → IsSound s → SegmentStep a s s' → P s → P s')
      → AllMayGive a ds
      → (k : SegmentKey) → Has P reached.segments k
      → Has P (run ds env reached).segments k
  run-keeps ds P keeps by k h =
      Evolves-keeps P keeps k (goes_on ds by) (run-Fits cs env) (run-IsSound cs env) h

  -- A segment that is Uploaded in a store that a run reaches keeps its proof, whatever transitions
  -- follow, an operator's decisions included.
  pub run-keeps_uploaded :
      (ds : List Command) (k : SegmentKey) (s : Segment) (proof : UploadedPart)
      → get reached.segments k ≡ some s
      → s.upload ≡ UploadState.uploaded proof
      → Has (λ t. t.upload ≡ UploadState.uploaded proof) (run ds env reached).segments k
  run-keeps_uploaded ds k s proof found at =
      run-keeps ds (λ t. t.upload ≡ UploadState.uploaded proof)
        (λ t t' v st u. step-held Actor.human t t' (ap (is_held Actor.human) u) v st ∙ u)
        (all-MayGive ds) k (s, found, at)

  -- An upload that is Uploaded, Ambiguous or Blocked in a store that a run reaches is left exactly as
  -- it is by all transitions that follow, as long as none of them is an operator's decision on an
  -- upload or an operator's abandoning of a session.
  pub run-keeps_undecided :
      (ds : List Command) (k : SegmentKey) (s : Segment)
      → AllMayGive Actor.program ds
      → get reached.segments k ≡ some s
      → is_held Actor.program s.upload ≡ true
      → Has (λ t. t.upload ≡ s.upload) (run ds env reached).segments k
  run-keeps_undecided ds k s by found held =
      run-keeps ds (λ t. t.upload ≡ s.upload)
        (λ t t' v st u. step-held Actor.program t t' (ap (is_held Actor.program) u ∙ held) v st ∙ u)
        by k (s, found, refl)

  -- The history of upload attempts of a segment only grows: after any further transitions it begins
  -- with the records that it had, and those that had an outcome are unchanged.
  pub run-Grows :
      (ds : List Command) (k : SegmentKey) (s : Segment)
      → get reached.segments k ≡ some s
      → Has (λ t. Grows s.upload_attempts t.upload_attempts) (run ds env reached).segments k
  run-Grows ds k s found =
      run-keeps ds (λ t. Grows s.upload_attempts t.upload_attempts)
        (λ t t' v st h. Grows-trans _ _ _ h (step-Grows t t' v st)) (all-MayGive ds) k
        (s, found, Grows-refl _)
