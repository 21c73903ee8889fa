-- ===== src/Pricing/CalibrateOnSnapshot/Outcomes.antt =====
-- What a handled snapshot can come to, each outcome with its reason.
use volengine.Base.{String, ◌≡◌, ◌⊎◌, true, false, Option, none, some, List, [], ◌∷◌, map, length}
use volengine.Base.Results.{Result, Error, ok, err}
use volengine.Base.Instants.{Instant}
use volengine.Base.Floats.{Float, IsComparable}
use volengine.Contracts.Surface.{
  CalibratedSurface, ok_status, degraded_status, stale_republish, as_stale_republish,
}
use volengine.Contracts.Snapshot.{MarketSnapshot}
use volengine.Contracts.Events.{Event, CalibrationFailed, surface_calibrated, calibration_failed}
use volengine.Pricing.State.{SliceResult, CalibrationState, warm_start, accept, remember}
use volengine.Pricing.Calibration.{CalibrationTask, CalibrationResult}
use volengine.Pricing.Acl.{to_calibration_task}
use volengine.Pricing.Publication.{Label, to_calibrated_surface}
use volengine.Pricing.CalibrateOnSnapshot.{
  Attempt, fitted, failed, broken, Wiring, Readings, duration_ms,
}

-- A surface fitted to this snapshot, whose status is not that of a republication.
pub record IsFresh {F : Type 0} (s : MarketSnapshot F) (x : CalibratedSurface F) : Type 0 where
  pub own_source : x.source_snapshot_id ≡ s.snapshot_id
  pub own_status : ¬ (x.status ≡ stale_republish)

-- The slices that are published, out of those that were fitted, by the acceptance rule: a slice that
-- converged, off its bounds, with no more error than the limit.
pub data Sifted {F P : Type 0} ⦃f : Float F⦄ (limit : F)
    : List (SliceResult F P) → List (SliceResult F P) → Type 0 where
  none_left : Sifted limit [] []
  chosen :
      {r : SliceResult F P} {rs accepted : List (SliceResult F P)}
      → r.converged ≡ true
      → r.at_bound ≡ false
      → f.le r.rmse_vol_bp limit ≡ true
      → Sifted limit rs accepted
      → Sifted limit (r ∷ rs) (r ∷ accepted)
  left_out :
      {r : SliceResult F P} {rs accepted : List (SliceResult F P)}
      → (r.converged ≡ false) ⊎ ((r.at_bound ≡ true) ⊎ (f.le r.rmse_vol_bp limit ≡ false))
      → Sifted limit rs accepted
      → Sifted limit (r ∷ rs) accepted

module _ {F P : Type 0} ⦃f : Float F⦄ ⦃c : IsComparable F⦄ where
  -- The calibrator answered for the snapshot's task, from the warm starts before.
  pub record IsFit (k : Wiring F P) (s : MarketSnapshot F) (before : CalibrationState F P)
      (task : CalibrationTask F) (attempt : Attempt F P) : Type 0 where
    pub asked : to_calibration_task k.numerics s k.weighting ≡ ok (some task)
    pub told : k.calibrator.calibrate (warm_start before) task ≡ attempt

  -- A surface was asked for, of the slices that the rule accepts, of which there are some.
  pub record IsDrawn (k : Wiring F P) (t : Readings) (s : MarketSnapshot F)
      (before : CalibrationState F P) (task : CalibrationTask F) (result : CalibrationResult F P)
      (accepted : List (SliceResult F P)) (drawn : Result (Option (CalibratedSurface F)))
      : Type 0 where
    pub fit : IsFit k s before task (fitted result)
    pub sifted : Sifted k.acceptance.max_rmse_vol_bp result.slices accepted
    pub occupied : ¬ (accepted ≡ [])
    pub drawing :
        (l : Label) × (to_calibrated_surface k.numerics task k.grid accepted result.n_iterations
            (duration_ms t)
            l
          ≡ drawn)

  -- A surface that may be published for the snapshot, with the slices and the tasks to record. It is
  -- degraded where the snapshot is or where a slice was left out.
  pub record IsAccepted (k : Wiring F P) (t : Readings) (s : MarketSnapshot F)
      (before : CalibrationState F P) (x : CalibratedSurface F) (accepted : List (SliceResult F P))
      (live : List Instant) : Type 0 where
    pub task : CalibrationTask F
    pub result : CalibrationResult F P
    pub drawn : IsDrawn k t s before task result accepted (ok (some x))
    pub live_tasks : live ≡ map (λ one. one.expiry) task.slices
    pub judged :
        ((s.quality.degraded ≡ false)
          × (length accepted ≡ length result.slices)
          × (x.status ≡ ok_status))
        ⊎ (((s.quality.degraded ≡ true) ⊎ ¬ (length accepted ≡ length result.slices))
            × (x.status ≡ degraded_status))

  -- Why a snapshot is refused.
  pub data Refused (k : Wiring F P) (t : Readings) (s : MarketSnapshot F)
      (before : CalibrationState F P) : String → Type 0 where
    no_task :
        {reason : String}
        → to_calibration_task k.numerics s k.weighting ≡ ok none
        → Refused k t s before reason
    not_fitted :
        {reason : String} (task : CalibrationTask F)
        → IsFit k s before task (failed reason)
        → Refused k t s before reason
    none_accepted :
        {reason : String} (task : CalibrationTask F) (result : CalibrationResult F P)
        → IsFit k s before task (fitted result)
        → Sifted k.acceptance.max_rmse_vol_bp result.slices []
        → Refused k t s before reason
    none_drawn :
        {reason : String} (task : CalibrationTask F) (result : CalibrationResult F P)
        (accepted : List (SliceResult F P))
        → IsDrawn k t s before task result accepted (ok none)
        → Refused k t s before reason

  -- The failure that is published for a refusal.
  pub record IsReport (k : Wiring F P) (t : Readings) (s : MarketSnapshot F)
      (before : CalibrationState F P) (failure : CalibrationFailed) : Type 0 where
    pub own_market : failure.market_id ≡ s.market_id
    pub own_source : failure.source_snapshot_id ≡ s.snapshot_id
    pub own_producer : failure.producer_id ≡ k.calibrator.producer_id
    pub stamped : failure.ts ≡ t.refused
    pub because : Refused k t s before failure.reason

  -- What raised: the task, the calibrator or the surface.
  pub data Raised (k : Wiring F P) (t : Readings) (s : MarketSnapshot F)
      (before : CalibrationState F P) (e : Error) : Type 0 where
    in_task : to_calibration_task k.numerics s k.weighting ≡ err e → Raised k t s before e
    in_fit : (task : CalibrationTask F) → IsFit k s before task (broken e) → Raised k t s before e
    in_surface :
        (task : CalibrationTask F) (result : CalibrationResult F P)
        (accepted : List (SliceResult F P))
        → IsDrawn k t s before task result accepted (err e)
        → Raised k t s before e

  -- The possible answers to a snapshot, with the state before and after.
  pub data Answered (k : Wiring F P) (t : Readings) (s : MarketSnapshot F)
      (before : CalibrationState F P)
      : Result (List (Event F)) → CalibrationState F P → Type 0 where
    raised : {e : Error} → Raised k t s before e → Answered k t s before (err e) before
    calibrated :
        (x : CalibratedSurface F) (accepted : List (SliceResult F P)) (live : List Instant)
        → IsFresh s x
        → IsAccepted k t s before x accepted live
        → Answered k t s before
            (ok (surface_calibrated x ∷ []))
            (remember x (accept accepted live before))
    refused_alone :
        (failure : CalibrationFailed)
        → IsReport k t s before failure
        → before.last_good ≡ none
        → Answered k t s before (ok (calibration_failed failure ∷ [])) before
    refused_republished :
        (failure : CalibrationFailed) (previous : CalibratedSurface F)
        → IsReport k t s before failure
        → before.last_good ≡ some previous
        → Answered k t s before
            (ok
              (calibration_failed failure ∷ surface_calibrated (as_stale_republish previous) ∷ []))
            before
