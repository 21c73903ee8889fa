-- ===== src/Pricing/CalibrateOnSnapshot.antt =====
-- volengine/parametric_pricing/application/calibrate_on_snapshot.py: one snapshot handled. The
-- optimiser is a parameter, which may raise `CalibrationError` or something that nobody catches.
pub mod Outcomes
pub mod Answers
pub mod Session
use volengine.Base.{
  ℕ, String, Bool, true, false, not, ◌&&◌, ◌||◌, Option, none, some, List, [], ◌∷◌, ◌++◌, map, keep,
  length, ◌==◌, if◌then◌else◌,
}
use Prim.Native.String.{◌++◌ as followed_by}
use volengine.Base.Results.{Result, Error, ok, err, value_error, guard, ◌>>=◌, ◌>>◌}
use volengine.Base.Instants.{Instant, elapsed}
use volengine.Base.Floats.{Float, IsComparable}
use volengine.Base.Dict.{Dict}
use volengine.Platform.Metrics.{Measurement, Tags, counter, gauge, timing}
use volengine.Contracts.Surface.{
  CalibratedSurface, SurfaceStatus, ok_status, degraded_status, as_stale_republish,
}
use volengine.Contracts.Snapshot.{MarketSnapshot}
use volengine.Contracts.Events.{Event, CalibrationFailed, surface_calibrated, calibration_failed}
use volengine.Pricing.State.{SliceResult, CalibrationState, warm_start, accept, remember}
use volengine.Pricing.Calibration.{CalibrationTask, CalibrationResult, SliceTask}
use volengine.Pricing.Acl.{Numerics, Weighting, GridSpec, to_calibration_task}
use volengine.Pricing.Publication.{Label, to_calibrated_surface}

-- How a call of the calibrator ends: a result, a `CalibrationError` with its text, another exception.
pub data Attempt (F P : Type 0) : Type 0 where
  fitted : CalibrationResult F P → Attempt F P
  failed : String → Attempt F P
  broken : Error → Attempt F P

pub record Calibrator (F P : Type 0) : Type 0 where
  pub producer_id : String
  pub calibrate : Option (Dict Instant P) → CalibrationTask F → Attempt F P

pub record Acceptance (F : Type 0) : Type 0 where
  pub max_rmse_vol_bp : F

-- What the use case is wired to.
pub record Wiring (F P : Type 0) : Type 0 where
  pub numerics : Numerics F P
  pub calibrator : Calibrator F P
  pub weighting : Weighting F
  pub grid : GridSpec F
  pub acceptance : Acceptance F

-- The clock's readings of one call: at its start, after the fit, and at a refusal.
pub record Readings : Type 0 where
  pub started : Instant
  pub finished : Instant
  pub refused : Instant

-- What a call changes: the calibration state, and what was sent to the metrics.
pub record Producer (F P : Type 0) : Type 0 where
  pub state : CalibrationState F P
  pub log : List (Measurement F)

module _ {F : Type 0} where
  unfoldable pub republished : Option (CalibratedSurface F) → List (Event F)
  unfolding as_stale_republish
  republished none = []
  republished (some previous) = surface_calibrated (as_stale_republish previous) ∷ []

  unfoldable pub observe_refusal : Tags → Option (CalibratedSurface F) → List (Measurement F)
  observe_refusal tags none = counter "pricing.calibration.refused" 1 tags ∷ []
  observe_refusal tags (some previous) =
      counter "pricing.calibration.refused" 1 tags
      ∷ counter "pricing.surface.republished" 1 tags
      ∷ []

module _ {F : Type 0} ⦃f : Float F⦄ where
  unfoldable pub acceptance : Acceptance F → Result (Acceptance F)
  acceptance a = do
    guard (not (not (f.is_finite a.max_rmse_vol_bp) || f.le a.max_rmse_vol_bp (f.of_ℕ 0)))
        value_error
    ok a

  unfoldable pub duration_ms : Readings → F
  duration_ms t = f.mul (f.seconds (elapsed t.finished t.started)) (f.of_ℕ 1_000)

module _ {F P : Type 0} ⦃f : Float F⦄ where
  unfoldable pub accepts : Acceptance F → SliceResult F P → Bool
  accepts a r = r.converged && not r.at_bound && f.le r.rmse_vol_bp a.max_rmse_vol_bp

  -- `_status`
  unfoldable pub status_of_fit :
      MarketSnapshot F → List (SliceResult F P) → List (SliceResult F P) → SurfaceStatus
  status_of_fit s accepted attempted =
      if s.quality.degraded || not (length accepted == length attempted)
      then degraded_status
      else ok_status

  unfoldable pub tags_of : Wiring F P → MarketSnapshot F → Tags
  tags_of k s = ("market", s.market_id) ∷ ("producer", k.calibrator.producer_id) ∷ []

  unfoldable pub observe_slice : Acceptance F → Tags → SliceResult F P → List (Measurement F)
  observe_slice a tags r =
      if r.at_bound
      then counter "pricing.slice.at_bound" 1 tags ∷ []
      else if not r.converged
      then counter "pricing.slice.not_converged" 1 tags ∷ []
      else if f.lt a.max_rmse_vol_bp r.rmse_vol_bp
      then counter "pricing.slice.rmse_exceeded" 1 tags ∷ []
      else []

  unfoldable pub observe_slices :
      Acceptance F → Tags → List (SliceResult F P) → List (Measurement F)
  unfolding observe_slice
  observe_slices a tags [] = []
  observe_slices a tags (r ∷ rs) = observe_slice a tags r ++ observe_slices a tags rs

  -- `_observe_fit`
  unfoldable pub observe_fit :
      Wiring F P
      → MarketSnapshot F
      → List (SliceResult F P)
      → List (SliceResult F P)
      → List (Measurement F)
  unfolding observe_slices tags_of
  observe_fit k s attempted accepted =
      gauge "pricing.slices.attempted" (f.of_ℕ (length attempted)) (tags_of k s)
      ∷ gauge "pricing.slices.accepted" (f.of_ℕ (length accepted)) (tags_of k s)
      ∷ observe_slices k.acceptance (tags_of k s) attempted

  -- `_refuse`
  unfoldable pub refuse :
      Wiring F P
      → Readings
      → MarketSnapshot F
      → String
      → Producer F P
      → Result (List (Event F)) × Producer F P
  unfolding republished observe_refusal tags_of
  refuse k t s reason p = (
    ok (
        calibration_failed (record {
          market_id = s.market_id;
          source_snapshot_id = s.snapshot_id;
          producer_id = k.calibrator.producer_id;
          reason = reason;
          ts = t.refused;
        })
        ∷ republished p.state.last_good),
    record p { log = p.log ++ observe_refusal (tags_of k s) p.state.last_good },
  )

  unfoldable pub after_surface :
      Wiring F P
      → Readings
      → MarketSnapshot F
      → CalibrationTask F
      → List (SliceResult F P)
      → Producer F P
      → Result (Option (CalibratedSurface F))
      → Result (List (Event F)) × Producer F P
  unfolding refuse accept remember tags_of
  after_surface k t s task accepted p (err e) = (err e, p)
  after_surface k t s task accepted p (ok none) =
      refuse k t s "no accepted slice could be evaluated on the grid" p
  after_surface k t s task accepted p (ok (some surface)) = (
    ok (surface_calibrated surface ∷ []),
    record {
      state = remember surface (accept accepted (map (λ one. one.expiry) task.slices) p.state);
      log =
          p.log
          ++ gauge "pricing.rmse_vol_bp" surface.fit.rmse_vol_bp (tags_of k s)
            ∷ timing "pricing.cycle_ms" surface.fit.duration_ms (tags_of k s)
            ∷ [];
    },
  )

  -- The identity, the stamp and the status of the surface to publish.
  unfoldable pub label :
      Wiring F P
      → Readings
      → MarketSnapshot F
      → List (SliceResult F P)
      → List (SliceResult F P)
      → Label
  unfolding status_of_fit
  label k t s accepted attempted = record {
    producer_id = k.calibrator.producer_id;
    surface_id = followed_by s.snapshot_id (followed_by "/" k.calibrator.producer_id);
    ts_calibrated = t.finished;
    status = status_of_fit s accepted attempted;
  }

  unfoldable pub after_acceptance :
      Wiring F P
      → Readings
      → MarketSnapshot F
      → CalibrationTask F
      → CalibrationResult F P
      → List (SliceResult F P)
      → Producer F P
      → Result (List (Event F)) × Producer F P
  unfolding after_surface label duration_ms to_calibrated_surface
  after_acceptance k t s task result [] p = refuse k t s "no slice met the acceptance rule" p
  after_acceptance k t s task result (r ∷ rs) p = after_surface k t s task (r ∷ rs) p (
      to_calibrated_surface k.numerics task k.grid (r ∷ rs) result.n_iterations (duration_ms t)
        (label k t s (r ∷ rs) result.slices))

  unfoldable pub after_fit :
      Wiring F P
      → Readings
      → MarketSnapshot F
      → CalibrationTask F
      → Producer F P
      → Attempt F P
      → Result (List (Event F)) × Producer F P
  unfolding after_acceptance observe_fit accepts refuse
  after_fit k t s task p (broken e) = (err e, p)
  after_fit k t s task p (failed reason) = refuse k t s reason p
  after_fit k t s task p (fitted result) =
      let accepted = keep (accepts k.acceptance) result.slices in
      after_acceptance k t s task result accepted
        (record p { log = p.log ++ observe_fit k s result.slices accepted })

  unfoldable pub after_task :
      Wiring F P
      → Readings
      → MarketSnapshot F
      → Producer F P
      → Result (Option (CalibrationTask F))
      → Result (List (Event F)) × Producer F P
  unfolding after_fit warm_start refuse
  after_task k t s p (err e) = (err e, p)
  after_task k t s p (ok none) =
      refuse k t s "no quote in the snapshot admits an implied volatility" p
  after_task k t s p (ok (some task)) =
      after_fit k t s task p (k.calibrator.calibrate (warm_start p.state) task)

module _ {F P : Type 0} ⦃f : Float F⦄ ⦃c : IsComparable F⦄ where
  unfoldable pub handle :
      Wiring F P
      → Readings
      → MarketSnapshot F
      → Producer F P
      → Result (List (Event F)) × Producer F P
  unfolding after_task to_calibration_task
  handle k t s p = after_task k t s p (to_calibration_task k.numerics s k.weighting)
