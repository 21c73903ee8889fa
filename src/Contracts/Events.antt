-- ===== src/Contracts/Events.antt =====
-- volengine/contracts/events.py: what the bus carries.
use volengine.Base.{String, List}
use volengine.Base.Instants.{Instant}
use volengine.Contracts.Surface.{CalibratedSurface}
use volengine.Contracts.Snapshot.{MarketSnapshot}

pub record ChainCompositionChanged : Type 0 where
  pub market_id : String
  pub ts : Instant
  pub instruments : List String

pub record CalibrationFailed : Type 0 where
  pub market_id : String
  pub source_snapshot_id : String
  pub producer_id : String
  pub reason : String
  pub ts : Instant

-- `SnapshotReady` and `SurfaceCalibrated` wrap their payload.
pub data Event (F : Type 0) : Type 0 where
  snapshot_ready : MarketSnapshot F → Event F
  surface_calibrated : CalibratedSurface F → Event F
  chain_composition_changed : ChainCompositionChanged → Event F
  calibration_failed : CalibrationFailed → Event F
