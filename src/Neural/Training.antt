-- ===== src/Neural/Training.antt =====
-- volengine/neural_surface: `TrainingSample` of domain/training_batch.py, and the state that a training
-- cycle keeps, application/training_state.py. The trained network is a parameter `L`: this class keeps
-- it and never reads it.
pub mod Restarts
use volengine.Base.{Bool, true, false, not, ◌||◌, Option, none, some}
use volengine.Base.Results.{Result, ok, err, value_error, guard, ◌>>=◌, ◌>>◌}
use volengine.Base.Instants.{Instant, elapsed, require_aware}
use volengine.Base.Floats.{Float}
use volengine.Contracts.Surface.{CalibratedSurface}

pub record TrainingSample (F : Type 0) : Type 0 where
  pub log_moneyness : F
  pub tenor_years : F
  pub implied_vol : F
  pub weight : F
  pub ts_observed : Instant

-- `TrainingSample(...)` with its `__post_init__`.
module _ {F : Type 0} ⦃f : Float F⦄ where
  unfoldable pub training_sample : TrainingSample F → Result (TrainingSample F)
  training_sample s = do
    guard (f.is_finite s.log_moneyness) value_error
    guard (not (not (f.is_finite s.tenor_years) || f.le s.tenor_years (f.of_ℕ 0))) value_error
    guard (not (not (f.is_finite s.implied_vol) || f.le s.implied_vol (f.of_ℕ 0))) value_error
    guard (not (not (f.is_finite s.weight) || f.lt s.weight (f.of_ℕ 0))) value_error
    require_aware s.ts_observed
    ok s

pub record TrainingState (F L : Type 0) : Type 0 where
  pub surface : Option L
  pub last_published : Option (CalibratedSurface F)
  pub last_restart : Option Instant

-- `if self._last_restart is None: self._last_restart = now`
unfoldable pub first_or : Option Instant → Instant → Option Instant
first_or none now = some now
first_or (some t) now = some t

module _ {F L : Type 0} where
  abbrev pub untrained : TrainingState F L
  untrained = record { surface = none; last_published = none; last_restart = none }

  unfoldable pub trained : L → Instant → TrainingState F L → TrainingState F L
  unfolding first_or
  trained surface now s = record s {
    surface = some surface;
    last_restart = first_or s.last_restart now;
  }

  unfoldable pub remember : CalibratedSurface F → TrainingState F L → TrainingState F L
  remember published s = record s { last_published = some published }

  unfoldable pub restarted : Instant → TrainingState F L → TrainingState F L
  restarted now s = record s { last_restart = some now }

module _ {F L : Type 0} ⦃f : Float F⦄ where
  unfoldable pub is_restart_due : TrainingState F L → Instant → Option F → Bool
  is_restart_due s now none = false
  is_restart_due s now (some restart_seconds) = elim s.last_restart [
    | none ↦ false
    | some last ↦ f.le restart_seconds (f.seconds (elapsed now last))
  ]
