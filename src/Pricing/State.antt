-- ===== src/Pricing/State.antt =====
-- volengine/parametric_pricing/application/calibration_state.py. The five SVI parameters of a slice
-- are a parameter `P`: this class keeps them and never reads them.
pub mod WarmStart
use volengine.Base.{ℕ, Bool, true, false, Option, none, some, List, [], ◌∷◌, if◌then◌else◌}
use volengine.Base.Instants.{Instant}
use volengine.Base.Keys.{instant_key}
use volengine.Base.Dict.{Dict, put, restrict, member}
use volengine.Contracts.Surface.{CalibratedSurface}

-- `SliceResult`, its fields. What its constructor refuses is not modelled here.
pub record SliceResult (F P : Type 0) : Type 0 where
  pub expiry : Instant
  pub tenor_years : F
  pub params : P
  pub rmse_vol_bp : F
  pub max_err_vol_bp : F
  pub n_quotes_used : ℕ
  pub converged : Bool
  pub at_bound : Bool

pub record CalibrationState (F P : Type 0) : Type 0 where
  pub warm : Dict Instant P
  pub last_good : Option (CalibratedSurface F)

module _ {F P : Type 0} where
  abbrev pub initial : CalibrationState F P
  initial = record { warm = []; last_good = none }

  -- `warm_start`: `None` for an empty history
  unfoldable pub warm_start : CalibrationState F P → Option (Dict Instant P)
  warm_start s = elim s.warm [ [] ↦ none | e ∷ d ↦ some (e ∷ d) ]

  -- `self._warm_start[fitted.expiry] = fitted.params`, for each accepted slice
  unfoldable pub record_all : List (SliceResult F P) → Dict Instant P → Dict Instant P
  record_all [] d = d
  record_all (r ∷ rs) d = record_all rs (put d r.expiry r.params)

  unfoldable pub accept :
      List (SliceResult F P) → List Instant → CalibrationState F P → CalibrationState F P
  unfolding record_all
  accept accepted live_expiries s = record s {
    warm = record_all accepted (restrict (λ expiry. member expiry live_expiries) s.warm);
  }

  unfoldable pub remember : CalibratedSurface F → CalibrationState F P → CalibrationState F P
  remember surface s = record s { last_good = some surface }
