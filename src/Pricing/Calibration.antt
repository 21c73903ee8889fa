-- ===== src/Pricing/Calibration.antt =====
-- volengine/parametric_pricing/domain/calibration.py: the tasks and the results of a calibration, with
-- the checks of their constructors in their order.
use volengine.Base.{ℕ, String, Bool, true, not, ◌&&◌, ◌||◌, List, [], ◌∷◌, map, length, ltb, ◌==◌}
use volengine.Base.Results.{Result, ok, value_error, guard, ◌>>◌}
use volengine.Base.Instants.{Instant, require_aware}
use volengine.Base.Floats.{Float}
use volengine.Base.Keys.{◌==◌ as same, string_key, instant_key}
use volengine.Base.Dict.{member}
use volengine.Contracts.Surface.{increasing}
use volengine.Pricing.State.{SliceResult}

pub record SliceTask (F : Type 0) : Type 0 where
  pub expiry : Instant
  pub tenor_years : F
  pub forward : F
  pub log_moneyness : List F
  pub implied_vol : List F
  pub weights : List F

pub record CalibrationTask (F : Type 0) : Type 0 where
  pub market_id : String
  pub snapshot_id : String
  pub ts_snapshot : Instant
  pub slices : List (SliceTask F)

pub record CalibrationResult (F P : Type 0) : Type 0 where
  pub slices : List (SliceResult F P)
  pub n_iterations : ℕ
  pub duration_ms : F

-- `len(set(expiries)) == len(expiries)`
unfoldable pub unique : List Instant → Bool
unique [] = true
unique (t ∷ ts) = not (member t ts) && unique ts

module _ {F : Type 0} ⦃f : Float F⦄ where
  -- `_require_positive_finite` and `_require_non_negative_finite`
  unfoldable pub require_positive_finite : F → Result (Unit {0})
  require_positive_finite x = guard (not (not (f.is_finite x) || f.le x (f.of_ℕ 0))) value_error

  unfoldable pub require_non_negative_finite : F → Result (Unit {0})
  require_non_negative_finite x = guard (not (not (f.is_finite x) || f.lt x (f.of_ℕ 0))) value_error

  unfoldable pub require_each : (F → Result (Unit {0})) → List F → Result (Unit {0})
  require_each test [] = ok tt
  require_each test (x ∷ xs) = do test x; require_each test xs

  abbrev pub strictly_before : F → F → Bool
  strictly_before near far = not (f.le far near)

  -- `_require_ordered_by_tenor`, of the tenors and the expiries
  unfoldable pub require_ordered_by_tenor : List F → List Instant → Result (Unit {0})
  unfolding unique
  require_ordered_by_tenor tenors expiries = do
    guard (not (length tenors == 0)) value_error
    guard (increasing strictly_before tenors) value_error
    guard (unique expiries) value_error

  -- `SliceTask(...)`; `sum` is a parameter.
  unfoldable pub slice_task : (List F → F) → SliceTask F → Result (SliceTask F)
  unfolding require_positive_finite require_non_negative_finite require_each require_aware
  slice_task sum t = do
    require_aware t.expiry
    require_positive_finite t.tenor_years
    require_positive_finite t.forward
    guard
        ((length t.log_moneyness == length t.implied_vol)
          && (length t.implied_vol == length t.weights))
        value_error
    guard (not (length t.log_moneyness == 0)) value_error
    require_each (λ k. guard (f.is_finite k) value_error) t.log_moneyness
    require_each require_positive_finite t.implied_vol
    require_each require_non_negative_finite t.weights
    guard (not (f.le (sum t.weights) (f.of_ℕ 0))) value_error
    guard (increasing strictly_before t.log_moneyness) value_error
    ok t

  unfoldable pub calibration_task : CalibrationTask F → Result (CalibrationTask F)
  unfolding require_ordered_by_tenor require_aware
  calibration_task t = do
    guard (not (same t.market_id "")) value_error
    guard (not (same t.snapshot_id "")) value_error
    require_aware t.ts_snapshot
    require_ordered_by_tenor (map (λ one. one.tenor_years) t.slices)
        (map (λ one. one.expiry) t.slices)
    ok t

  module _ {P : Type 0} where
    unfoldable pub slice_result : SliceResult F P → Result (SliceResult F P)
    unfolding require_positive_finite require_non_negative_finite require_aware
    slice_result r = do
      require_aware r.expiry
      require_positive_finite r.tenor_years
      require_non_negative_finite r.rmse_vol_bp
      require_non_negative_finite r.max_err_vol_bp
      guard (not (f.lt r.max_err_vol_bp r.rmse_vol_bp)) value_error
      guard (not (ltb r.n_quotes_used 1)) value_error
      ok r

    -- The iteration count is a natural: its check has nothing to refuse.
    unfoldable pub calibration_result : CalibrationResult F P → Result (CalibrationResult F P)
    unfolding require_ordered_by_tenor require_non_negative_finite
    calibration_result r = do
      require_ordered_by_tenor (map (λ one. one.tenor_years) r.slices)
          (map (λ one. one.expiry) r.slices)
      require_non_negative_finite r.duration_ms
      ok r
