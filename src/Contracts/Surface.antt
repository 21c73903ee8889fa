-- ===== src/Contracts/Surface.antt =====
-- volengine/contracts/calibrated_surface.py: the surface that both producers publish, with the checks
-- of its constructors in their order.
pub mod WireFormat
use volengine.Base.{
  ℕ, String, Bool, true, not, ◌&&◌, ◌||◌, Option, List, [], ◌∷◌, ◌==◌, leb, length,
}
use volengine.Base.Results.{Result, ok, value_error, guard, ◌>>◌}
use volengine.Base.Instants.{Instant, before, require_aware}
use volengine.Base.Floats.{Float}
use volengine.Base.Keys.{◌==◌ as same, string_key}

pub data SurfaceStatus : Type 0 where
  ok_status degraded_status stale_republish : SurfaceStatus

pub record VolGrid (F : Type 0) : Type 0 where
  pub log_moneyness : List F
  pub tenors : List F
  pub expiries : List Instant
  pub forwards : List F
  pub vols : List (List F)

pub record FitMetrics (F : Type 0) : Type 0 where
  pub rmse_vol_bp : F
  pub max_err_vol_bp : F
  pub n_quotes_used : ℕ
  pub n_iterations : ℕ
  pub duration_ms : F

-- Counts are naturals: the checks of `n_iterations` below zero have nothing to refuse.
pub record CalibratedSurface (F : Type 0) : Type 0 where
  pub surface_id : String
  pub source_snapshot_id : String
  pub market_id : String
  pub ts_snapshot : Instant
  pub ts_calibrated : Instant
  pub producer_id : String
  pub grid : VolGrid F
  pub fit : FitMetrics F
  pub status : SurfaceStatus
  pub producer_meta : Option (List (String × F))
  pub schema_version : ℕ

-- `all(p(x) for x in xs)`
abbrev pub every {ℓ} : {A : Type ℓ} → (A → Bool) → List A → Bool
every p [] = true
every p (x ∷ xs) = p x && every p xs

-- `all(a < b for a, b in pairwise(xs))`
abbrev pub increasing_from {ℓ} : {A : Type ℓ} → (A → A → Bool) → A → List A → Bool
increasing_from lt a [] = true
increasing_from lt a (b ∷ xs) = lt a b && increasing_from lt b xs

abbrev pub increasing {ℓ} : {A : Type ℓ} → (A → A → Bool) → List A → Bool
increasing lt [] = true
increasing lt (a ∷ xs) = increasing_from lt a xs

-- `for x in xs: require_aware(x)`
unfoldable pub require_all_aware : List Instant → Result (Unit {0})
unfolding require_aware
require_all_aware [] = ok tt
require_all_aware (t ∷ ts) = do require_aware t; require_all_aware ts

module _ {F : Type 0} ⦃f : Float F⦄ where
  -- `not math.isfinite(x) or x <= 0` refused
  unfoldable pub positive_finite : F → Bool
  positive_finite x = not (not (f.is_finite x) || f.le x (f.of_ℕ 0))

  -- one smile of the grid: its length, then each volatility
  unfoldable pub smile_fits : ℕ → List F → Bool
  unfolding positive_finite
  smile_fits n smile =
      (length smile == n) && every (λ vol. not (f.le vol (f.of_ℕ 0) || not (f.is_finite vol))) smile

  unfoldable pub vol_grid : VolGrid F → Result (VolGrid F)
  vol_grid g = do
    guard (not (length g.tenors == 0)) value_error
    guard (not (length g.log_moneyness == 0)) value_error
    guard (every f.is_finite g.log_moneyness) value_error
    guard (every f.is_finite g.tenors) value_error
    guard (increasing f.lt g.log_moneyness) value_error
    guard (increasing f.lt g.tenors) value_error
    guard (length g.tenors == length g.expiries) value_error
    guard (length g.tenors == length g.forwards) value_error
    require_all_aware g.expiries
    guard (increasing before g.expiries) value_error
    guard (every positive_finite g.forwards) value_error
    guard (length g.tenors == length g.vols) value_error
    guard (every (smile_fits (length g.log_moneyness)) g.vols) value_error
    ok g

  unfoldable pub fit_metrics : FitMetrics F → Result (FitMetrics F)
  fit_metrics m = do
    guard (not (f.lt m.rmse_vol_bp (f.of_ℕ 0) || not (f.is_finite m.rmse_vol_bp))) value_error
    guard (not (f.lt m.max_err_vol_bp (f.of_ℕ 0) || not (f.is_finite m.max_err_vol_bp))) value_error
    guard (not (f.lt m.max_err_vol_bp m.rmse_vol_bp)) value_error
    guard (not (leb m.n_quotes_used 0)) value_error
    guard (not (f.lt m.duration_ms (f.of_ℕ 0) || not (f.is_finite m.duration_ms))) value_error
    ok m

module _ {F : Type 0} where
  unfoldable pub calibrated_surface : CalibratedSurface F → Result (CalibratedSurface F)
  unfolding require_aware
  calibrated_surface s = do
    guard (not (same s.surface_id "")) value_error
    guard (not (same s.source_snapshot_id "")) value_error
    guard (not (same s.market_id "")) value_error
    guard (not (same s.producer_id "")) value_error
    require_aware s.ts_snapshot
    require_aware s.ts_calibrated
    guard (not (before s.ts_calibrated s.ts_snapshot)) value_error
    ok s

  -- `as_stale_republish`, of both producers' acl.py.
  unfoldable pub as_stale_republish : CalibratedSurface F → CalibratedSurface F
  as_stale_republish s = record s { status = stale_republish }
