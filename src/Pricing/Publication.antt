-- ===== src/Pricing/Publication.antt =====
-- volengine/parametric_pricing/application/acl.py: accepted slices as the published surface.
use volengine.Base.{ℕ, ◌+◌, String, ◌&&◌, Option, none, some, List, [], ◌∷◌, map, if◌then◌else◌}
use volengine.Base.Results.{Result, ok, err, key_error, attach, ◌>>=◌}
use volengine.Base.Instants.{Instant}
use volengine.Base.Floats.{Float, fmax, fmin}
use volengine.Base.Keys.{instant_key}
use volengine.Base.Dict.{Dict, get, put}
use volengine.Contracts.Surface.{
  CalibratedSurface, VolGrid, FitMetrics, SurfaceStatus, calibrated_surface, vol_grid, fit_metrics,
  every,
}
use volengine.Pricing.State.{SliceResult}
use volengine.Pricing.Calibration.{SliceTask, CalibrationTask}
use volengine.Pricing.Acl.{Numerics, GridSpec, nodes}

-- The identity and the stamp of a surface to publish.
pub record Label : Type 0 where
  pub producer_id : String
  pub surface_id : String
  pub ts_calibrated : Instant
  pub status : SurfaceStatus

module _ {F : Type 0} ⦃f : Float F⦄ {P : Type 0} (n : Numerics F P) where
  -- `tuple(fitted.params.implied_vol(k, fitted.tenor_years) for k in nodes)`
  unfoldable pub smile : SliceResult F P → List F → Result (List F)
  smile r [] = ok []
  smile r (k ∷ ks) = attach (n.smile_vol r.params k r.tenor_years) (smile r ks)

  -- The slices whose smile can be published, each with its smile.
  unfoldable pub rows : List F → List (SliceResult F P) → Result (List (SliceResult F P × List F))
  unfolding smile
  rows ks [] = ok []
  rows ks (r ∷ accepted) = do
    let later = rows ks accepted
    vols ← smile r ks
    rest ← later
    ok (
        if every (λ vol. f.is_finite vol && f.lt (f.of_ℕ 0) vol) vols
        then (r, vols) ∷ rest
        else rest)

  -- `{slice_task.expiry: slice_task.forward for slice_task in task.slices}`
  unfoldable pub forwards_of : List (SliceTask F) → Dict Instant F → Dict Instant F
  forwards_of [] d = d
  forwards_of (t ∷ slices) d = forwards_of slices (put d t.expiry t.forward)

  abbrev or_key_error : {A : Type 0} → Option A → Result A
  or_key_error none = err key_error
  or_key_error (some x) = ok x

  unfoldable pub forwards_at : Dict Instant F → List (SliceResult F P × List F) → Result (List F)
  forwards_at d [] = ok []
  forwards_at d ((r, vols) ∷ rest) = attach (or_key_error (get d r.expiry)) (forwards_at d rest)

  unfoldable pub quotes_used : List (SliceResult F P) → ℕ
  quotes_used [] = 0
  quotes_used (r ∷ rs) = r.n_quotes_used + quotes_used rs

  unfoldable pub worst_error : F → List (SliceResult F P) → F
  worst_error worst [] = worst
  worst_error worst (r ∷ rs) = worst_error (fmax worst r.max_err_vol_bp) rs

  -- `_to_fit_metrics`, of a published slice and the others
  unfoldable pub to_fit_metrics :
      SliceResult F P → List (SliceResult F P) → ℕ → F → Result (FitMetrics F)
  unfolding quotes_used worst_error
  to_fit_metrics r rs n_iterations duration_ms = do
    let n_quotes = quotes_used (r ∷ rs)
    let squares =
        map (λ (s : SliceResult F P). f.mul (f.of_ℕ s.n_quotes_used) (n.square s.rmse_vol_bp))
          (r ∷ rs)
    let pooled = n.sqrt (f.div (n.sum squares) (f.of_ℕ n_quotes))
    let worst = worst_error r.max_err_vol_bp rs
    fit_metrics (record {
      rmse_vol_bp = fmin pooled worst;
      max_err_vol_bp = worst;
      n_quotes_used = n_quotes;
      n_iterations = n_iterations;
      duration_ms = duration_ms;
    })

  abbrev pub results_of : List (SliceResult F P × List F) → List (SliceResult F P)
  results_of rs = map (λ (r : SliceResult F P × List F). r.0) rs

  -- `VolGrid(...)` of the rows
  unfoldable pub grid_of_rows :
      CalibrationTask F → GridSpec F → List (SliceResult F P × List F) → Result (VolGrid F)
  unfolding forwards_of forwards_at
  grid_of_rows task g rs = do
    forwards ← forwards_at (forwards_of task.slices []) rs
    vol_grid (record {
      log_moneyness = nodes g;
      tenors = map (λ (r : SliceResult F P). r.tenor_years) (results_of rs);
      expiries = map (λ (r : SliceResult F P). r.expiry) (results_of rs);
      forwards = forwards;
      vols = map (λ (r : SliceResult F P × List F). r.1) rs;
    })

  -- `CalibratedSurface(...)` of a grid and its metrics
  unfoldable pub labelled :
      CalibrationTask F → Label → VolGrid F → FitMetrics F → Result (Option (CalibratedSurface F))
  labelled task label grid fit = do
    surface ← calibrated_surface (record {
      surface_id = label.surface_id;
      source_snapshot_id = task.snapshot_id;
      market_id = task.market_id;
      ts_snapshot = task.ts_snapshot;
      ts_calibrated = label.ts_calibrated;
      producer_id = label.producer_id;
      grid = grid;
      fit = fit;
      status = label.status;
      producer_meta = none;
      schema_version = 1;
    })
    ok (some surface)

  unfoldable pub surface_of_rows :
      CalibrationTask F
      → GridSpec F
      → ℕ
      → F
      → Label
      → List (SliceResult F P × List F)
      → Result (Option (CalibratedSurface F))
  unfolding grid_of_rows to_fit_metrics labelled
  surface_of_rows task g n_iterations duration_ms label [] = ok none
  surface_of_rows task g n_iterations duration_ms label (row ∷ more) = do
    grid ← grid_of_rows task g (row ∷ more)
    fit ← to_fit_metrics row.0 (results_of more) n_iterations duration_ms
    labelled task label grid fit

  unfoldable pub to_calibrated_surface :
      CalibrationTask F
      → GridSpec F
      → List (SliceResult F P)
      → ℕ
      → F
      → Label
      → Result (Option (CalibratedSurface F))
  unfolding rows surface_of_rows
  to_calibrated_surface task g accepted n_iterations duration_ms label = do
    published ← rows (nodes g) accepted
    surface_of_rows task g n_iterations duration_ms label published
