-- ===== src/Risk/Examples.antt =====
-- The theorems of the risk context at concrete surfaces and instants.
use volengine.Base.{◌≤◌, ◌≡◌, ◌↔◌, ◌⊎◌, refl, [], ◌∷◌, none, some, true, arith}
use volengine.Base.Keys.{string_key}
use volengine.Base.Results.{ok}
use volengine.Base.Instants.{at, require_aware}
use volengine.Base.Fixed.{Fixed, fixed_float, Fixed-IsOrdered, millionths}
use volengine.Contracts.Surface.{
  CalibratedSurface, VolGrid, ok_status, every, vol_grid, calibrated_surface, positive_finite,
  smile_fits, require_all_aware,
}
use volengine.Risk.Freshness.{
  FreshnessPolicy, degraded, reject, freshness_policy, evaluate, judge_age,
}
use volengine.Risk.Freshness.Verdicts.{severity, Bands, evaluate-Bands, evaluate_worsens}
use volengine.Risk.SurfaceView.{
  SurfaceView, surface_view, variance_rows, view_fields, to_surface_view, starts_after,
}
use volengine.Risk.SurfaceView.Translation.{VariancesUsable, to_surface_view_total}
use volengine.Risk.SurfaceCache.{Cache, empty_cache, slots, for_producer, accept, latest}
use volengine.Risk.SurfaceCache.Slots.{for_producer-accept}
use volengine.Risk.SurfaceCache.Newest.{values, IsFirstNewest, latest-IsFirstNewest}

abbrev warn : Fixed
warn = millionths 10_000_000

abbrev limit : Fixed
limit = millionths 60_000_000

abbrev policy : FreshnessPolicy Fixed
policy = record { warn_seconds = warn; reject_seconds = limit }

policy_made : freshness_policy warn limit ≡ ok policy
unfolding freshness_policy
policy_made = refl

evaluate-Bands_example :
    (evaluate policy (at 0) (at 30_000_000) ≡ ok degraded)
    ↔ Bands Fixed-IsOrdered policy (millionths 30_000_000) degraded
evaluate-Bands_example =
    evaluate-Bands Fixed-IsOrdered warn limit policy policy_made (at 0) (at 30_000_000) degraded
      refl refl

evaluated : evaluate policy (at 0) (at 30_000_000) ≡ ok degraded
unfolding evaluate judge_age require_aware
evaluated = refl

evaluated_later : evaluate policy (at 0) (at 90_000_000) ≡ ok reject
unfolding evaluate judge_age require_aware
evaluated_later = refl

evaluate_worsens_example : severity degraded ≤ severity reject
evaluate_worsens_example =
    evaluate_worsens Fixed-IsOrdered warn limit policy policy_made (at 0) (at 30_000_000)
      (at 90_000_000) degraded reject (omega arith) evaluated evaluated_later

abbrev grid : VolGrid Fixed
grid = record {
  log_moneyness = millionths 0 ∷ millionths 100_000 ∷ [];
  tenors = millionths 250_000 ∷ [];
  expiries = at 900 ∷ [];
  forwards = millionths 100_000_000 ∷ [];
  vols = (millionths 500_000 ∷ millionths 520_000 ∷ []) ∷ [];
}

abbrev surface : CalibratedSurface Fixed
surface = record {
  surface_id = "s-1";
  source_snapshot_id = "m-1";
  market_id = "BTC";
  ts_snapshot = at 100;
  ts_calibrated = at 120;
  producer_id = "svi";
  grid = grid;
  fit = record {
    rmse_vol_bp = millionths 1_000_000;
    max_err_vol_bp = millionths 2_000_000;
    n_quotes_used = 12;
    n_iterations = 40;
    duration_ms = millionths 5_000_000;
  };
  status = ok_status;
  producer_meta = none;
  schema_version = 1;
}

grid_made : vol_grid grid ≡ ok grid
unfolding vol_grid require_all_aware positive_finite smile_fits require_aware
grid_made = refl

surface_made : calibrated_surface surface ≡ ok surface
unfolding calibrated_surface require_aware
surface_made = refl

tenors_positive : every positive_finite grid.tenors ≡ true
unfolding positive_finite
tenors_positive = refl

dated_after : starts_after surface.ts_snapshot grid.expiries ≡ true
unfolding starts_after
dated_after = refl

variances : VariancesUsable grid.tenors grid.vols
unfolding variance_rows positive_finite
variances = refl

to_surface_view_total_example : to_surface_view surface ≡ ok (view_fields surface)
to_surface_view_total_example =
    to_surface_view_total Fixed-IsOrdered surface grid_made surface_made tenors_positive dated_after
      variances

translated : to_surface_view surface ≡ ok (view_fields surface)
unfolding to_surface_view surface_view view_fields variance_rows positive_finite require_all_aware
    require_aware starts_after
translated = refl

for_producer-accept_example :
    for_producer (accept surface (at 130) (empty_cache {F = Fixed})).1 "BTC" "svi"
    ≡ some (view_fields surface)
for_producer-accept_example =
    for_producer-accept surface (at 130) (empty_cache {F = Fixed}) (view_fields surface) "BTC" "svi"
      translated

abbrev held : Cache Fixed
held = (accept surface (at 130) (empty_cache {F = Fixed})).1

latest-IsFirstNewest_example :
    ((latest held "BTC" ≡ none) × (values (slots held "BTC") ≡ []))
    ⊎ ((v : SurfaceView Fixed) × (latest held "BTC" ≡ some v)
        × IsFirstNewest v (values (slots held "BTC")))
latest-IsFirstNewest_example = latest-IsFirstNewest held "BTC"
