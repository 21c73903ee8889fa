-- ===== src/Risk/SurfaceView.antt =====
-- volengine/risk/domain/surface_view.py (the class and its constructor), and `to_surface_view` of
-- volengine/risk/application/acl.py.
pub mod Translation
use volengine.Base.{
  String, Bool, true, false, not, ◌&&◌, ◌||◌, List, [], ◌∷◌, ◌==◌, length, map, if◌then◌else◌,
}
use volengine.Base.Results.{Result, ok, err, value_error, guard, ◌>>=◌, ◌>>◌}
use volengine.Base.Instants.{Instant, not_after, require_aware}
use volengine.Base.Floats.{Float}
use volengine.Base.Keys.{◌==◌ as same, string_key}
use volengine.Contracts.Surface.{
  CalibratedSurface, every, increasing, require_all_aware, positive_finite,
}

pub record SurfaceView (F : Type 0) : Type 0 where
  pub market_id : String
  pub producer_id : String
  pub surface_id : String
  pub ts_snapshot : Instant
  pub log_moneyness : List F
  pub tenors : List F
  pub expiries : List Instant
  pub forwards : List F
  pub total_variance : List (List F)

-- `self.expiries[0] <= self.ts_snapshot` refused; there is a first expiry where this is reached.
unfoldable pub starts_after : Instant → List Instant → Bool
starts_after ts [] = true
starts_after ts (first ∷ rest) = not (not_after first ts)

-- `near >= far` refused for instants
abbrev pub earlier : Instant → Instant → Bool
earlier near far = not (not_after far near)

module _ {F : Type 0} ⦃f : Float F⦄ where
  -- `near >= far` refused for floats
  abbrev pub ascends : F → F → Bool
  ascends near far = not (f.le far near)

  unfoldable pub surface_view : SurfaceView F → Result (SurfaceView F)
  surface_view v = do
    guard (not (same v.market_id "")) value_error
    guard (not (same v.producer_id "")) value_error
    guard (not (same v.surface_id "")) value_error
    require_aware v.ts_snapshot
    guard (not (length v.log_moneyness == 0)) value_error
    guard (not (length v.tenors == 0)) value_error
    guard (every f.is_finite v.log_moneyness) value_error
    guard (increasing ascends v.log_moneyness) value_error
    guard (every positive_finite v.tenors) value_error
    guard (increasing ascends v.tenors) value_error
    guard (length v.expiries == length v.tenors) value_error
    require_all_aware v.expiries
    guard (increasing earlier v.expiries) value_error
    guard (starts_after v.ts_snapshot v.expiries) value_error
    guard (length v.forwards == length v.tenors) value_error
    guard (every positive_finite v.forwards) value_error
    guard (length v.total_variance == length v.tenors) value_error
    guard
        (every (λ row. (length row == length v.log_moneyness) && every positive_finite row)
          v.total_variance)
        value_error
    ok v

  -- `tuple(vol * vol * tenor for vol in smile)`, per tenor. `zip(strict=True)` has nothing to refuse:
  -- the grid has one smile for each tenor.
  unfoldable pub variance_rows : List F → List (List F) → List (List F)
  variance_rows (tenor ∷ tenors) (smile ∷ vols) =
      map (λ vol. f.mul (f.mul vol vol) tenor) smile ∷ variance_rows tenors vols
  variance_rows _ _ = []

  -- The fields that `to_surface_view` copies and converts.
  unfoldable pub view_fields : CalibratedSurface F → SurfaceView F
  view_fields s = record {
    market_id = s.market_id;
    producer_id = s.producer_id;
    surface_id = s.surface_id;
    ts_snapshot = s.ts_snapshot;
    log_moneyness = s.grid.log_moneyness;
    tenors = s.grid.tenors;
    expiries = s.grid.expiries;
    forwards = s.grid.forwards;
    total_variance = variance_rows s.grid.tenors s.grid.vols;
  }

  unfoldable pub to_surface_view : CalibratedSurface F → Result (SurfaceView F)
  to_surface_view s = surface_view (view_fields s)
