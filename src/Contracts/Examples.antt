-- ===== src/Contracts/Examples.antt =====
-- The wire formats at a concrete spelling of instants.
use Prim.Native.Char.{code}
use Prim.Native.String.{count}
use text.Mathlib.TextLemmas.{length-cons}
use volengine.Base.{
  ℕ, zero, suc, ◌≡◌, refl, ap, ◌∙◌, Bool, true, false, String, none, some, [], ◌∷◌, ◌==◌, arith,
  if◌then◌else◌,
}
use volengine.Base.Results.{Result, ok, err, value_error}
use volengine.Base.Instants.{Instant, at, require_aware}
use volengine.Base.Fixed.{Fixed, fixed_float, millionths}
use volengine.Contracts.Wire.{Iso, IsIso}
use volengine.Contracts.Surface.{
  CalibratedSurface, VolGrid, ok_status, vol_grid, fit_metrics, calibrated_surface,
  require_all_aware, positive_finite, smile_fits,
}
use volengine.Contracts.Surface.WireFormat.{
  surface_to_dict, surface_from_dict, surface_from_dict-surface_to_dict,
}
use volengine.Contracts.Snapshot.{
  MarketSnapshot, SliceData, QuoteData, call, stale, market_snapshot, slice_data, quote_data,
  quality_block, usable, absent_or_not_negative,
}
use volengine.Contracts.Snapshot.WireFormat.{
  IsBuilt, snapshot_to_dict, snapshot_from_dict, snapshot_from_dict-snapshot_to_dict,
}

-- Instants in unary, behind a mark for the zone.
abbrev ones : ℕ → String
ones zero = String.[]
ones (suc n) = String.◌∷◌ "1" (ones n)

count-ones : (n : ℕ) → count (ones n) ≡ n
count-ones zero = refl
count-ones (suc n) = length-cons "1" (ones n) ∙ ap suc (count-ones n)

abbrev unary_parse : String → Result Instant
unary_parse String.[] = err value_error
unary_parse (String.◌∷◌ c s) = ok (record { aware = code c == 65; micros = count s })

abbrev pub unary : Iso
unary = record {
  format = λ t. String.◌∷◌ (if t.aware then "A" else "N") (ones t.micros);
  parse = unary_parse;
}

unary_back :
    (b : Bool) (n : ℕ)
    → unary.parse (unary.format (record { aware = b; micros = n }))
      ≡ ok (record { aware = b; micros = n })
unary_back true n = rw (count-ones n) refl
unary_back false n = rw (count-ones n) refl

pub unary-IsIso : IsIso unary
unary-IsIso = record { parse-format = λ t. unary_back t.aware t.micros }

abbrev grid : VolGrid Fixed
grid = record {
  log_moneyness = millionths 0 ∷ millionths 100_000 ∷ [];
  tenors = millionths 250_000 ∷ [];
  expiries = at 900 ∷ [];
  forwards = millionths 100_000_000 ∷ [];
  vols = (millionths 500_000 ∷ millionths 520_000 ∷ []) ∷ [];
}

abbrev surface : CalibratedSurface Fixed
surface = record {
  surface_id = "m-1/svi";
  source_snapshot_id = "m-1";
  market_id = "BTC";
  ts_snapshot = at 100;
  ts_calibrated = at 120;
  producer_id = "svi";
  grid = grid;
  fit = record {
    rmse_vol_bp = millionths 1_000_000;
    max_err_vol_bp = millionths 2_000_000;
    n_quotes_used = 12;
    n_iterations = 40;
    duration_ms = millionths 5_000_000;
  };
  status = ok_status;
  producer_meta = some (("loss", millionths 7) ∷ []);
  schema_version = 1;
}

grid_made : vol_grid grid ≡ ok grid
unfolding vol_grid require_all_aware positive_finite smile_fits require_aware
grid_made = refl

fit_made : fit_metrics surface.fit ≡ ok surface.fit
unfolding fit_metrics
fit_made = refl

surface_made : calibrated_surface surface ≡ ok surface
unfolding calibrated_surface require_aware
surface_made = refl

surface_from_dict-surface_to_dict_example :
    surface_from_dict unary (surface_to_dict unary surface) ≡ ok surface
surface_from_dict-surface_to_dict_example =
    surface_from_dict-surface_to_dict unary unary-IsIso surface surface_made grid_made fit_made
      (omega arith)

abbrev quoted : QuoteData Fixed
quoted = record {
  strike = millionths 80_000_000_000;
  kind = call;
  mid = millionths 51_000;
  spread_rel = millionths 39_000;
  age_seconds = millionths 2_000_000;
  flags = stale ∷ [];
  exchange_iv = none;
}

abbrev part : SliceData Fixed
part = record {
  expiry = at 900;
  tenor_years = millionths 250_000;
  forward = millionths 79_000_000_000;
  quotes = quoted ∷ [];
  flags = [];
}

abbrev snapshot : MarketSnapshot Fixed
snapshot = record {
  snapshot_id = "BTC:00000001";
  market_id = "BTC";
  ts_exchange = at 10;
  ts_local = at 12;
  underlying = "BTC";
  slices = part ∷ [];
  quality = record {
    coverage_ratio = millionths 500_000;
    max_age_seconds = millionths 2_000_000;
    n_quotes_admissible = 0;
    n_quotes_total = 1;
    forward_crosscheck_error = some (millionths 3);
    degraded = false;
  };
  schema_version = 1;
}

snapshot-IsBuilt : IsBuilt unary snapshot
unfolding market_snapshot slice_data quote_data quality_block usable absent_or_not_negative
    require_aware
snapshot-IsBuilt = record { whole = refl; parts = ((refl, (refl, tt)), tt); rated = refl }

snapshot_from_dict-snapshot_to_dict_example :
    snapshot_from_dict unary (snapshot_to_dict unary snapshot) ≡ ok snapshot
snapshot_from_dict-snapshot_to_dict_example =
    snapshot_from_dict-snapshot_to_dict unary unary-IsIso snapshot snapshot-IsBuilt (omega arith)
