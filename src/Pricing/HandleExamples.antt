-- ===== src/Pricing/HandleExamples.antt =====
-- The theorems of a handled snapshot at a calibrator that refuses.
use volengine.Base.{false, none, some, [], ◌∷◌}
use volengine.Base.Results.{ok}
use volengine.Base.Instants.{at}
use volengine.Base.Fixed.{Fixed, fixed_float, Fixed-IsComparable, millionths}
use volengine.Contracts.Surface.{CalibratedSurface, ok_status}
use volengine.Contracts.Snapshot.{MarketSnapshot, call}
use volengine.Pricing.Acl.{Numerics}
use volengine.Pricing.CalibrateOnSnapshot.{Wiring, Readings, Producer, failed, handle}
use volengine.Pricing.CalibrateOnSnapshot.Outcomes.{Answered}
use volengine.Pricing.CalibrateOnSnapshot.Answers.{handle-Answered}
use volengine.Pricing.CalibrateOnSnapshot.Session.{Protocol, session, session-Protocol}

-- A flat market: the parameters of a slice are its volatility.
abbrev flat : Numerics Fixed Fixed
flat = record {
  sum = λ xs. millionths 1_000_000;
  sqrt = λ x. x;
  square = λ x. x;
  implied_vol = λ price forward strike tenor is_call. ok (millionths 500_000);
  vega = λ forward strike tenor vol. ok (millionths 1_000_000);
  smile_vol = λ vol k tenor. ok vol;
}

abbrev wiring : Wiring Fixed Fixed
wiring = record {
  numerics = flat;
  calibrator = record {
    producer_id = "svi";
    calibrate = λ warm task. failed "the optimiser gave up";
  };
  weighting = record {
    spread_scale = millionths 50_000;
    flagged_factor = millionths 100_000;
    unpaired_itm_factor = millionths 10_000;
  };
  grid = record { k_min = millionths 0; k_max = millionths 400_000; n_nodes = 3 };
  acceptance = record { max_rmse_vol_bp = millionths 50_000_000 };
}

abbrev readings : Readings
readings = record { started = at 20; finished = at 21; refused = at 22 }

abbrev snapshot : MarketSnapshot Fixed
snapshot = record {
  snapshot_id = "BTC:00000001";
  market_id = "BTC";
  ts_exchange = at 10;
  ts_local = at 12;
  underlying = "BTC";
  slices =
      record {
        expiry = at 900;
        tenor_years = millionths 250_000;
        forward = millionths 79_000_000;
        quotes =
            record {
              strike = millionths 80_000_000;
              kind = call;
              mid = millionths 51_000;
              spread_rel = millionths 39_000;
              age_seconds = millionths 2_000_000;
              flags = [];
              exchange_iv = none;
            }
            ∷ [];
        flags = [];
      }
      ∷ [];
  quality = record {
    coverage_ratio = millionths 500_000;
    max_age_seconds = millionths 2_000_000;
    n_quotes_admissible = 1;
    n_quotes_total = 1;
    forward_crosscheck_error = none;
    degraded = false;
  };
  schema_version = 1;
}

abbrev previous : CalibratedSurface Fixed
previous = record {
  surface_id = "BTC:00000000/svi";
  source_snapshot_id = "BTC:00000000";
  market_id = "BTC";
  ts_snapshot = at 5;
  ts_calibrated = at 6;
  producer_id = "svi";
  grid = record {
    log_moneyness = millionths 0 ∷ [];
    tenors = millionths 250_000 ∷ [];
    expiries = at 900 ∷ [];
    forwards = millionths 100_000_000 ∷ [];
    vols = (millionths 500_000 ∷ []) ∷ [];
  };
  fit = record {
    rmse_vol_bp = millionths 1_000_000;
    max_err_vol_bp = millionths 2_000_000;
    n_quotes_used = 12;
    n_iterations = 40;
    duration_ms = millionths 5_000_000;
  };
  status = ok_status;
  producer_meta = none;
  schema_version = 1;
}

abbrev warmed : Producer Fixed Fixed
warmed = record { state = record { warm = []; last_good = some previous }; log = [] }

handle-Answered_example :
    let after = handle ⦃c = Fixed-IsComparable⦄ wiring readings snapshot warmed in
    Answered ⦃c = Fixed-IsComparable⦄ wiring readings snapshot warmed.state after.0 after.1.state
handle-Answered_example = handle-Answered ⦃c = Fixed-IsComparable⦄ wiring readings snapshot warmed

session-Protocol_example :
    let after =
      session ⦃c = Fixed-IsComparable⦄ wiring
        ((readings, snapshot) ∷ (readings, snapshot) ∷ [])
        warmed in
    Protocol (some previous) after.0 after.1.state.last_good
session-Protocol_example =
    session-Protocol ⦃c = Fixed-IsComparable⦄ wiring
      ((readings, snapshot) ∷ (readings, snapshot) ∷ []) warmed
