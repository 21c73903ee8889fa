-- ===== src/Risk/ReportExamples.antt =====
-- The report theorem at a book of which one position has expired.
use volengine.Base.{◌≡◌, refl, inl, inr, List, [], ◌∷◌, some, All, if◌then◌else◌}
use volengine.Base.Keys.{string_key}
use volengine.Base.Results.{Result, ok, err, expired_position}
use volengine.Base.Instants.{at, not_after}
use volengine.Base.Fixed.{Fixed, fixed_float, millionths}
use volengine.Risk.Freshness.{judge_age}
use volengine.Risk.SurfaceView.{SurfaceView}
use volengine.Risk.ComputeReport.{Position, PositionRisk, RiskReport, Wiring, call, compute}
use volengine.Risk.ComputeReport.Honest.{IsHonest, IsReportable, Values, compute-IsHonest}

abbrev pub spent : Position Fixed
spent = record {
  underlying = "BTC";
  expiry = at 50;
  strike = millionths 80_000_000;
  kind = call;
  quantity = millionths 1_000_000;
}

abbrev pub held : Position Fixed
held = record spent { expiry = at 900 }

abbrev book : List (Position Fixed)
book = spent ∷ held ∷ []

abbrev flat_value : SurfaceView Fixed → Position Fixed → Result (PositionRisk Fixed)
flat_value v p =
    if not_after p.expiry v.ts_snapshot
    then err expired_position
    else ok (record {
      position = p;
      vol = millionths 500_000;
      value = millionths 1_000;
      delta = millionths 500_000;
      gamma = millionths 1;
      vega = millionths 2;
    })

abbrev pub wiring : Wiring Fixed
wiring = record {
  book = book;
  policy = record { warn_seconds = millionths 10_000_000; reject_seconds = millionths 60_000_000 };
  expected_producer_id = "svi";
  value_of = flat_value;
  tenths = λ x. "0.1";
  instant_text = λ t. "2027-01-01";
}

abbrev pub view : SurfaceView Fixed
view = record {
  market_id = "BTC";
  producer_id = "svi";
  surface_id = "s-1";
  ts_snapshot = at 100;
  log_moneyness = millionths 0 ∷ [];
  tenors = millionths 250_000 ∷ [];
  expiries = at 900 ∷ [];
  forwards = millionths 79_000_000 ∷ [];
  total_variance = (millionths 62_500 ∷ []) ∷ [];
}

view-IsReportable : IsReportable view
view-IsReportable = record { named = refl; produced = refl; dated = refl }

book_valued : All (Values flat_value view) book
book_valued = (inr refl, (inl (_, refl), tt))

compute-IsHonest_example :
    (r : RiskReport Fixed) × ((compute wiring "BTC" (at 20_000_000) (some view) []).0 ≡ ok r)
    × IsHonest (judge_age wiring.policy (millionths 19_999_900)) view (at 20_000_000) r
compute-IsHonest_example =
    compute-IsHonest wiring "BTC" (at 20_000_000) view [] view-IsReportable refl book_valued
