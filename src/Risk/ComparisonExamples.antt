-- ===== src/Risk/ComparisonExamples.antt =====
-- The valuation and the comparison at a cache that holds two producers' surfaces.
use volengine.Base.{◌≡◌, ◌↔◌, refl, true, [], ◌∷◌}
use volengine.Base.Results.{err, expired_position}
use volengine.Base.Instants.{at, not_after}
use volengine.Base.Fixed.{Fixed, fixed_float, Fixed-IsComparable, Fixed-IsOrdered, millionths}
use volengine.Kernel.Examples.{tangents}
use volengine.Risk.Refusals.{IsNumeric}
use volengine.Risk.SurfaceCache.{Cache}
use volengine.Risk.Interpolation.{bracket}
use volengine.Risk.Interpolation.Bracket.{Bracketed, bracket-Bracketed}
use volengine.Risk.ComputeReport.{PositionRisk}
use volengine.Risk.ReportExamples.{spent, held, wiring, view}
use volengine.Risk.Valuation.{BumpSpec, position_risk}
use volengine.Risk.Valuation.Expiry.{position_risk_expired}
use volengine.Risk.Comparison.{compare, pair_lines}
use volengine.Risk.Comparison.Pairing.{Paired, pair_lines-Paired}
use volengine.Risk.Comparison.Reported.{compare-IsNumeric}

abbrev bumps : BumpSpec Fixed
bumps = record { forward_rel = millionths 10_000; vol_abs = millionths 10_000 }

position_risk_expired_example :
    (position_risk tangents bumps (millionths 1_000_000) view spent ≡ err expired_position)
    ↔ (not_after spent.expiry view.ts_snapshot ≡ true)
position_risk_expired_example =
    position_risk_expired tangents bumps (millionths 1_000_000) view spent refl

abbrev cache : Cache Fixed
cache = record {
  by_market = ("BTC", ("svi", view) ∷ ("neural", record view { producer_id = "neural" }) ∷ []) ∷ [];
  log = [];
}

compare-IsNumeric_example :
    IsNumeric
      (compare tangents
        (record wiring { value_of = position_risk tangents bumps (millionths 1_000_000) })
        cache
        "BTC"
        (at 200)
        (at 201)
        "svi"
        "neural"
        []).0
compare-IsNumeric_example =
    compare-IsNumeric tangents wiring bumps (millionths 1_000_000) cache "BTC" (at 200) (at 201)
      "svi" "neural" []

abbrev line : PositionRisk Fixed
line = record {
  position = held;
  vol = millionths 500_000;
  value = millionths 1_000;
  delta = millionths 500_000;
  gamma = millionths 1;
  vega = millionths 2;
}

abbrev other_line : PositionRisk Fixed
other_line = record line { position = spent }

pair_lines-Paired_example :
    Paired Fixed-IsComparable
      (line ∷ other_line ∷ [])
      (other_line ∷ line ∷ [])
      (pair_lines (line ∷ other_line ∷ []) (other_line ∷ line ∷ []))
pair_lines-Paired_example =
    pair_lines-Paired Fixed-IsComparable (line ∷ other_line ∷ []) (other_line ∷ line ∷ [])

bracket-Bracketed_example :
    Bracketed
      (millionths 100 ∷ millionths 200 ∷ millionths 400 ∷ [])
      (millionths 300)
      (bracket (millionths 100 ∷ millionths 200 ∷ millionths 400 ∷ []) (millionths 300))
bracket-Bracketed_example =
    bracket-Bracketed Fixed-IsOrdered (millionths 100) (millionths 200 ∷ millionths 400 ∷ [])
      (millionths 300) refl refl
