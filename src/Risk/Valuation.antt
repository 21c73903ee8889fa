-- ===== src/Risk/Valuation.antt =====
-- volengine/risk/domain/valuation.py and pricing.py: a position's value and its bumped sensitivities.
pub mod Expiry
use volengine.Base.{◌≡◌, refl, Bool, true, false, not, ◌&&◌, ◌||◌, if◌then◌else◌}
use volengine.Base.Results.{Result, ok, err, value_error, zero_division, guard, ◌>>=◌, ◌>>◌}
use volengine.Base.Floats.{Float, fmax}
use volengine.Kernel.Elementary.{Elementary}
use volengine.Kernel.Black76.{math_log, price as kernel_price}
use volengine.Risk.SurfaceView.{SurfaceView}
use volengine.Risk.Interpolation.{tenor_of, forward_at, implied_vol}
use volengine.Risk.ComputeReport.{
  OptionKindR, call, put, Position, PositionRisk, position_risk_made,
}

pub record BumpSpec (F : Type 0) : Type 0 where
  pub forward_rel : F
  pub vol_abs : F

-- `kind is OptionKindR.CALL`
unfoldable pub is_call : OptionKindR → Bool
is_call call = true
is_call put = false

module _ {F : Type 0} ⦃f : Float F⦄ where
  unfoldable pub bump_spec : BumpSpec F → Result (BumpSpec F)
  bump_spec b = do
    guard
        (f.is_finite b.forward_rel
          && (f.lt (f.of_ℕ 0) b.forward_rel && f.lt b.forward_rel (f.of_ℕ 1)))
        value_error
    guard (not (not (f.is_finite b.vol_abs) || f.le b.vol_abs (f.of_ℕ 0))) value_error
    ok b

  -- `a / b`, which refuses a zero divisor.
  unfoldable pub quotient : F → F → Result F
  quotient a b = if f.eq b (f.of_ℕ 0) then err zero_division else ok (f.div a b)

module _ {F : Type 0} ⦃f : Float F⦄ (e : Elementary F) where
  unfoldable pub price : F → F → F → F → OptionKindR → F → Result F
  unfolding is_call
  price forward strike tenor_years vol kind discount =
      kernel_price e forward strike tenor_years vol (is_call kind) discount

  -- `implied_vol(view, math.log(position.strike / forward), tenor_years)`
  unfoldable pub vol_at : SurfaceView F → Position F → F → F → Result F
  unfolding quotient
  vol_at v p forward tenor_years =
      quotient p.strike forward >>= λ ratio. math_log e ratio >>= λ k. implied_vol e v k tenor_years

  -- `_revalue`
  unfoldable pub revalue : SurfaceView F → Position F → F → F → F → Result F
  unfolding vol_at price
  revalue v p forward tenor_years discount = vol_at v p forward tenor_years >>= λ vol.
      price forward p.strike tenor_years vol p.kind discount

  unfoldable pub value : SurfaceView F → Position F → F → Result F
  unfolding revalue
  value v p discount = do
    tenor_years ← tenor_of v p.expiry
    forward ← forward_at e v tenor_years
    unit ← revalue v p forward tenor_years discount
    ok (f.mul p.quantity unit)

  -- The line of a position, of the prices about its point.
  unfoldable pub line_of : Position F → F → F → F → F → F → F → F → F → Result (PositionRisk F)
  unfolding quotient
  line_of p vol base step up down vega_up vega_down vol_span = do
    delta ← quotient (f.mul p.quantity (f.sub up down)) (f.mul (f.of_ℕ 2) step)
    gamma ←
        quotient (f.mul p.quantity (f.add (f.sub up (f.mul (f.of_ℕ 2) base)) down))
          (f.mul step step)
    vega ← quotient (f.mul p.quantity (f.sub vega_up vega_down)) vol_span
    position_risk_made (record {
      position = p;
      vol = vol;
      value = f.mul p.quantity base;
      delta = delta;
      gamma = gamma;
      vega = vega;
    })

  -- `position_risk` at the position's tenor and forward
  unfoldable pub bumped :
      SurfaceView F → Position F → BumpSpec F → F → F → F → F → Result (PositionRisk F)
  unfolding price revalue line_of
  bumped v p bumps discount tenor_years forward vol = do
    base ← price forward p.strike tenor_years vol p.kind discount
    let step = f.mul forward bumps.forward_rel in
        let vol_up = f.add vol bumps.vol_abs in
        let vol_down = fmax (f.sub vol bumps.vol_abs) (f.mul (f.ratio 1 1_000_000) vol) in
        do
          up ← revalue v p (f.add forward step) tenor_years discount
          down ← revalue v p (f.sub forward step) tenor_years discount
          vega_up ← price forward p.strike tenor_years vol_up p.kind discount
          vega_down ← price forward p.strike tenor_years vol_down p.kind discount
          line_of p vol base step up down vega_up vega_down (f.sub vol_up vol_down)

  unfoldable pub position_risk :
      BumpSpec F → F → SurfaceView F → Position F → Result (PositionRisk F)
  unfolding vol_at bumped
  position_risk bumps discount v p = do
    tenor_years ← tenor_of v p.expiry
    forward ← forward_at e v tenor_years
    vol ← vol_at v p forward tenor_years
    bumped v p bumps discount tenor_years forward vol
