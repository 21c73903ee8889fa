-- ===== src/Pricing/Black76.antt =====
-- volengine/parametric_pricing/domain/black76.py: the shared Black-76 in this context's words.
use volengine.Base.{Bool, true, false}
use volengine.Base.Results.{Result, ok, err, no_implied_vol, price_not_invertible}
use volengine.Base.Floats.{Float}
use volengine.Kernel.Elementary.{Elementary}
use volengine.Kernel.Black76.{
  price as kernel_price, vega as kernel_vega, implied_vol as kernel_implied_vol,
}

pub data OptionKindP : Type 0 where
  call put : OptionKindP

-- `kind is OptionKindP.CALL`
unfoldable pub is_call : OptionKindP → Bool
is_call call = true
is_call put = false

-- `PriceNotInvertibleError` is this context's `NoImpliedVolError`, and nothing else changes.
unfoldable pub renamed {ℓ} : {A : Type ℓ} → Result A → Result A
renamed (ok vol) = ok vol
renamed (err price_not_invertible) = err no_implied_vol
renamed (err e) = err e

module _ {F : Type 0} ⦃f : Float F⦄ (e : Elementary F) where
  unfoldable pub price : F → F → F → F → OptionKindP → F → Result F
  price forward strike tenor_years vol kind discount =
      kernel_price e forward strike tenor_years vol (is_call kind) discount

  unfoldable pub vega : F → F → F → F → F → Result F
  vega forward strike tenor_years vol discount =
      kernel_vega e forward strike tenor_years vol discount

  unfoldable pub implied_vol : F → F → F → F → OptionKindP → F → Result F
  unfolding renamed
  implied_vol target forward strike tenor_years kind discount =
      renamed (kernel_implied_vol e target forward strike tenor_years (is_call kind) discount)
