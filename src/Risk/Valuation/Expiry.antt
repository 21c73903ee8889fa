-- ===== src/Risk/Valuation/Expiry.antt =====
-- A position is refused as expired exactly when it is.
use volengine.Base.{
  ◌-◌, ◌≡◌, refl, ◌↔◌, ◌⊎◌, inl, inr, Bool, true, false, not, ◌||◌, length, ◌==◌, Bool-cases,
}
use volengine.Base.Results.{err, value_error, expired_position}
use volengine.Base.Instants.{Instant, not_after, before, require_aware}
use volengine.Base.Floats.{Float}
use volengine.Kernel.Elementary.{Elementary}
use volengine.Kernel.Black76.{
  require_positive_finite, require_contract, math_log, price as kernel_price,
}
use volengine.Risk.SurfaceView.{SurfaceView}
use volengine.Risk.Interpolation.{
  bisect_right, forward_at, before_first, between_expiries, tenor_of,
}
use volengine.Risk.ComputeReport.{Position}
use volengine.Risk.Valuation.{
  BumpSpec, quotient, is_call, vol_at, revalue, line_of, bumped, position_risk,
}
use volengine.Risk.Refusals.{
  IsNumeric, raised-is_numeric, bind-IsNumeric, guard-IsNumeric, checked-IsNumeric, if-IsNumeric,
  nth-IsNumeric, nth_then, quotient-IsNumeric, position_risk_made-IsNumeric, math_log-IsNumeric,
  forward_at-IsNumeric, implied_vol-IsNumeric,
}

module _ {F : Type 0} ⦃f : Float F⦄ (e : Elementary F) where
  require_positive_finite-IsNumeric : (x : F) → IsNumeric (require_positive_finite e x)
  unfolding require_positive_finite
  require_positive_finite-IsNumeric x =
      checked-IsNumeric (not (not (f.is_finite x) || f.le x (f.of_ℕ 0)))

  require_contract-IsNumeric : (a b c d : F) → IsNumeric (require_contract e a b c d)
  unfolding require_contract
  require_contract-IsNumeric a b c d =
      bind-IsNumeric _ _ (require_positive_finite-IsNumeric a) (λ i.
        bind-IsNumeric _ _ (require_positive_finite-IsNumeric b) (λ j.
          bind-IsNumeric _ _ (require_positive_finite-IsNumeric c)
            (λ k. require_positive_finite-IsNumeric d)))

  kernel_price-IsNumeric :
      (forward strike tenor_years vol : F) (side : Bool) (discount : F)
      → IsNumeric (kernel_price e forward strike tenor_years vol side discount)
  unfolding kernel_price
  kernel_price-IsNumeric forward strike tenor_years vol side discount =
      bind-IsNumeric (require_contract e forward strike tenor_years discount) _
        (require_contract-IsNumeric forward strike tenor_years discount)
        (λ i.
          bind-IsNumeric (require_positive_finite e vol) _ (require_positive_finite-IsNumeric vol)
            (λ j. if-IsNumeric (f.eq (f.mul vol (e.sqrt tenor_years)) (f.of_ℕ 0)) _ _ tt (
              bind-IsNumeric (math_log e (f.div forward strike)) _ (math_log-IsNumeric e _)
                (λ r. tt))))

  vol_at-IsNumeric :
      (v : SurfaceView F) (p : Position F) (forward tenor_years : F)
      → IsNumeric (vol_at e v p forward tenor_years)
  unfolding vol_at
  vol_at-IsNumeric v p forward tenor_years =
      bind-IsNumeric (quotient p.strike forward) _ (quotient-IsNumeric p.strike forward) (λ ratio.
        bind-IsNumeric (math_log e ratio) _ (math_log-IsNumeric e ratio)
          (λ k. implied_vol-IsNumeric e v k tenor_years))

  revalue-IsNumeric :
      (v : SurfaceView F) (p : Position F) (forward tenor_years discount : F)
      → IsNumeric (revalue e v p forward tenor_years discount)
  unfolding revalue
  revalue-IsNumeric v p forward tenor_years discount =
      bind-IsNumeric (vol_at e v p forward tenor_years) _ (vol_at-IsNumeric v p forward tenor_years)
        (λ vol. kernel_price-IsNumeric forward p.strike tenor_years vol (is_call p.kind) discount)

  line_of-IsNumeric :
      (p : Position F) (vol base step up down vega_up vega_down span : F)
      → IsNumeric (line_of e p vol base step up down vega_up vega_down span)
  unfolding line_of
  line_of-IsNumeric p vol base step up down vega_up vega_down span =
      bind-IsNumeric _ _ (quotient-IsNumeric (f.mul p.quantity (f.sub up down)) _) (λ delta.
        bind-IsNumeric _ _
          (quotient-IsNumeric (f.mul p.quantity (f.add (f.sub up (f.mul (f.of_ℕ 2) base)) down)) _)
          (λ gamma.
            bind-IsNumeric _ _
              (quotient-IsNumeric (f.mul p.quantity (f.sub vega_up vega_down)) span)
              (λ vega. position_risk_made-IsNumeric (record {
                position = p;
                vol = vol;
                value = f.mul p.quantity base;
                delta = delta;
                gamma = gamma;
                vega = vega;
              }))))

  bumped-IsNumeric :
      (v : SurfaceView F) (p : Position F) (bumps : BumpSpec F)
      (discount tenor_years forward vol : F)
      → IsNumeric (bumped e v p bumps discount tenor_years forward vol)
  unfolding bumped
  bumped-IsNumeric v p bumps discount tenor_years forward vol =
      let side = is_call p.kind in
      bind-IsNumeric _ _ (kernel_price-IsNumeric forward p.strike tenor_years vol side discount)
        (λ base. bind-IsNumeric _ _ (revalue-IsNumeric v p _ tenor_years discount) (λ up.
          bind-IsNumeric _ _ (revalue-IsNumeric v p _ tenor_years discount) (λ down.
            bind-IsNumeric _ _ (kernel_price-IsNumeric forward p.strike tenor_years _ side discount)
              (λ a.
                bind-IsNumeric _ _
                  (kernel_price-IsNumeric forward p.strike tenor_years _ side discount)
                  (λ b. line_of-IsNumeric p vol base _ up down a b _)))))

  -- The tenor of what has not expired.
  tenor_of-IsNumeric :
      (v : SurfaceView F) (expiry : Instant)
      → not_after expiry v.ts_snapshot ≡ false
      → IsNumeric (tenor_of v expiry)
  unfolding tenor_of before_first between_expiries require_aware
  tenor_of-IsNumeric v expiry live =
      let index = bisect_right before v.expiries expiry in
      guard-IsNumeric expiry.aware _ (
        rw live (
          if-IsNumeric (index == 0) _ _
            (nth_then v.expiries 0 _ (λ a. nth_then v.tenors 0 _ (λ b. tt)))
            (if-IsNumeric (index == length v.expiries) _ _
              (nth-IsNumeric v.tenors (length v.tenors - 1))
              (nth_then v.expiries (index - 1) _ (λ a. nth_then v.expiries index _ (λ b.
                nth_then v.tenors (index - 1) _ (λ c. nth_then v.tenors index _ (λ d. tt))))))))

  pub position_risk-IsNumeric :
      (bumps : BumpSpec F) (discount : F) (v : SurfaceView F) (p : Position F)
      → not_after p.expiry v.ts_snapshot ≡ false
      → IsNumeric (position_risk e bumps discount v p)
  unfolding position_risk
  position_risk-IsNumeric bumps discount v p live =
      bind-IsNumeric (tenor_of v p.expiry) _ (tenor_of-IsNumeric v p.expiry live) (λ t.
        bind-IsNumeric (forward_at e v t) _ (forward_at-IsNumeric e v t) (λ forward.
          bind-IsNumeric (vol_at e v p forward t) _ (vol_at-IsNumeric v p forward t)
            (λ vol. bumped-IsNumeric v p bumps discount t forward vol)))

  tenor_of_expired :
      (v : SurfaceView F) (expiry : Instant)
      → expiry.aware ≡ true
      → not_after expiry v.ts_snapshot ≡ true
      → tenor_of v expiry ≡ err expired_position
  unfolding tenor_of require_aware
  tenor_of_expired v expiry aware gone = rw (aware, gone) refl

  tenor_of_naive :
      (v : SurfaceView F) (expiry : Instant)
      → expiry.aware ≡ false
      → tenor_of v expiry ≡ err value_error
  unfolding tenor_of require_aware
  tenor_of_naive v expiry naive = rw naive refl

  -- A position whose expiry carries a zone is refused as expired exactly when it expires at or before
  -- the surface's snapshot: no bump, lookup or price on the way raises that exception for one that is
  -- still alive.
  pub position_risk_expired :
      (bumps : BumpSpec F) (discount : F) (v : SurfaceView F) (p : Position F)
      → p.expiry.aware ≡ true
      → (position_risk e bumps discount v p ≡ err expired_position)
        ↔ (not_after p.expiry v.ts_snapshot ≡ true)
  unfolding position_risk
  position_risk_expired bumps discount v p aware = (
    λ h. elim (Bool-cases (not_after p.expiry v.ts_snapshot)) [
      | inl gone ↦ gone
      | inr live ↦
          absurd (cc (raised-is_numeric (position_risk-IsNumeric bumps discount v p live) h))
    ],
    λ gone. rw (tenor_of_expired v p.expiry aware gone) refl,
  )

  -- It raises what its arithmetic raises, or says that the position has expired.
  pub position_risk-Raises :
      (bumps : BumpSpec F) (discount : F) (v : SurfaceView F) (p : Position F)
      → IsNumeric (position_risk e bumps discount v p)
        ⊎ (position_risk e bumps discount v p ≡ err expired_position)
  unfolding position_risk
  position_risk-Raises bumps discount v p = elim (Bool-cases (not_after p.expiry v.ts_snapshot)) [
    | inr live ↦ inl (position_risk-IsNumeric bumps discount v p live)
    | inl gone ↦ elim (Bool-cases p.expiry.aware) [
      | inl aware ↦ inr (rw (tenor_of_expired v p.expiry aware gone) refl)
      | inr naive ↦ inl (rw (tenor_of_naive v p.expiry naive) refl)
    ]
  ]
