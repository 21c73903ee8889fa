-- ===== src/Kernel/Black76/Solver.antt =====
-- The solver of Black-76: its bracket straddles the target, and what it answers is inside.
use volengine.Base.{◌≡◌, refl, Bool, true, false, not, ◌||◌, inl, inr, if◌then◌else◌, Bool-cases}
use volengine.Base.Results.{ok}
use volengine.Base.Floats.{Float, IsOrdered, lt-not_le, not_le-lt}
use volengine.Kernel.Elementary.{Elementary}
use volengine.Kernel.Black76.{
  require_positive_finite, require_contract, intrinsic, ceiling, price, vega, math_log, midpoint,
  highest, first_guess, implied_vol, tolerance,
}
use volengine.Kernel.Black76.Search.{IsBisecting, Found, begin}
use volengine.Kernel.Black76.Bisection.{IsInside, rounds-Found}

module _ {F : Type 0} ⦃f : Float F⦄ (e : Elementary F) where
  require_positive_finite-ok :
      (laws : IsOrdered F) (x : F)
      → f.lt (f.of_ℕ 0) x ≡ true
      → f.is_finite x ≡ true
      → require_positive_finite e x ≡ ok tt
  unfolding require_positive_finite
  require_positive_finite-ok laws x positive finite =
      rw (finite, lt-not_le laws (f.of_ℕ 0) x positive) refl

  math_log-ok : (x : F) → f.le x (f.of_ℕ 0) ≡ false → math_log e x ≡ ok (f.ln x)
  unfolding math_log
  math_log-ok x h = rw h refl

  -- Under a contract that was checked, a positive finite volatility has a price and a vega.
  priced_at :
      (laws : IsOrdered F) (forward strike tenor_years : F) (is_call : Bool) (discount vol : F)
      → require_contract e forward strike tenor_years discount ≡ ok tt
      → f.le (f.div forward strike) (f.of_ℕ 0) ≡ false
      → f.lt (f.of_ℕ 0) vol ≡ true
      → f.is_finite vol ≡ true
      → ((w : F) × (price e forward strike tenor_years vol is_call discount ≡ ok w))
        × ((s : F) × (vega e forward strike tenor_years vol discount ≡ ok s))
  unfolding price vega
  priced_at laws forward strike tenor_years is_call discount vol contract ratio positive finite =
      elim (Bool-cases (f.eq (f.mul vol (e.sqrt tenor_years)) (f.of_ℕ 0))) [
        | inl flat ↦
            rw (contract, require_positive_finite-ok laws vol positive finite, flat)
              ((_, refl), (_, refl))
        | inr steep ↦
            rw
              (
                contract,
                require_positive_finite-ok laws vol positive finite,
                steep,
                math_log-ok (f.div forward strike) ratio,
              )
              ((_, refl), (_, refl))
      ]

  guess-IsInside :
      (laws : IsOrdered F) (bisecting : IsBisecting e) (guess top : F)
      → f.le (f.of_ℕ 0) top ≡ true
      → f.is_finite (f.add top top) ≡ true
      → f.lt (f.sub top (f.of_ℕ 0)) (tolerance e) ≡ false
      → IsInside e (f.of_ℕ 0) top (
          if not (f.is_finite guess) || f.le guess (f.of_ℕ 0) || f.le top guess
          then midpoint e (f.of_ℕ 0) top
          else guess)
  guess-IsInside laws bisecting guess top ordered bounded wide =
      let zero_le = laws.le_left (f.of_ℕ 0) top ordered in
      let (above, below) = bisecting.mid_bounds (f.of_ℕ 0) top zero_le ordered bounded in
      let positive = bisecting.mid_positive (f.of_ℕ 0) top zero_le ordered bounded wide in
      let middle : IsInside e (f.of_ℕ 0) top (midpoint e (f.of_ℕ 0) top) = record {
        positive = positive;
        not_below = above;
        not_above = below;
      } in
      elim (Bool-cases (f.is_finite guess)) [
        | inr unknown ↦ rw unknown middle
        | inl known ↦ elim (Bool-cases (f.le guess (f.of_ℕ 0))) [
          | inl low ↦ rw (known, low) middle
          | inr over ↦ elim (Bool-cases (f.le top guess)) [
            | inl high ↦ rw (known, over, high) middle
            | inr under ↦
                let level = laws.finite_refl guess known in
                let up = not_le-lt laws guess (f.of_ℕ 0) level zero_le over in
                let down =
                  not_le-lt laws top guess (laws.le_right (f.of_ℕ 0) top ordered) level under in
                rw (known, over, under)
                  (record {
                    positive = up;
                    not_below = laws.lt_le (f.of_ℕ 0) guess up;
                    not_above = laws.lt_le guess top down;
                  })
          ]
        ]
      ]

  first_guess-IsInside :
      (laws : IsOrdered F) (bisecting : IsBisecting e) (target forward tenor_years discount : F)
      → f.le (f.of_ℕ 0) (highest e tenor_years) ≡ true
      → f.is_finite (f.add (highest e tenor_years) (highest e tenor_years)) ≡ true
      → f.lt (f.sub (highest e tenor_years) (f.of_ℕ 0)) (tolerance e) ≡ false
      → IsInside e
          (f.of_ℕ 0)
          (highest e tenor_years)
          (first_guess e target forward tenor_years discount)
  unfolding first_guess
  first_guess-IsInside laws bisecting target forward tenor_years discount ordered bounded wide =
      guess-IsInside laws bisecting _ (highest e tenor_years) ordered bounded wide

  -- The solver answers with what a safeguarded Newton search from its first guess ends at: for a
  -- contract whose numbers are positive and finite, a ratio of forward to strike that does not vanish,
  -- a finite target strictly between the intrinsic value and the ceiling, and a highest volatility that
  -- is no narrower than the tolerance and whose double is finite, `implied_vol` raises nothing. Each
  -- round of the search moves the low end of its bracket to a point priced below the target, or the
  -- high end to one that is not, and goes on from Newton's point if that is strictly inside and from
  -- the middle otherwise. It ends at the middle of a bracket that is narrower than the tolerance, at a
  -- next point within the tolerance of the last, or at the middle after a hundred rounds. The answer is
  -- in the last bracket, whose low end is zero or priced below the target and whose high end is the
  -- highest volatility or priced at no less.
  pub implied_vol-Found :
      (laws : IsOrdered F) (bisecting : IsBisecting e) (target forward strike tenor_years : F)
      (is_call : Bool) (discount : F)
      → require_contract e forward strike tenor_years discount ≡ ok tt
      → f.le (f.div forward strike) (f.of_ℕ 0) ≡ false
      → f.is_finite target ≡ true
      → f.le target (intrinsic e forward strike is_call discount) ≡ false
      → f.le (ceiling e forward strike is_call discount) target ≡ false
      → f.le (f.of_ℕ 0) (highest e tenor_years) ≡ true
      → f.is_finite (f.add (highest e tenor_years) (highest e tenor_years)) ≡ true
      → f.lt (f.sub (highest e tenor_years) (f.of_ℕ 0)) (tolerance e) ≡ false
      → Found e
          (λ vol. price e forward strike tenor_years vol is_call discount)
          (λ vol. vega e forward strike tenor_years vol discount)
          target
          (highest e tenor_years)
          (first_guess e target forward tenor_years discount)
          (implied_vol e target forward strike tenor_years is_call discount)
  unfolding implied_vol
  implied_vol-Found laws bisecting target forward strike tenor_years is_call discount contract ratio
        finite above below ordered bounded wide =
      let inside =
        first_guess-IsInside laws bisecting target forward tenor_years discount ordered bounded
          wide in
      rw (contract, finite, above, below)
        (rounds-Found e laws bisecting
          (λ vol. price e forward strike tenor_years vol is_call discount)
          (λ vol. vega e forward strike tenor_years vol discount) target (highest e tenor_years)
          (first_guess e target forward tenor_years discount) bounded
          (λ vol positive vol_finite.
            priced_at laws forward strike tenor_years is_call discount vol contract ratio positive
              vol_finite)
          100 0 (f.of_ℕ 0) (highest e tenor_years)
          (first_guess e target forward tenor_years discount) refl begin
          (record {
            from_zero = laws.le_left (f.of_ℕ 0) (highest e tenor_years) ordered;
            ordered = ordered;
            capped = laws.le_right (f.of_ℕ 0) (highest e tenor_years) ordered;
            below = inl refl;
            above = inl refl;
          })
          inside)
