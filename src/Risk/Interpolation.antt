-- ===== src/Risk/Interpolation.antt =====
-- volengine/risk/domain/interpolation.py, and the lookups of volengine/risk/domain/surface_view.py.
pub mod Bracket
use volengine.Base.{ℕ, zero, suc, ◌-◌, Bool, not, ◌||◌, List, [], ◌∷◌, length, ◌==◌, if◌then◌else◌}
use volengine.Base.Results.{
  Result, ok, err, value_error, index_error, overflow_error, expired_position, guard, ◌>>=◌, ◌>>◌,
}
use volengine.Base.Instants.{Instant, elapsed, before, not_after, require_aware}
use volengine.Base.Floats.{Float}
use volengine.Kernel.Elementary.{Elementary}
use volengine.Kernel.Black76.{math_log}
use volengine.Risk.SurfaceView.{SurfaceView}

-- `items[i]`, of an index that is not negative
unfoldable pub nth {ℓ} : {A : Type ℓ} → List A → ℕ → Result A
nth [] i = err index_error
nth (x ∷ xs) zero = ok x
nth (x ∷ xs) (suc i) = nth xs i

-- `bisect_right`, of a sorted list: how many items stand before the first that is greater.
unfoldable pub bisect_right {ℓ} : {A : Type ℓ} → (A → A → Bool) → List A → A → ℕ
bisect_right lt [] v = 0
bisect_right lt (x ∷ xs) v = let rest = bisect_right lt xs v in if lt v x then 0 else suc rest

module _ {F : Type 0} ⦃f : Float F⦄ where
  -- Between two nodes of the axis, found by the upper one.
  unfoldable pub between_nodes : List F → F → ℕ → Result (ℕ × ℕ × F)
  unfolding nth
  between_nodes axis value upper = do
    below ← nth axis (upper - 1)
    above ← nth axis upper
    ok (upper - 1, upper, f.div (f.sub value below) (f.sub above below))

  -- `_bracket`. The upper node is not the first, which the value is beyond.
  unfoldable pub bracket : List F → F → Result (ℕ × ℕ × F)
  unfolding nth between_nodes bisect_right
  bracket axis value = do
    first ← nth axis 0
    final ← nth axis (length axis - 1)
    if f.le value first
        then ok (0, 0, f.of_ℕ 0)
        else if f.le final value
        then ok (length axis - 1, length axis - 1, f.of_ℕ 0)
        else between_nodes axis value (bisect_right f.lt axis value)

  unfoldable pub require_positive : F → Result (Unit {0})
  require_positive x = guard (not (not (f.is_finite x) || f.le x (f.of_ℕ 0))) value_error

  -- `(1.0 - weight) * near + weight * far`
  unfoldable pub blend : F → F → F → F
  blend weight near far = f.add (f.mul (f.sub (f.of_ℕ 1) weight) near) (f.mul weight far)

  unfoldable pub bilinear_total_variance : SurfaceView F → F → F → Result F
  unfolding require_positive bracket nth blend
  bilinear_total_variance v k tenor_years = do
    guard (f.is_finite k) value_error
    require_positive tenor_years
    tenor ← bracket v.tenors tenor_years
    node ← bracket v.log_moneyness k
    near_row ← nth v.total_variance tenor.0
    far_row ← nth v.total_variance tenor.1
    near_low ← nth near_row node.0
    near_high ← nth near_row node.1
    far_low ← nth far_row node.0
    far_high ← nth far_row node.1
    ok (blend tenor.2 (blend node.2 near_low near_high) (blend node.2 far_low far_high))

module _ {F : Type 0} ⦃f : Float F⦄ (e : Elementary F) where
  -- `math.sqrt`, which refuses what is below zero.
  unfoldable pub math_sqrt : F → Result F
  math_sqrt x = if f.lt x (f.of_ℕ 0) then err value_error else ok (e.sqrt x)

  unfoldable pub math_exp : F → Result F
  math_exp x = if e.exp_overflows x then err overflow_error else ok (e.exp x)

  unfoldable pub implied_vol : SurfaceView F → F → F → Result F
  unfolding bilinear_total_variance math_sqrt require_positive
  implied_vol v k tenor_years = do
    total_variance ← bilinear_total_variance v k tenor_years
    vol ← math_sqrt (f.div total_variance tenor_years)
    require_positive vol
    ok vol

  unfoldable pub forward_between : SurfaceView F → F → ℕ → Result F
  unfolding nth math_exp math_log
  forward_between v tenor_years index = do
    near_forward ← nth v.forwards (index - 1)
    far_forward ← nth v.forwards index
    near_tenor ← nth v.tenors (index - 1)
    far_tenor ← nth v.tenors index
    log_ratio ← math_log e (f.div far_forward near_forward)
    growth ←
        math_exp
          (f.mul (f.div log_ratio (f.sub far_tenor near_tenor)) (f.sub tenor_years near_tenor))
    ok (f.mul near_forward growth)

  -- `SurfaceView.forward_at`
  unfoldable pub forward_at : SurfaceView F → F → Result F
  unfolding require_positive nth forward_between bisect_right
  forward_at v tenor_years = do
    require_positive tenor_years
    first ← nth v.tenors 0
    final ← nth v.tenors (length v.tenors - 1)
    if f.le tenor_years first
        then nth v.forwards 0
        else if f.le final tenor_years
        then nth v.forwards (length v.forwards - 1)
        else forward_between v tenor_years (bisect_right f.lt v.tenors tenor_years)

module _ {F : Type 0} ⦃f : Float F⦄ where
  -- the share of a span of time, of the tenors at its ends
  unfoldable pub before_first : SurfaceView F → Instant → Result F
  unfolding nth
  before_first v expiry = do
    first ← nth v.expiries 0
    tenor ← nth v.tenors 0
    ok (
        f.mul tenor (
          f.div (f.seconds (elapsed expiry v.ts_snapshot))
            (f.seconds (elapsed first v.ts_snapshot))))

  unfoldable pub between_expiries : SurfaceView F → Instant → ℕ → Result F
  unfolding nth
  between_expiries v expiry index = do
    near ← nth v.expiries (index - 1)
    far ← nth v.expiries index
    near_tenor ← nth v.tenors (index - 1)
    far_tenor ← nth v.tenors index
    ok (
        f.add near_tenor (
          f.mul (f.sub far_tenor near_tenor)
            (f.div (f.seconds (elapsed expiry near)) (f.seconds (elapsed far near)))))

  -- `SurfaceView.tenor_of`
  unfoldable pub tenor_of : SurfaceView F → Instant → Result F
  unfolding require_aware before_first between_expiries bisect_right nth
  tenor_of v expiry = do
    require_aware expiry
    guard (not (not_after expiry v.ts_snapshot)) expired_position
    let index = bisect_right before v.expiries expiry in
        if index == 0
        then before_first v expiry
        else if index == length v.expiries
        then nth v.tenors (length v.tenors - 1)
        else between_expiries v expiry index
