-- ===== src/Kernel/Black76.antt =====
-- volengine/shared_kernel/domain/black76.py: the Black-76 price, its vega, and the solver that inverts
-- the price.
pub mod Search
pub mod Bisection
pub mod Solver
use volengine.Base.{ℕ, zero, suc, Bool, true, false, not, ◌&&◌, ◌||◌, if◌then◌else◌}
use volengine.Base.Results.{Result, ok, err, value_error, price_not_invertible, guard, ◌>>=◌, ◌>>◌}
use volengine.Base.Floats.{Float, fmax}
use volengine.Kernel.Elementary.{Elementary}

module _ {F : Type 0} ⦃f : Float F⦄ (e : Elementary F) where
  abbrev pub lit : ℕ → F
  lit n = f.of_ℕ n

  abbrev half : F
  half = f.ratio 1 2

  unfoldable pub norm_cdf : F → F
  norm_cdf x = f.mul half (e.erfc (f.mul (e.neg x) (f.div (lit 1) (e.sqrt (lit 2)))))

  unfoldable pub norm_pdf : F → F
  norm_pdf x =
      f.mul (f.div (lit 1) (e.sqrt (f.mul (lit 2) e.pi))) (e.exp (f.mul (f.mul (e.neg half) x) x))

  unfoldable pub require_positive_finite : F → Result (Unit {0})
  require_positive_finite x = guard (not (not (f.is_finite x) || f.le x (lit 0))) value_error

  unfoldable pub require_contract : F → F → F → F → Result (Unit {0})
  unfolding require_positive_finite
  require_contract forward strike tenor_years discount = do
    require_positive_finite forward
    require_positive_finite strike
    require_positive_finite tenor_years
    require_positive_finite discount

  unfoldable pub intrinsic : F → F → Bool → F → F
  intrinsic forward strike is_call discount =
      if is_call
      then f.mul discount (fmax (f.sub forward strike) (lit 0))
      else f.mul discount (fmax (f.sub strike forward) (lit 0))

  unfoldable pub ceiling : F → F → Bool → F → F
  ceiling forward strike is_call discount =
      if is_call then f.mul discount forward else f.mul discount strike

  -- `math.log`, which refuses what is not above zero.
  unfoldable pub math_log : F → Result F
  math_log x = if f.le x (lit 0) then err value_error else ok (f.ln x)

  -- `d1`, at a total standard deviation that is not zero
  unfoldable pub d1_of : F → F → F
  d1_of log_ratio total_stdev =
      f.div (f.add log_ratio (f.mul (f.mul half total_stdev) total_stdev)) total_stdev

  -- The value of the option, its total standard deviation not zero.
  unfoldable pub worth_at : F → F → F → Bool → F → F → F
  unfolding norm_cdf d1_of
  worth_at forward strike total_stdev is_call discount log_ratio =
      let d1 = d1_of log_ratio total_stdev in
      let d2 = f.sub d1 total_stdev in
      if is_call
      then f.mul discount (f.sub (f.mul forward (norm_cdf d1)) (f.mul strike (norm_cdf d2)))
      else f.mul discount
          (f.sub (f.mul strike (norm_cdf (e.neg d2))) (f.mul forward (norm_cdf (e.neg d1))))

  unfoldable pub price : F → F → F → F → Bool → F → Result F
  unfolding require_contract require_positive_finite intrinsic worth_at math_log
  price forward strike tenor_years vol is_call discount = do
    require_contract forward strike tenor_years discount
    require_positive_finite vol
    let total_stdev = f.mul vol (e.sqrt tenor_years) in
        if f.eq total_stdev (lit 0)
        then ok (intrinsic forward strike is_call discount)
        else (math_log (f.div forward strike) >>= λ log_ratio.
            ok (worth_at forward strike total_stdev is_call discount log_ratio))

  unfoldable pub vega : F → F → F → F → F → Result F
  unfolding require_contract require_positive_finite norm_pdf d1_of math_log
  vega forward strike tenor_years vol discount = do
    require_contract forward strike tenor_years discount
    require_positive_finite vol
    let root_t = e.sqrt tenor_years in
        let total_stdev = f.mul vol root_t in
        if f.eq total_stdev (lit 0)
        then ok (lit 0)
        else (math_log (f.div forward strike) >>= λ log_ratio. ok (
            f.mul (f.mul (f.mul discount forward) (norm_pdf (d1_of log_ratio total_stdev))) root_t))

  -- `0.5 * (lo + hi)`
  unfoldable pub midpoint : F → F → F
  midpoint lo hi = f.mul half (f.add lo hi)

  -- `VOL_TOLERANCE`
  abbrev pub tolerance : F
  tolerance = f.ratio 1 100_000_000

  -- The next point: Newton's where the slope carries it into the bracket, else the midpoint.
  unfoldable pub candidate_of : F → F → F → F → F → F
  unfolding midpoint
  candidate_of lo hi vol residual slope =
      let newton =
        if f.lt (f.ratio 1 1_000_000_000_000) slope
        then f.sub vol (f.div residual slope)
        else e.infinity in
      if f.lt lo newton && f.lt newton hi then newton else midpoint lo hi

  -- The loop of `implied_vol`, for so many rounds more; `go` is the rest of it.
  module _ (price_of vega_of : F → Result F) (target : F) where
    -- the end of a round, in the narrowed bracket
    unfoldable pub stepped : F → F → F → F → F → (F → Result F) → Result F
    unfolding candidate_of midpoint
    stepped lo hi vol residual slope go =
        let candidate = candidate_of lo hi vol residual slope in
        if f.lt (f.abs (f.sub candidate vol)) tolerance then ok candidate else go candidate

    unfoldable pub narrowed : F → F → F → F → (F → Result F) → Result F
    unfolding stepped midpoint
    narrowed lo hi vol residual go =
        if f.lt (f.sub hi lo) tolerance
        then ok (midpoint lo hi)
        else vega_of vol >>= λ slope. stepped lo hi vol residual slope go

    unfoldable pub rounds : ℕ → F → F → F → Result F
    unfolding narrowed midpoint
    rounds zero lo hi vol = ok (midpoint lo hi)
    rounds (suc n) lo hi vol =
        let below = rounds n vol hi in
        let above = rounds n lo vol in
        price_of vol >>= λ worth.
        if f.lt (f.sub worth target) (lit 0)
        then narrowed vol hi vol (f.sub worth target) below
        else narrowed lo vol vol (f.sub worth target) above

  -- `_MAX_TOTAL_STDEV / math.sqrt(tenor_years)`
  unfoldable pub highest : F → F
  highest tenor_years = f.div (lit 40) (e.sqrt tenor_years)

  unfoldable pub first_guess : F → F → F → F → F
  unfolding midpoint highest
  first_guess target forward tenor_years discount =
      let hi = highest tenor_years in
      let guess =
        f.div (f.mul (e.sqrt (f.div (f.mul (lit 2) e.pi) tenor_years)) (f.div target discount))
          forward in
      if not (f.is_finite guess) || f.le guess (lit 0) || f.le hi guess
      then midpoint (lit 0) hi
      else guess

  unfoldable pub implied_vol : F → F → F → F → Bool → F → Result F
  implied_vol target forward strike tenor_years is_call discount = do
    require_contract forward strike tenor_years discount
    guard (f.is_finite target) value_error
    guard (not (f.le target (intrinsic forward strike is_call discount))) price_not_invertible
    guard (not (f.le (ceiling forward strike is_call discount) target)) price_not_invertible
    rounds (λ vol. price forward strike tenor_years vol is_call discount)
        (λ vol. vega forward strike tenor_years vol discount) target 100 (lit 0)
        (highest tenor_years) (first_guess target forward tenor_years discount)
