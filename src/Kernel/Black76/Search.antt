-- ===== src/Kernel/Black76/Search.antt =====
-- The search that the Black-76 solver means to be: Newton steps that a bracket keeps in bounds.
use volengine.Base.{ℕ, suc, ◌<◌, ◌≡◌, true, false, ◌⊎◌}
use volengine.Base.Results.{Result, ok}
use volengine.Base.Floats.{Float}
use volengine.Kernel.Elementary.{Elementary}
use volengine.Kernel.Black76.{midpoint, tolerance}

module _ {F : Type 0} ⦃f : Float F⦄ (e : Elementary F) where
  -- Documented behaviour of IEEE arithmetic between zero and a number whose double is finite: the
  -- midpoint of a bracket lies in it, and above zero unless the bracket is narrow. Nothing is above
  -- infinity.
  pub record IsBisecting : Type 0 where
    pub mid_bounds :
        (lo hi : F)
        → f.le (f.of_ℕ 0) lo ≡ true
        → f.le lo hi ≡ true
        → f.is_finite (f.add hi hi) ≡ true
        → (f.le lo (midpoint e lo hi) ≡ true) × (f.le (midpoint e lo hi) hi ≡ true)
    pub mid_positive :
        (lo hi : F)
        → f.le (f.of_ℕ 0) lo ≡ true
        → f.le lo hi ≡ true
        → f.is_finite (f.add hi hi) ≡ true
        → f.lt (f.sub hi lo) (tolerance e) ≡ false
        → f.lt (f.of_ℕ 0) (midpoint e lo hi) ≡ true
    pub doubles :
        (a b : F)
        → f.le (f.of_ℕ 0) a ≡ true
        → f.le a b ≡ true
        → f.is_finite (f.add b b) ≡ true
        → (f.is_finite a ≡ true) × (f.is_finite (f.add a a) ≡ true)
    pub beyond : (x : F) → f.lt e.infinity x ≡ false

  abbrev pub tol : F
  tol = f.ratio 1 100_000_000

  -- Pricing a point moves an end of the bracket there: the low end where the price falls short of the
  -- target, the high end where it does not. The last index is what the price leaves to the target.
  pub data Moved (price_of : F → Result F) (target lo hi p : F) : F → F → F → Type 0 where
    short :
        {w : F}
        → price_of p ≡ ok w
        → f.lt (f.sub w target) (f.of_ℕ 0) ≡ true
        → Moved price_of target lo hi p p hi (f.sub w target)
    enough :
        {w : F}
        → price_of p ≡ ok w
        → f.lt (f.sub w target) (f.of_ℕ 0) ≡ false
        → Moved price_of target lo hi p lo p (f.sub w target)

  -- The next point: Newton's, where the slope is usable and carries it strictly into the bracket, and
  -- else the middle of the bracket.
  pub data Next (lo hi p residual slope : F) : F → Type 0 where
    newton :
        f.lt (f.ratio 1 1_000_000_000_000) slope ≡ true
        → f.lt lo (f.sub p (f.div residual slope)) ≡ true
        → f.lt (f.sub p (f.div residual slope)) hi ≡ true
        → Next lo hi p residual slope (f.sub p (f.div residual slope))
    halved :
        (f.lt (f.ratio 1 1_000_000_000_000) slope ≡ false)
          ⊎ ((f.lt lo (f.sub p (f.div residual slope)) ≡ false)
              ⊎ (f.lt (f.sub p (f.div residual slope)) hi ≡ false))
        → Next lo hi p residual slope (f.mul (f.ratio 1 2) (f.add lo hi))

  -- Safeguarded Newton: so many rounds from the whole bracket and the first guess, the bracket after
  -- them and the point to price next. A round goes on while the bracket is wide and the point moves.
  pub data Search (price_of vega_of : F → Result F) (target top guess : F)
      : ℕ → F → F → F → Type 0 where
    begin : Search price_of vega_of target top guess 0 (f.of_ℕ 0) top guess
    step :
        {n : ℕ} {lo hi p lo' hi' residual slope q : F}
        → Search price_of vega_of target top guess n lo hi p
        → Moved price_of target lo hi p lo' hi' residual
        → f.lt (f.sub hi' lo') tol ≡ false
        → vega_of p ≡ ok slope
        → Next lo' hi' p residual slope q
        → f.lt (f.abs (f.sub q p)) tol ≡ false
        → Search price_of vega_of target top guess (suc n) lo' hi' q

  -- Where a search ends, with its last bracket and its answer: at the middle of a bracket narrower than
  -- the tolerance, at a next point within the tolerance of the last one, or after a hundred rounds.
  pub data Ends (price_of vega_of : F → Result F) (target top guess : F) : F → F → F → Type 0 where
    narrow :
        {n : ℕ} {lo hi p lo' hi' residual : F}
        → n < 100
        → Search price_of vega_of target top guess n lo hi p
        → Moved price_of target lo hi p lo' hi' residual
        → f.lt (f.sub hi' lo') tol ≡ true
        → Ends price_of vega_of target top guess lo' hi' (f.mul (f.ratio 1 2) (f.add lo' hi'))
    close :
        {n : ℕ} {lo hi p lo' hi' residual slope q : F}
        → n < 100
        → Search price_of vega_of target top guess n lo hi p
        → Moved price_of target lo hi p lo' hi' residual
        → f.lt (f.sub hi' lo') tol ≡ false
        → vega_of p ≡ ok slope
        → Next lo' hi' p residual slope q
        → f.lt (f.abs (f.sub q p)) tol ≡ true
        → Ends price_of vega_of target top guess lo' hi' q
    spent :
        {n : ℕ} {lo hi p : F}
        → n ≡ 100
        → Search price_of vega_of target top guess n lo hi p
        → Ends price_of vega_of target top guess lo hi (f.mul (f.ratio 1 2) (f.add lo hi))

  -- The bracket's ends: the low one is zero or is priced below the target, the high one is the highest
  -- or is not.
  pub record Straddles (price_of : F → Result F) (target top lo hi : F) : Type 0 where
    pub from_zero : f.le (f.of_ℕ 0) lo ≡ true
    pub ordered : f.le lo hi ≡ true
    pub capped : f.le hi top ≡ true
    pub below :
        (lo ≡ f.of_ℕ 0)
        ⊎ ((w : F) × (price_of lo ≡ ok w) × (f.lt (f.sub w target) (f.of_ℕ 0) ≡ true))
    pub above :
        (hi ≡ top) ⊎ ((w : F) × (price_of hi ≡ ok w) × (f.lt (f.sub w target) (f.of_ℕ 0) ≡ false))

  -- A volatility was answered: where the search ends, inside its last bracket, which straddles the
  -- target.
  pub record Found (price_of vega_of : F → Result F) (target top guess : F) (r : Result F)
      : Type 0 where
    pub vol : F
    pub answered : r ≡ ok vol
    pub lo : F
    pub hi : F
    pub reached : Ends price_of vega_of target top guess lo hi vol
    pub straddling : Straddles price_of target top lo hi
    pub not_below : f.le lo vol ≡ true
    pub not_above : f.le vol hi ≡ true
