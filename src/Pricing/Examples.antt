-- ===== src/Pricing/Examples.antt =====
-- The theorems of the calibration state at a concrete cycle.
use volengine.Base.{◌≡◌, refl, ℕ, none, true, false, List, [], ◌∷◌, if◌then◌else◌, All}
use volengine.Base.Instants.{Instant, at}
use volengine.Base.Fixed.{Fixed, millionths}
use volengine.Base.Keys.{instant_key}
use volengine.Base.Dict.{get, member}
use volengine.Pricing.State.{SliceResult, CalibrationState, accept}
use volengine.Pricing.State.WarmStart.{or_else, last_fit, get-accept}

-- The parameters are numbered by the fit that found them.
abbrev before_cycle : CalibrationState Fixed ℕ
before_cycle = record { warm = (at 100, 1) ∷ (at 200, 2) ∷ []; last_good = none }

abbrev fitted : SliceResult Fixed ℕ
fitted = record {
  expiry = at 200;
  params = 3;
  tenor_years = millionths 250_000;
  rmse_vol_bp = millionths 1;
  max_err_vol_bp = millionths 2;
  n_quotes_used = 9;
  converged = true;
  at_bound = false;
}

abbrev live : List Instant
live = at 200 ∷ at 300 ∷ []

accepted_in_task : All (λ (r : SliceResult Fixed ℕ). member r.expiry live ≡ true) (fitted ∷ [])
unfolding member
accepted_in_task = (refl, tt)

expired : member (at 100) live ≡ false
unfolding member
expired = refl

get-accept_example :
    get (accept (fitted ∷ []) live before_cycle).warm (at 200)
    ≡ or_else
        (last_fit (fitted ∷ []) (at 200))
        (if member (at 200) live then get before_cycle.warm (at 200) else none)
get-accept_example = get-accept (fitted ∷ []) live before_cycle (at 200)
