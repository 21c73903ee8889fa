-- ===== src/Market/Conventions.antt =====
-- volengine/market_data/domain/market_conventions.py. A time of day counts microseconds; a date counts
-- days from the first instant, and its midnight is in UTC.
use volengine.Base.{ℕ, ◌+◌, ◌*◌, String, Bool, true, not, Option, none, some}
use volengine.Base.Int.{ℤ, pos, eqb_ℤ}
use volengine.Base.Results.{
  Result, ok, err, value_error, expired_instrument, not_implemented, guard, ◌>>◌,
}
use volengine.Base.Instants.{Instant, at, elapsed, not_after, require_aware}
use volengine.Base.Texts.{is_blank}
use volengine.Base.Floats.{Float}

pub data DayCount : Type 0 where
  act_365f act_252 : DayCount

pub data Numeraire : Type 0 where
  quote inverse : Numeraire

pub data ForwardMethod : Type 0 where
  provider_underlying put_call_parity spot_rates_dividends : ForwardMethod

pub record MarketConventions : Type 0 where
  pub market_id : String
  pub underlying : String
  pub day_count : DayCount
  pub expiry_time_utc : ℕ
  pub utcoffset : Option ℤ
  pub numeraire : Numeraire
  pub forward_method : ForwardMethod

-- `expiry_instant`
unfoldable pub expiry_instant : MarketConventions → ℕ → Instant
expiry_instant c day = at (day * 86_400_000_000 + c.expiry_time_utc)

-- `is_expired`
unfoldable pub is_expired : Instant → Instant → Result Bool
is_expired expiry now = do require_aware expiry; require_aware now; ok (not_after expiry now)

-- `offset is not None and offset.total_seconds() != 0`, refused
unfoldable pub no_offset : Option ℤ → Bool
no_offset none = true
no_offset (some offset) = eqb_ℤ offset (pos 0)

unfoldable pub market_conventions : MarketConventions → Result MarketConventions
unfolding no_offset
market_conventions c = do
  guard (not (is_blank c.market_id)) value_error
  guard (not (is_blank c.underlying)) value_error
  guard (no_offset c.utcoffset) value_error
  ok c

module _ {F : Type 0} ⦃f : Float F⦄ where
  -- the year fraction of a duration, by the day count
  unfoldable pub year_fraction : DayCount → F → Result F
  year_fraction act_365f seconds = ok (f.div (f.div seconds (f.of_ℕ 86_400)) (f.of_ℕ 365))
  year_fraction act_252 seconds = err not_implemented

  unfoldable pub tenor_years : MarketConventions → Instant → Instant → Result F
  unfolding year_fraction
  tenor_years c expiry now = do
    require_aware expiry
    require_aware now
    guard (not (not_after expiry now)) expired_instrument
    year_fraction c.day_count (f.seconds (elapsed expiry now))
