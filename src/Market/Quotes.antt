-- ===== src/Market/Quotes.antt =====
-- volengine/market_data/domain/option_quote.py: instruments, observations and updates.
use volengine.Base.{
  String, Bool, true, false, not, ◌&&◌, ◌||◌, ◌≡◌, Option, none, some, if◌then◌else◌, arith,
}
use volengine.Base.Results.{Result, ok, value_error, guard, ◌>>◌}
use volengine.Base.Instants.{Instant, same_instant, require_aware}
use volengine.Base.Texts.{is_blank}
use volengine.Base.Floats.{Float, IsComparable}
use volengine.Base.Keys.{Key, ◌==◌, string_key, str_sym, str_congr}

pub data OptionKindD : Type 0 where
  call put : OptionKindD

abbrev pub same_kind : OptionKindD → OptionKindD → Bool
same_kind call call = true
same_kind put put = true
same_kind _ _ = false

pub record InstrumentId (F : Type 0) : Type 0 where
  pub underlying : String
  pub expiry : Instant
  pub strike : F
  pub kind : OptionKindD

pub record QuoteObservation (F : Type 0) : Type 0 where
  pub bid : Option F
  pub ask : Option F
  pub bid_size : F
  pub ask_size : F
  pub ts_exchange : Instant
  pub ts_local : Instant
  pub exchange_iv : Option F

pub record QuoteUpdate (F : Type 0) : Type 0 where
  pub instrument : InstrumentId F
  pub observation : QuoteObservation F
  pub underlying_price : Option F

module _ {F : Type 0} ⦃f : Float F⦄ where
  -- Instruments are equal when their four fields are.
  unfoldable pub same_instrument : InstrumentId F → InstrumentId F → Bool
  same_instrument a b =
      (a.underlying == b.underlying)
      && same_instant a.expiry b.expiry
      && f.eq a.strike b.strike
      && same_kind a.kind b.kind

  -- `x is not None and (not math.isfinite(x) or x < 0)`, and with `<=`, refused
  unfoldable pub absent_or_non_negative : Option F → Bool
  absent_or_non_negative none = true
  absent_or_non_negative (some x) = not (not (f.is_finite x) || f.lt x (f.of_ℕ 0))

  unfoldable pub absent_or_positive : Option F → Bool
  absent_or_positive none = true
  absent_or_positive (some x) = not (not (f.is_finite x) || f.le x (f.of_ℕ 0))

  unfoldable pub instrument_id : InstrumentId F → Result (InstrumentId F)
  instrument_id i = do
    guard (not (is_blank i.underlying)) value_error
    require_aware i.expiry
    guard (not (not (f.is_finite i.strike) || not (f.lt (f.of_ℕ 0) i.strike))) value_error
    ok i

  unfoldable pub quote_observation : QuoteObservation F → Result (QuoteObservation F)
  quote_observation o = do
    guard (absent_or_non_negative o.bid) value_error
    guard (absent_or_non_negative o.ask) value_error
    guard (absent_or_non_negative (some o.bid_size)) value_error
    guard (absent_or_non_negative (some o.ask_size)) value_error
    require_aware o.ts_exchange
    require_aware o.ts_local
    guard (absent_or_positive o.exchange_iv) value_error
    ok o

  unfoldable pub quote_update : QuoteUpdate F → Result (QuoteUpdate F)
  quote_update u = do guard (absent_or_positive u.underlying_price) value_error; ok u

  unfoldable pub mid_of : Option F → Option F → Option F
  mid_of (some bid) (some ask) = some (f.add bid (f.div (f.sub ask bid) (f.of_ℕ 2)))
  mid_of _ _ = none

  unfoldable pub mid : QuoteObservation F → Option F
  unfolding mid_of
  mid o = mid_of o.bid o.ask

  unfoldable pub spread_of : Option F → Option F → Option F
  unfolding mid_of
  spread_of (some bid) (some ask) =
      let m = f.add bid (f.div (f.sub ask bid) (f.of_ℕ 2)) in
      if f.le m (f.of_ℕ 0) then none else some (f.div (f.sub ask bid) m)
  spread_of _ _ = none

  unfoldable pub spread_rel : QuoteObservation F → Option F
  unfolding spread_of
  spread_rel o = spread_of o.bid o.ask

module _ {F : Type 0} ⦃f : Float F⦄ ⦃c : IsComparable F⦄ where
  pub instrument_sym : (a b : InstrumentId F) → same_instrument a b ≡ same_instrument b a
  unfolding same_instrument
  instrument_sym a b = ground (arith, str_sym a.underlying b.underlying, c.eq_sym a.strike b.strike)

  pub instrument_congr :
      (a b d : InstrumentId F)
      → same_instrument a b ≡ true
      → same_instrument a d ≡ same_instrument b d
  unfolding same_instrument
  instrument_congr a b d h = ground (
    arith,
    str_congr a.underlying b.underlying d.underlying,
    c.eq_congr a.strike b.strike d.strike,
  )

  instance abbrev pub instrument_key : Key (InstrumentId F)
  instrument_key = record {
    beq = same_instrument;
    beq_sym = instrument_sym;
    beq_congr = instrument_congr;
  }
