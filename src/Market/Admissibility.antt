-- ===== src/Market/Admissibility.antt =====
-- volengine/market_data/domain/admissibility.py: the flags of a quote and of a slice.
pub mod Loosening
pub mod Shape
use volengine.Base.{
  Bool, true, false, not, ◌&&◌, ◌||◌, Option, none, some, List, [], ◌∷◌, if◌then◌else◌,
}
use volengine.Base.Results.{Result, ok, err, value_error, guard, ◌>>=◌, ◌>>◌}
use volengine.Base.Instants.{Instant, elapsed}
use volengine.Base.Floats.{Float, fmin}
use volengine.Base.Sorting.{sort_by}
use volengine.Market.Quotes.{OptionKindD, call, put, same_kind, QuoteObservation, spread_rel}
use volengine.Market.Forward.{positive_number}

pub data QuoteFlagD : Type 0 where
  stale wide_spread crossed low_size extreme_moneyness iv_divergence : QuoteFlagD
  slice_monotonicity slice_convexity : QuoteFlagD

pub record AdmissibilityThresholds (F : Type 0) : Type 0 where
  pub max_spread_rel : F
  pub max_age_seconds : F
  pub moneyness_lo : F
  pub moneyness_hi : F
  pub max_iv_divergence_bp : F
  pub convexity_tolerance : F
  pub min_size : F

-- `if test: flags.append(flag)`, before the flags of the rules that follow
abbrev pub flag_if : Bool → QuoteFlagD → List QuoteFlagD → List QuoteFlagD
flag_if test flag rest = if test then flag ∷ rest else rest

module _ {F : Type 0} ⦃f : Float F⦄ where
  unfoldable pub non_negative_number : F → Bool
  non_negative_number x = not (not (f.is_finite x) || f.lt x (f.of_ℕ 0))

  unfoldable pub admissibility_thresholds :
      AdmissibilityThresholds F → Result (AdmissibilityThresholds F)
  admissibility_thresholds t = do
    guard (positive_number t.max_spread_rel) value_error
    guard (positive_number t.max_age_seconds) value_error
    guard (positive_number t.max_iv_divergence_bp) value_error
    guard (non_negative_number t.convexity_tolerance) value_error
    guard (non_negative_number t.min_size) value_error
    guard (not (not (f.is_finite t.moneyness_lo) || not (f.is_finite t.moneyness_hi))) value_error
    guard (not (f.le t.moneyness_hi t.moneyness_lo)) value_error
    ok t

  unfoldable pub is_crossed : Option F → Option F → Bool
  is_crossed (some bid) (some ask) = f.lt ask bid
  is_crossed _ _ = false

  unfoldable pub is_wide : Option F → F → Bool
  is_wide none limit = false
  is_wide (some spread) limit = f.lt limit spread

  unfoldable pub diverges : Option F → Option F → F → Bool
  diverges (some own_iv) (some exchange_iv) limit =
      f.is_finite own_iv
      && f.is_finite exchange_iv
      && f.lt limit (f.mul (f.abs (f.sub own_iv exchange_iv)) (f.of_ℕ 10_000))
  diverges _ _ limit = false

  -- The flags, where `math.log` has a ratio above zero to take; `flag_quote` raises on another.
  unfoldable pub quote_flags :
      QuoteObservation F → F → F → Option F → AdmissibilityThresholds F → Instant → List QuoteFlagD
  quote_flags o strike forward own_iv t now =
      let k = f.ln (f.div strike forward) in
      flag_if (is_crossed o.bid o.ask) crossed (
        flag_if (is_wide (spread_rel o) t.max_spread_rel) wide_spread (
          flag_if (f.lt t.max_age_seconds (f.seconds (elapsed now o.ts_exchange))) stale (
            flag_if (f.lt (fmin o.bid_size o.ask_size) t.min_size) low_size (
              flag_if (f.lt k t.moneyness_lo || f.lt t.moneyness_hi k) extreme_moneyness (
                flag_if (diverges own_iv o.exchange_iv t.max_iv_divergence_bp) iv_divergence [])))))

  unfoldable pub flag_quote :
      QuoteObservation F
      → F
      → F
      → Option F
      → AdmissibilityThresholds F
      → Instant
      → Result (List QuoteFlagD)
  unfolding quote_flags
  flag_quote o strike forward own_iv t now = do
    guard (positive_number forward) value_error
    guard now.aware value_error
    guard (not (f.le (f.div strike forward) (f.of_ℕ 0))) value_error
    ok (quote_flags o strike forward own_iv t now)

  -- the order of `(strike, mid)` pairs
  abbrev pub pair_before : F × F → F × F → Bool
  pair_before (k, p) (k', p') = if f.eq k k' then f.lt p p' else f.lt k k'

  unfoldable pub of_kind : OptionKindD → List (F × OptionKindD × F) → List (F × F)
  of_kind kind [] = []
  of_kind kind ((strike, k, mid) ∷ quotes) =
      if same_kind k kind then (strike, mid) ∷ of_kind kind quotes else of_kind kind quotes

  -- two neighbours share a strike
  unfoldable pub shares_from : F → List (F × F) → Bool
  shares_from k [] = false
  shares_from k ((k', p') ∷ prices) = f.eq k k' || shares_from k' prices

  unfoldable pub shares_strike : List (F × F) → Bool
  shares_strike [] = false
  shares_strike ((k, p) ∷ prices) = shares_from k prices

  unfoldable pub prices_by_strike : List (F × OptionKindD × F) → OptionKindD → Result (List (F × F))
  prices_by_strike quotes kind = do
    guard (not (shares_strike (sort_by pair_before (of_kind kind quotes)))) value_error
    ok (sort_by pair_before (of_kind kind quotes))

  -- one pair of neighbours in the wrong order
  abbrev pub disordered : OptionKindD → F → F → Bool
  disordered call near far = f.lt near far
  disordered put near far = f.lt far near

  unfoldable pub breaks_from : OptionKindD → F → List (F × F) → Bool
  breaks_from kind near [] = false
  breaks_from kind near ((k, far) ∷ prices) =
      disordered kind near far || breaks_from kind far prices

  unfoldable pub breaks_monotonicity : List (F × F) → OptionKindD → Bool
  breaks_monotonicity [] kind = false
  breaks_monotonicity ((k, near) ∷ prices) kind = breaks_from kind near prices

  -- the middle price against the chord of its neighbours
  unfoldable pub above_chord : F × F → F × F → F × F → F → Bool
  above_chord (k_low, price_low) (k_mid, price_mid) (k_high, price_high) tolerance =
      f.lt tolerance (
        f.sub price_mid (
          f.div
            (f.add (f.mul (f.sub k_high k_mid) price_low) (f.mul (f.sub k_mid k_low) price_high))
            (f.sub k_high k_low)))

  unfoldable pub bends_from : F × F → F × F → List (F × F) → F → Bool
  bends_from low mid [] tolerance = false
  bends_from low mid (high ∷ prices) tolerance =
      above_chord low mid high tolerance || bends_from mid high prices tolerance

  unfoldable pub breaks_convexity : List (F × F) → F → Bool
  breaks_convexity (low ∷ mid ∷ prices) tolerance = bends_from low mid prices tolerance
  breaks_convexity _ tolerance = false

  unfoldable pub flag_slice :
      List (F × OptionKindD × F) → AdmissibilityThresholds F → Result (List QuoteFlagD)
  flag_slice quotes t = do
    calls ← prices_by_strike quotes call
    puts ← prices_by_strike quotes put
    ok (
        flag_if (breaks_monotonicity calls call || breaks_monotonicity puts put) slice_monotonicity
          (flag_if
            (breaks_convexity calls t.convexity_tolerance
              || breaks_convexity puts t.convexity_tolerance)
            slice_convexity []))
