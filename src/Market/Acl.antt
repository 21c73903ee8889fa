-- ===== src/Market/Acl.antt =====
-- volengine/market_data/application/acl.py: the chain's view as the published snapshot.
use volengine.Base.{ℕ, String, Bool, not, Option, none, some, List, [], ◌∷◌, map, if◌then◌else◌}
use volengine.Base.Results.{Result, ok, err, value_error, guard, attach, ◌>>=◌, ◌>>◌}
use volengine.Base.Instants.{Instant, elapsed}
use volengine.Base.Floats.{Float, IsComparable, fmax}
use volengine.Base.Keys.{float_key, ◌==◌, string_key}
use volengine.Base.Dict.{Dict, get, put}
use volengine.Base.Sorting.{sort_by}
use volengine.Contracts.Snapshot.{
  OptionKind, QuoteFlag, QuoteData, SliceData, MarketSnapshot, quote_data, slice_data,
  quality_block, market_snapshot,
}
use volengine.Market.Quotes.{OptionKindD, same_kind}
use volengine.Market.Admissibility.{QuoteFlagD}
use volengine.Market.Forward.{forward_from_parity, crosscheck_error, positive_number}
use volengine.Market.SnapshotPolicy.{QualityAssessment, is_degraded}
use volengine.Market.ChainSnapshot.{ChainQuote, ChainSlice, ChainSnapshot}

-- `_KINDS` and `_FLAGS`
unfoldable pub published_kind : OptionKindD → OptionKind
published_kind OptionKindD.call = OptionKind.call
published_kind OptionKindD.put = OptionKind.put

unfoldable pub published_flag : QuoteFlagD → QuoteFlag
published_flag QuoteFlagD.stale = QuoteFlag.stale
published_flag QuoteFlagD.wide_spread = QuoteFlag.wide_spread
published_flag QuoteFlagD.crossed = QuoteFlag.crossed
published_flag QuoteFlagD.low_size = QuoteFlag.low_size
published_flag QuoteFlagD.extreme_moneyness = QuoteFlag.extreme_moneyness
published_flag QuoteFlagD.iv_divergence = QuoteFlag.iv_divergence
published_flag QuoteFlagD.slice_monotonicity = QuoteFlag.slice_monotonicity
published_flag QuoteFlagD.slice_convexity = QuoteFlag.slice_convexity

-- The sequence number's text, `f"{sequence:08d}"`, is a parameter.
unfoldable pub build_snapshot_id :
    (ℕ → String) → (String → String → String) → String → ℕ → Result String
build_snapshot_id digits join market_id sequence = do
  guard (not (market_id == "")) value_error
  ok (join market_id (digits sequence))

module _ {F : Type 0} ⦃f : Float F⦄ where
  unfoldable pub clock_skew_seconds : ChainSnapshot F → F
  clock_skew_seconds s = f.seconds (elapsed s.ts_exchange s.ts_local)

  unfoldable pub reconcile_exchange_instant : Instant → Instant → F → Result Instant
  reconcile_exchange_instant ts_exchange ts_local max_skew = do
    guard (positive_number max_skew) value_error
    ok (
        if f.lt max_skew (f.abs (f.seconds (elapsed ts_exchange ts_local)))
        then ts_local
        else ts_exchange)

  unfoldable pub to_quote_data : ChainQuote F → Result (QuoteData F)
  to_quote_data q = quote_data (record {
    strike = q.strike;
    kind = published_kind q.kind;
    mid = q.mid;
    spread_rel = fmax (f.of_ℕ 0) q.spread_rel;
    age_seconds = q.age_seconds;
    flags = map published_flag q.flags;
    exchange_iv = q.exchange_iv;
  })

  unfoldable pub to_quotes_data : List (ChainQuote F) → Result (List (QuoteData F))
  unfolding to_quote_data
  to_quotes_data [] = ok []
  to_quotes_data (q ∷ quotes) = attach (to_quote_data q) (to_quotes_data quotes)

  unfoldable pub to_slice_data : ChainSlice F → Result (SliceData F)
  unfolding to_quotes_data
  to_slice_data s = do
    quotes ← to_quotes_data s.quotes
    slice_data (record {
      expiry = s.expiry;
      tenor_years = s.tenor_years;
      forward = s.forward;
      quotes = quotes;
      flags = map published_flag s.flags;
    })

  unfoldable pub to_slices_data : List (ChainSlice F) → Result (List (SliceData F))
  unfolding to_slice_data
  to_slices_data [] = ok []
  to_slices_data (s ∷ slices) = attach (to_slice_data s) (to_slices_data slices)

module _ {F : Type 0} ⦃f : Float F⦄ ⦃c : IsComparable F⦄ where
  -- `{quote.strike: quote.mid for quote in quotes if quote.kind is kind}`
  unfoldable pub mids_by_strike : OptionKindD → List (ChainQuote F) → Dict F F → Dict F F
  mids_by_strike kind [] d = d
  mids_by_strike kind (q ∷ quotes) d =
      mids_by_strike kind quotes
        (if same_kind q.kind kind then put ⦃e = float_key⦄ d q.strike q.mid else d)

  -- `calls.keys() & puts.keys()`, with both mids
  unfoldable pub paired : Dict F F → Dict F F → List (F × F × F)
  paired [] puts = []
  paired ((strike, call_mid) ∷ calls) puts = elim (get ⦃e = float_key⦄ puts strike) [
    | none ↦ paired calls puts
    | some put_mid ↦ (strike, call_mid, put_mid) ∷ paired calls puts
  ]

  abbrev strike_before : F × F × F → F × F × F → Bool
  strike_before (k, p, q) (k', p', q') = f.lt k k'

  unfoldable pub parity_pairs : List (ChainQuote F) → List (F × F × F)
  parity_pairs quotes = sort_by strike_before (
      paired (mids_by_strike OptionKindD.call quotes []) (mids_by_strike OptionKindD.put quotes []))

  -- `except ValueError: return None`
  abbrev or_none : Result F → Option F
  or_none (ok x) = some x
  or_none (err e) = none

  unfoldable pub parity_forward : ChainSlice F → Option F
  unfolding parity_pairs
  parity_forward s = elim (parity_pairs s.quotes) [
    | [] ↦ none
    | p ∷ ps ↦ or_none (forward_from_parity (p ∷ ps) (f.of_ℕ 1))
  ]

  abbrev worse : Option F → F → F
  worse none error = error
  worse (some worst) error = fmax worst error

  unfoldable pub crosscheck_step : F → Option F → Option F → Result (Option F)
  crosscheck_step forward none worst = ok worst
  crosscheck_step forward (some parity) worst = do
    error ← crosscheck_error forward parity
    ok (some (worse worst error))

  unfoldable pub crosscheck_from : Option F → List (ChainSlice F) → Result (Option F)
  unfolding crosscheck_step
  crosscheck_from worst [] = ok worst
  crosscheck_from worst (s ∷ slices) = do
    worst' ← crosscheck_step s.forward (parity_forward s) worst
    crosscheck_from worst' slices

  unfoldable pub forward_crosscheck_error : ChainSnapshot F → Result (Option F)
  forward_crosscheck_error s = crosscheck_from none s.slices

  unfoldable pub to_market_snapshot :
      ChainSnapshot F → String → QualityAssessment → F → Result (MarketSnapshot F)
  to_market_snapshot s snapshot_id quality max_skew = do
    ts_exchange ← reconcile_exchange_instant s.ts_exchange s.ts_local max_skew
    slices ← to_slices_data s.slices
    error ← forward_crosscheck_error s
    block ← quality_block (record {
      coverage_ratio = s.stats.coverage_ratio;
      max_age_seconds = s.stats.max_age_seconds;
      n_quotes_admissible = s.stats.n_quotes_admissible;
      n_quotes_total = s.stats.n_quotes_total;
      forward_crosscheck_error = error;
      degraded = is_degraded quality;
    })
    market_snapshot (record {
      snapshot_id = snapshot_id;
      market_id = s.market_id;
      ts_exchange = ts_exchange;
      ts_local = s.ts_local;
      underlying = s.underlying;
      slices = slices;
      quality = block;
      schema_version = 1;
    })
