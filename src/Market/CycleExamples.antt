-- ===== src/Market/CycleExamples.antt =====
-- The theorems of the chain's snapshots and of the ingestion at a concrete session.
use volengine.Base.{
  ◌+◌, ◌≤◌, ◌≡◌, ◌↔◌, refl, true, false, none, some, List, [], ◌∷◌, if◌then◌else◌, In, inl,
}
use volengine.Base.Results.{ok, ◌>>=◌}
use volengine.Base.Instants.{at, require_aware}
use volengine.Base.Fixed.{Fixed, fixed_float, Fixed-IsOrdered, Fixed-IsComparable, millionths}
use volengine.Platform.Metrics.{total}
use volengine.Market.Quotes.{
  InstrumentId, QuoteUpdate, QuoteObservation, call, mid, spread_rel, same_instrument,
}
use volengine.Market.Conventions.{
  MarketConventions, act_365f, quote, provider_underlying, is_expired, tenor_years, year_fraction,
}
use volengine.Market.Admissibility.{
  AdmissibilityThresholds, stale, quote_flags, is_crossed, is_wide, diverges, flag_quote,
  flag_slice, breaks_monotonicity, breaks_convexity, prices_by_strike, shares_strike, shares_from,
  of_kind, breaks_from, bends_from, above_chord,
}
use volengine.Market.Admissibility.Loosening.{IsLooser, quote_flags_mono}
use volengine.Market.Admissibility.Shape.{AllOrdered, breaks_monotonicity_lem}
use volengine.Market.Forward.{positive_number}
use volengine.Market.QuoteChain.{
  QuoteChain, new_chain, apply, add_live, put_forward, usable_mid, live_set, set_live_instruments,
  max_relative_move_since_baseline,
}
use volengine.Market.QuoteChain.Kept.{ChainOp, tick, chain_run, chain_step}
use volengine.Market.SnapshotPolicy.{ChainStats, chain_stats, cadence_elapsed, should_emit}
use volengine.Base.Dict.{get, put, member, restrict}
use volengine.Base.Sorting.{sort_by, insert_by}
use volengine.Market.ChainSnapshot.{
  ChainSlice, ChainSnapshot, snapshot, build_slices, stats_from, group, add_entry, slices_in_order,
  slice_round, quotes_for, quotes_in_order, quote_of, judged, slice_of, assembled, chain_quote,
  chain_slice, usable_number, age_of, published, admissible, max_age, oldest_age, coverage,
  chain_snapshot, same_instants, instant_set, add_instant, latest_exchange_stamp, latest_stamp,
}
use volengine.Market.ChainSnapshot.Stats.{stats_from_total}
use volengine.Market.BuildSnapshot.{Settings, Builder, gate, build, after_gate, after_cadence}
use volengine.Market.BuildSnapshot.Pace.{Spaced, publications, publications-Spaced}
use volengine.Market.BuildSnapshot.Outcomes.{Ended}
use volengine.Market.BuildSnapshot.Cycle.{gate-eq-should_emit, build-Ended}
use volengine.Market.IngestStream.{
  Spelling, Ingest, start, received, rediscover, same_set, adopt, after_adopting, announced,
  after_applying, noticed, then_cycle, cycle, after_cycle,
}
use volengine.Market.IngestStream.Inventory.{
  Moment, started, heard, polled, beat, take_turn, ingest_run, Agrees, ingest_run-Agrees,
}
use volengine.Market.IngestStream.Counters.{snapshots, ingest_run_numbered}

abbrev conventions : MarketConventions
conventions = record {
  market_id = "BTC-DERIBIT";
  underlying = "BTC";
  day_count = act_365f;
  expiry_time_utc = 28_800_000_000;
  utcoffset = none;
  numeraire = quote;
  forward_method = provider_underlying;
}

abbrev tight : AdmissibilityThresholds Fixed
tight = record {
  max_spread_rel = millionths 100_000;
  max_age_seconds = millionths 5_000_000;
  moneyness_lo = millionths 0;
  moneyness_hi = millionths 1_000_000;
  max_iv_divergence_bp = millionths 100_000_000;
  convexity_tolerance = millionths 0;
  min_size = millionths 500_000;
}

abbrev loose : AdmissibilityThresholds Fixed
loose = record tight { max_age_seconds = millionths 10_000_000; min_size = millionths 100_000 }

loose-IsLooser : IsLooser tight loose
loose-IsLooser = record {
  spread = refl;
  age = refl;
  lo = refl;
  hi = refl;
  divergence = refl;
  size = refl;
}

abbrev year_call : InstrumentId Fixed
year_call = record {
  underlying = "BTC";
  expiry = at 31_536_000_000_000;
  strike = millionths 80_000_000;
  kind = call;
}

abbrev observed : QuoteObservation Fixed
observed = record {
  bid = some (millionths 50_000);
  ask = some (millionths 52_000);
  bid_size = millionths 1_000_000;
  ask_size = millionths 2_000_000;
  ts_exchange = at 10;
  ts_local = at 12;
  exchange_iv = none;
}

abbrev year_tick : QuoteUpdate Fixed
year_tick = record {
  instrument = year_call;
  observation = observed;
  underlying_price = some (millionths 79_000_000);
}

abbrev settings : Settings Fixed
settings = record {
  conventions = conventions;
  thresholds = tight;
  policy = record {
    cadence_seconds = millionths 5_000_000;
    material_move_threshold = millionths 1_000;
    min_coverage_ratio = millionths 500_000;
    max_quiet_seconds = some (millionths 60_000_000);
  };
  max_skew_seconds = millionths 2_000_000;
  digits = λ n. "00000000";
  join = λ a b. a;
}

abbrev spelling : Spelling Fixed
spelling = record { iso_format = λ t. "2027-01-01"; general = λ x. "80" }

abbrev session : List (ChainOp Fixed)
session = tick year_tick ∷ []

abbrev chain : QuoteChain Fixed
chain = chain_run ⦃c = Fixed-IsComparable⦄ session (new_chain "BTC")

abbrev fresh : Builder Fixed
fresh = record { chain = chain; last_emit = none; sequence = 0; log = [] }

abbrev ingest : Ingest Fixed
ingest = record {
  market_id = "BTC-DERIBIT";
  builder = record { chain = new_chain "BTC"; last_emit = none; sequence = 0; log = [] };
  live = [];
}

abbrev moments : List (Moment Fixed)
moments =
    started [] (at 1)
    ∷ heard year_tick (at 20) (at 21)
    ∷ polled (year_call ∷ []) (at 30)
    ∷ beat (at 70_000_000)
    ∷ []

build-Ended_example :
    let r = build ⦃c = Fixed-IsComparable⦄ settings (at 20) fresh in
    Ended ⦃c = Fixed-IsComparable⦄ settings (at 20) fresh r.0 r.1
build-Ended_example = build-Ended ⦃c = Fixed-IsComparable⦄ settings (at 20) fresh

publications-Spaced_example : Spaced settings.policy.cadence_seconds none (
    publications ⦃c = Fixed-IsComparable⦄ settings
      ((λ q. q, at 20) ∷ (λ q. q, at 30_000_000) ∷ [])
      fresh)
publications-Spaced_example =
    publications-Spaced ⦃c = Fixed-IsComparable⦄ settings
      ((λ q. q, at 20) ∷ (λ q. q, at 30_000_000) ∷ []) fresh

ingest_run_numbered_example :
    let turn = ingest_run ⦃c = Fixed-IsComparable⦄ settings spelling moments ingest in
    (turn.state.builder.sequence ≡ 0 + snapshots turn.events)
    × (total "marketdata.snapshot.published" turn.state.builder.log
        ≡ total {F = Fixed} "marketdata.snapshot.published" [] + snapshots turn.events)
ingest_run_numbered_example =
    ingest_run_numbered ⦃c = Fixed-IsComparable⦄ settings spelling moments ingest

stale_when_loose :
    In stale
      (quote_flags observed year_call.strike (millionths 79_000_000) none loose (at 20_000_000))
unfolding quote_flags is_crossed is_wide spread_rel mid diverges
stale_when_loose = inl refl

quote_flags_mono_example :
    In stale
      (quote_flags observed year_call.strike (millionths 79_000_000) none tight (at 20_000_000))
quote_flags_mono_example =
    quote_flags_mono Fixed-IsOrdered observed year_call.strike (millionths 79_000_000) none tight
      loose (at 20_000_000) stale loose-IsLooser stale_when_loose

abbrev prices : List (Fixed × Fixed)
prices =
    (millionths 70, millionths 12)
    ∷ (millionths 80, millionths 9)
    ∷ (millionths 90, millionths 9)
    ∷ []

breaks_monotonicity_lem_example : (breaks_monotonicity prices call ≡ false) ↔ AllOrdered call prices
breaks_monotonicity_lem_example =
    breaks_monotonicity_lem Fixed-IsOrdered call prices (refl, (refl, (refl, tt)))

frozen : (x : ChainSnapshot Fixed) × (snapshot conventions tight chain (at 20) ≡ ok x)
unfolding snapshot build_slices require_aware group add_entry is_expired slices_in_order slice_round
    quotes_for quotes_in_order quote_of judged slice_of assembled chain_quote chain_slice
    usable_number usable_mid mid spread_rel tenor_years year_fraction age_of flag_quote quote_flags
    is_crossed is_wide diverges flag_slice breaks_monotonicity breaks_convexity prices_by_strike
    shares_strike shares_from of_kind breaks_from bends_from above_chord sort_by insert_by get put
    member add_live put_forward apply chain_run chain_step stats_from chain_stats published
    admissible max_age oldest_age coverage chain_snapshot same_instants instant_set add_instant
    latest_exchange_stamp latest_stamp positive_number
frozen = (_, refl)

gate-eq-should_emit_example : gate ⦃c = Fixed-IsComparable⦄ settings (at 20) fresh ≡ (
    should_emit settings.policy frozen.0.stats
      (max_relative_move_since_baseline ⦃c = Fixed-IsComparable⦄ chain)
      none
      (at 20)
    >>= λ emit. ok (if emit then some frozen.0 else none))
gate-eq-should_emit_example =
    gate-eq-should_emit ⦃c = Fixed-IsComparable⦄ settings (at 20) fresh frozen.0 frozen.1

sliced : (xs : List (ChainSlice Fixed)) × (build_slices conventions tight chain (at 20) ≡ ok xs)
unfolding build_slices require_aware group add_entry is_expired slices_in_order slice_round
    quotes_for quotes_in_order quote_of judged slice_of assembled chain_quote chain_slice
    usable_number usable_mid mid spread_rel tenor_years year_fraction age_of flag_quote quote_flags
    is_crossed is_wide diverges flag_slice breaks_monotonicity breaks_convexity prices_by_strike
    shares_strike shares_from of_kind breaks_from bends_from above_chord sort_by insert_by get put
    member add_live put_forward apply chain_run chain_step positive_number
sliced = (_, refl)

stats_from_total_example :
    (s : ChainStats Fixed) × (stats_from sliced.0 chain.observations chain.live (at 20) ≡ ok s)
    × (s.n_quotes_admissible ≤ s.n_quotes_total)
    × (s.n_quotes_total ≤ s.n_instruments_known)
    × (fixed_float.le (fixed_float.of_ℕ 0) s.coverage_ratio ≡ true)
    × (fixed_float.le s.coverage_ratio (fixed_float.of_ℕ 1) ≡ true)
stats_from_total_example =
    stats_from_total ⦃c = Fixed-IsComparable⦄ Fixed-IsOrdered conventions tight session "BTC"
      (at 20) sliced.0 (refl, tt) sliced.1

abbrev paced : Ingest Fixed
paced = record ingest { builder = record ingest.builder { last_emit = some (at 2) } }

abbrev discovery : List (Moment Fixed)
discovery =
    started [] (at 1) ∷ heard year_tick (at 20) (at 21) ∷ polled (year_call ∷ []) (at 30) ∷ []

none_yet : Agrees ⦃c = Fixed-IsComparable⦄ paced
unfolding Agrees
none_yet i = refl

went_well : (ingest_run ⦃c = Fixed-IsComparable⦄ settings spelling discovery paced).ended ≡ ok tt
unfolding ingest_run take_turn start received rediscover same_set adopt live_set
    set_live_instruments after_adopting announced apply add_live put_forward put member restrict
    after_applying noticed then_cycle cycle build gate after_gate cadence_elapsed after_cadence
    after_cycle require_aware same_instrument
went_well = refl

ingest_run-Agrees_example :
    Agrees ⦃c = Fixed-IsComparable⦄
      (ingest_run ⦃c = Fixed-IsComparable⦄ settings spelling discovery paced).state
ingest_run-Agrees_example =
    ingest_run-Agrees ⦃c = Fixed-IsComparable⦄ settings spelling discovery paced none_yet went_well
