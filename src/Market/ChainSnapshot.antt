-- ===== src/Market/ChainSnapshot.antt =====
-- volengine/market_data/domain/quote_chain.py: `QuoteChain.stats` and `QuoteChain.snapshot`, with the
-- slices that both build. The conventions and the thresholds, which the chain holds, are arguments.
pub mod Counting
pub mod Stats
use volengine.Base.{
  ℕ, zero, suc, ◌+◌, String, Bool, true, false, not, ◌&&◌, ◌||◌, Option, none, some, List, [], ◌∷◌,
  ◌++◌, map, length, ltb, leb, if◌then◌else◌, ◌==◌ as same_number,
}
use volengine.Base.Results.{Result, ok, err, value_error, guard, attach, ◌>>=◌, ◌>>◌}
use volengine.Base.Instants.{Instant, elapsed, before, same_instant, require_aware}
use volengine.Base.Floats.{Float, IsComparable, fmax}
use volengine.Base.Keys.{◌==◌, instant_key}
use volengine.Base.Dict.{Dict, get}
use volengine.Base.Sorting.{sort_by}
use volengine.Market.SnapshotPolicy.{ChainStats, chain_stats}
use volengine.Market.Quotes.{
  OptionKindD, call, put, InstrumentId, QuoteObservation, mid, spread_rel, instrument_key,
}
use volengine.Market.Conventions.{MarketConventions, is_expired, tenor_years}
use volengine.Market.Admissibility.{QuoteFlagD, AdmissibilityThresholds, flag_quote, flag_slice}
use volengine.Market.QuoteChain.{QuoteChain, usable_mid}

pub record ChainQuote (F : Type 0) : Type 0 where
  pub strike : F
  pub kind : OptionKindD
  pub mid : F
  pub spread_rel : F
  pub age_seconds : F
  pub flags : List QuoteFlagD
  pub exchange_iv : Option F

pub record ChainSlice (F : Type 0) : Type 0 where
  pub expiry : Instant
  pub tenor_years : F
  pub forward : F
  pub quotes : List (ChainQuote F)
  pub flags : List QuoteFlagD

pub record ChainSnapshot (F : Type 0) : Type 0 where
  pub market_id : String
  pub underlying : String
  pub ts_exchange : Instant
  pub ts_local : Instant
  pub slices : List (ChainSlice F)
  pub stats : ChainStats F

abbrev pub Entry : Type 0 → Type 0
Entry F = InstrumentId F × QuoteObservation F

-- `sorted(set(expiries))`
unfoldable pub add_instant : Instant → List Instant → List Instant
add_instant t [] = t ∷ []
add_instant t (u ∷ us) = if same_instant u t then u ∷ us else u ∷ add_instant t us

unfoldable pub instant_set : List Instant → List Instant
unfolding add_instant
instant_set [] = []
instant_set (t ∷ ts) = add_instant t (instant_set ts)

unfoldable pub same_instants : List Instant → List Instant → Bool
same_instants [] [] = true
same_instants (t ∷ ts) (u ∷ us) = same_instant t u && same_instants ts us
same_instants _ _ = false

unfoldable pub chain_snapshot : {F : Type 0} → ChainSnapshot F → Result (ChainSnapshot F)
unfolding same_instants instant_set
chain_snapshot s = do
  let ts = map (λ part. part.expiry) s.slices
  guard (same_instants ts (sort_by before (instant_set ts))) value_error
  ok s

-- `max(stamps) if stamps else default`
unfoldable pub latest_stamp : {F : Type 0} → Instant → List (Entry F) → Instant
latest_stamp best [] = best
latest_stamp best ((i, o) ∷ d) =
    latest_stamp (if before best o.ts_exchange then o.ts_exchange else best) d

unfoldable pub latest_exchange_stamp : {F : Type 0} → Instant → List (Entry F) → Instant
unfolding latest_stamp
latest_exchange_stamp default [] = default
latest_exchange_stamp default ((i, o) ∷ d) = latest_stamp o.ts_exchange d

-- `by_expiry.setdefault(expiry, []).append(entry)`
unfoldable pub add_entry :
    {F : Type 0} → Instant → Entry F → Dict Instant (List (Entry F)) → Dict Instant (List (Entry F))
add_entry t e [] = (t, e ∷ []) ∷ []
add_entry t e ((u, es) ∷ d) = if u == t then (u, es ++ e ∷ []) ∷ d else (u, es) ∷ add_entry t e d

-- The first loop of `_build_slices`.
unfoldable pub group :
    {F : Type 0}
    → List (Entry F)
    → Instant
    → Dict Instant (List (Entry F))
    → Result (Dict Instant (List (Entry F)))
unfolding add_entry
group [] now d = ok d
group ((i, o) ∷ entries) now d = do
  expired ← is_expired i.expiry now
  group entries now (if expired then d else add_entry i.expiry (i, o) d)

-- `sorted(by_expiry)`, with the entries of each expiry
abbrev pub by_date : {A : Type 0} → Instant × A → Instant × A → Bool
by_date (t, a) (u, b) = before t u

-- `"CALL" < "PUT"`
abbrev pub kind_before : OptionKindD → OptionKindD → Bool
kind_before call put = true
kind_before _ _ = false

module _ {F : Type 0} ⦃f : Float F⦄ where
  -- the order of `(strike, kind)`
  abbrev pub entry_before : Entry F → Entry F → Bool
  entry_before (i, o) (j, p) =
      if f.eq i.strike j.strike then kind_before i.kind j.kind else f.lt i.strike j.strike

  unfoldable pub usable_number : F → Bool
  usable_number x = not (f.le x (f.of_ℕ 0) || not (f.is_finite x))

  unfoldable pub chain_quote : ChainQuote F → Result (ChainQuote F)
  unfolding usable_number
  chain_quote q = do
    guard (usable_number q.mid) value_error
    guard (not (f.lt q.age_seconds (f.of_ℕ 0))) value_error
    ok q

  unfoldable pub chain_slice : ChainSlice F → Result (ChainSlice F)
  unfolding usable_number
  chain_slice s = do
    guard (usable_number s.tenor_years) value_error
    guard (usable_number s.forward) value_error
    ok s

  unfoldable pub age_of : QuoteObservation F → Instant → F
  age_of o now = fmax (f.of_ℕ 0) (f.seconds (elapsed now o.ts_exchange))

  -- the quote of an observation with a mid and a spread
  unfoldable pub judged :
      AdmissibilityThresholds F → F → Instant → Entry F → F → F → Result (ChainQuote F)
  judged t forward now (i, o) m spread = do
    flags ← flag_quote o i.strike forward none t now
    chain_quote (record {
      strike = i.strike;
      kind = i.kind;
      mid = m;
      spread_rel = spread;
      age_seconds = age_of o now;
      flags = flags;
      exchange_iv = o.exchange_iv;
    })

  -- one round of `_quotes_for`
  unfoldable pub quote_of :
      AdmissibilityThresholds F
      → F
      → Instant
      → Entry F
      → Option F
      → Option F
      → Result (List (ChainQuote F))
      → Result (List (ChainQuote F))
  unfolding judged
  quote_of t forward now e (some m) (some spread) later =
      attach (judged t forward now e m spread) later
  quote_of t forward now e _ _ later = later

  unfoldable pub quotes_in_order :
      AdmissibilityThresholds F → F → Instant → List (Entry F) → Result (List (ChainQuote F))
  unfolding quote_of
  quotes_in_order t forward now [] = ok []
  quotes_in_order t forward now (e ∷ entries) =
      quote_of t forward now e (usable_mid e.1) (spread_rel e.1)
        (quotes_in_order t forward now entries)

  -- `_quotes_for`
  unfoldable pub quotes_for :
      AdmissibilityThresholds F → F → Instant → List (Entry F) → Result (List (ChainQuote F))
  quotes_for t forward now entries = quotes_in_order t forward now (sort_by entry_before entries)

  abbrev pub shape : ChainQuote F → F × OptionKindD × F
  shape q = (q.strike, q.kind, q.mid)

  -- the slice of an expiry with a forward and quotes
  unfoldable pub assembled :
      MarketConventions
      → AdmissibilityThresholds F
      → Instant
      → Instant
      → F
      → List (ChainQuote F)
      → Result (ChainSlice F)
  assembled c t now expiry forward quotes = do
    tenor ← tenor_years c expiry now
    flags ← flag_slice (map shape quotes) t
    chain_slice (record {
      expiry = expiry;
      tenor_years = tenor;
      forward = forward;
      quotes = quotes;
      flags = flags;
    })

  unfoldable pub slice_of :
      MarketConventions
      → AdmissibilityThresholds F
      → Instant
      → Instant
      → F
      → List (ChainQuote F)
      → Result (List (ChainSlice F))
      → Result (List (ChainSlice F))
  unfolding assembled
  slice_of c t now expiry forward [] later = later
  slice_of c t now expiry forward (q ∷ quotes) later =
      attach (assembled c t now expiry forward (q ∷ quotes)) later

  -- one round of the second loop of `_build_slices`
  unfoldable pub slice_round :
      MarketConventions
      → AdmissibilityThresholds F
      → Instant
      → Instant
      → List (Entry F)
      → Option F
      → Result (List (ChainSlice F))
      → Result (List (ChainSlice F))
  slice_round c t now expiry entries none later = later
  slice_round c t now expiry entries (some forward) later = do
    quotes ← quotes_for t forward now entries
    slice_of c t now expiry forward quotes later

  unfoldable pub slices_in_order :
      MarketConventions
      → AdmissibilityThresholds F
      → Instant
      → Dict Instant F
      → Dict Instant (List (Entry F))
      → Result (List (ChainSlice F))
  unfolding slice_round slice_of quotes_for
  slices_in_order c t now forwards [] = ok []
  slices_in_order c t now forwards ((expiry, entries) ∷ d) =
      slice_round c t now expiry entries (get forwards expiry) (slices_in_order c t now forwards d)

  -- `_build_slices`
  unfoldable pub build_slices :
      MarketConventions
      → AdmissibilityThresholds F
      → QuoteChain F
      → Instant
      → Result (List (ChainSlice F))
  build_slices c t q now = do
    require_aware now
    by_expiry ← group q.observations now []
    slices_in_order c t now q.forwards (sort_by by_date by_expiry)

  -- `[quote for chain_slice in slices for quote in chain_slice.quotes]`
  unfoldable pub published : List (ChainSlice F) → List (ChainQuote F)
  published [] = []
  published (s ∷ slices) = s.quotes ++ published slices

  -- `sum(1 for quote in published if not quote.flags)`
  unfoldable pub admissible : List (ChainQuote F) → ℕ
  admissible [] = 0
  admissible (q ∷ quotes) = elim q.flags [
    | [] ↦ suc (admissible quotes)
    | _ ∷ _ ↦ admissible quotes
  ]

  -- `max(ages) if ages else 0.0`
  unfoldable pub oldest_age : F → Instant → List (Entry F) → F
  oldest_age best now [] = best
  oldest_age best now ((i, o) ∷ d) = oldest_age (fmax best (age_of o now)) now d

  unfoldable pub max_age : Instant → List (Entry F) → F
  unfolding oldest_age
  max_age now [] = f.of_ℕ 0
  max_age now ((i, o) ∷ d) = oldest_age (age_of o now) now d

  -- `len(published) / len(live) if live else 0.0`
  unfoldable pub coverage : ℕ → ℕ → F
  coverage n_published n_live =
      if same_number n_live 0 then f.of_ℕ 0 else f.ratio n_published n_live

  -- `_stats_from`
  unfoldable pub stats_from :
      List (ChainSlice F) → List (Entry F) → List (InstrumentId F) → Instant → Result (ChainStats F)
  stats_from slices observations live now = chain_stats (record {
    n_instruments_known = length live;
    n_quotes_total = length observations;
    n_quotes_admissible = admissible (published slices);
    max_age_seconds = max_age now observations;
    coverage_ratio = coverage (length (published slices)) (length live);
  })

  unfoldable pub stats :
      MarketConventions → AdmissibilityThresholds F → QuoteChain F → Instant → Result (ChainStats F)
  stats c t q now = do slices ← build_slices c t q now; stats_from slices q.observations q.live now

  unfoldable pub snapshot :
      MarketConventions
      → AdmissibilityThresholds F
      → QuoteChain F
      → Instant
      → Result (ChainSnapshot F)
  snapshot c t q now = do
    require_aware now
    slices ← build_slices c t q now
    counted ← stats_from slices q.observations q.live now
    chain_snapshot (record {
      market_id = c.market_id;
      underlying = c.underlying;
      ts_exchange = latest_exchange_stamp now q.observations;
      ts_local = now;
      slices = slices;
      stats = counted;
    })
