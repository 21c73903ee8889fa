-- ===== src/Contracts/Snapshot/WireFormat.antt =====
-- `to_dict` and `from_dict` of the snapshot: what goes onto the wire comes back.
use volengine.Base.{
  String, false, not, ◌≡◌, ◌∙◌, refl, ◌≤◌, Option, none, some, List, [], ◌∷◌, ltb, arith,
  if◌then◌else◌, All,
}
use volengine.Base.Results.{Result, ok, err, value_error, guard, ◌>>=◌, ◌>>◌}
use volengine.Base.Floats.{Float}
use volengine.Base.Keys.{◌==◌, string_key}
use volengine.Contracts.Wire.{
  Json, boolean, int, num, text, arr, obj, end, field, Iso, IsIso, at_key, as_int, as_bool, as_text,
  as_num, items, as_list, or_null, as_option, get_version, stamp, as_stamp, Each, each-items,
}
use volengine.Contracts.Snapshot.{
  OptionKind, call, put, QuoteFlag, QuoteData, SliceData, QualityBlock, MarketSnapshot, quote_data,
  slice_data, quality_block, market_snapshot,
}

-- `kind.value` and `OptionKind(value)`
unfoldable pub kind_value : OptionKind → String
kind_value call = "C"
kind_value put = "P"

unfoldable pub kind_of : String → Result OptionKind
kind_of s = if s == "C" then ok call else if s == "P" then ok put else err value_error

unfoldable pub flag_value : QuoteFlag → String
flag_value QuoteFlag.stale = "STALE"
flag_value QuoteFlag.wide_spread = "WIDE_SPREAD"
flag_value QuoteFlag.crossed = "CROSSED"
flag_value QuoteFlag.low_size = "LOW_SIZE"
flag_value QuoteFlag.extreme_moneyness = "EXTREME_MONEYNESS"
flag_value QuoteFlag.iv_divergence = "IV_DIVERGENCE"
flag_value QuoteFlag.slice_monotonicity = "SLICE_MONOTONICITY"
flag_value QuoteFlag.slice_convexity = "SLICE_CONVEXITY"

unfoldable pub flag_of : String → Result QuoteFlag
flag_of s =
    if s == "STALE"
    then ok QuoteFlag.stale
    else if s == "WIDE_SPREAD"
    then ok QuoteFlag.wide_spread
    else if s == "CROSSED"
    then ok QuoteFlag.crossed
    else if s == "LOW_SIZE"
    then ok QuoteFlag.low_size
    else if s == "EXTREME_MONEYNESS"
    then ok QuoteFlag.extreme_moneyness
    else if s == "IV_DIVERGENCE"
    then ok QuoteFlag.iv_divergence
    else if s == "SLICE_MONOTONICITY"
    then ok QuoteFlag.slice_monotonicity
    else if s == "SLICE_CONVEXITY"
    then ok QuoteFlag.slice_convexity
    else err value_error

module _ {F : Type 0} where
  unfoldable pub flags_to_dict : List QuoteFlag → Json F
  flags_to_dict flags = arr (items (λ flag. text (flag_value flag)) flags)

  unfoldable pub flag_from : Json F → Result QuoteFlag
  flag_from v = as_text v >>= flag_of

  unfoldable pub quote_to_dict : QuoteData F → Json F
  quote_to_dict q = obj (
      field "strike" (num q.strike) (
        field "kind" (text (kind_value q.kind)) (
          field "mid" (num q.mid) (
            field "spread_rel" (num q.spread_rel) (
              field "age_seconds" (num q.age_seconds) (
                field "flags" (flags_to_dict q.flags)
                  (field "exchange_iv" (or_null num q.exchange_iv) end)))))))

module _ {F : Type 0} ⦃f : Float F⦄ where
  unfoldable pub quote_from_dict : Json F → Result (QuoteData F)
  quote_from_dict raw = do
    strike ← at_key "strike" raw >>= as_num
    kind ← at_key "kind" raw >>= as_text >>= kind_of
    mid ← at_key "mid" raw >>= as_num
    spread_rel ← at_key "spread_rel" raw >>= as_num
    age_seconds ← at_key "age_seconds" raw >>= as_num
    flags ← at_key "flags" raw >>= as_list flag_from
    exchange_iv ← at_key "exchange_iv" raw >>= as_option as_num
    quote_data (record {
      strike = strike;
      kind = kind;
      mid = mid;
      spread_rel = spread_rel;
      age_seconds = age_seconds;
      flags = flags;
      exchange_iv = exchange_iv;
    })

flag_of-flag_value : (flag : QuoteFlag) → flag_of (flag_value flag) ≡ ok flag
unfolding flag_of flag_value
flag_of-flag_value QuoteFlag.stale = refl
flag_of-flag_value QuoteFlag.wide_spread = refl
flag_of-flag_value QuoteFlag.crossed = refl
flag_of-flag_value QuoteFlag.low_size = refl
flag_of-flag_value QuoteFlag.extreme_moneyness = refl
flag_of-flag_value QuoteFlag.iv_divergence = refl
flag_of-flag_value QuoteFlag.slice_monotonicity = refl
flag_of-flag_value QuoteFlag.slice_convexity = refl

kind_of-kind_value : (kind : OptionKind) → kind_of (kind_value kind) ≡ ok kind
unfolding kind_of kind_value
kind_of-kind_value call = refl
kind_of-kind_value put = refl

module _ (F : Type 0) where
  flags_back : (flags : List QuoteFlag) → as_list {F = F} flag_from (flags_to_dict flags) ≡ ok flags
  unfolding flags_to_dict flag_from
  flags_back [] = refl
  flags_back (flag ∷ flags) = rw (flag_of-flag_value flag) (rw (flags_back flags) refl)

module _ {F : Type 0} ⦃f : Float F⦄ where
  number_back : (x : Option F) → as_option as_num (or_null num x) ≡ ok x
  number_back none = refl
  number_back (some x) = refl

  quote_back : (q : QuoteData F) → quote_from_dict (quote_to_dict q) ≡ quote_data q
  unfolding quote_from_dict quote_to_dict
  quote_back q =
      rw (kind_of-kind_value q.kind, flags_back F q.flags, number_back q.exchange_iv) refl

module _ {F : Type 0} (iso : Iso) where
  unfoldable pub slice_to_dict : SliceData F → Json F
  slice_to_dict s = obj (
      field "expiry" (stamp iso s.expiry) (
        field "tenor_years" (num s.tenor_years) (
          field "forward" (num s.forward) (
            field "quotes" (arr (items quote_to_dict s.quotes))
              (field "flags" (flags_to_dict s.flags) end)))))

  unfoldable pub quality_to_dict : QualityBlock F → Json F
  quality_to_dict q = obj (
      field "coverage_ratio" (num q.coverage_ratio) (
        field "max_age_seconds" (num q.max_age_seconds) (
          field "n_quotes_admissible" (int q.n_quotes_admissible) (
            field "n_quotes_total" (int q.n_quotes_total) (
              field "forward_crosscheck_error" (or_null num q.forward_crosscheck_error)
                (field "degraded" (boolean q.degraded) end))))))

  unfoldable pub snapshot_to_dict : MarketSnapshot F → Json F
  snapshot_to_dict s = obj (
      field "snapshot_id" (text s.snapshot_id) (
        field "market_id" (text s.market_id) (
          field "ts_exchange" (stamp iso s.ts_exchange) (
            field "ts_local" (stamp iso s.ts_local) (
              field "underlying" (text s.underlying) (
                field "slices" (arr (items slice_to_dict s.slices)) (
                  field "quality" (quality_to_dict s.quality)
                    (field "schema_version" (int s.schema_version) end))))))))

module _ {F : Type 0} ⦃f : Float F⦄ (iso : Iso) where
  unfoldable pub slice_from_dict : Json F → Result (SliceData F)
  slice_from_dict raw = do
    expiry ← at_key "expiry" raw >>= as_stamp iso
    tenor_years ← at_key "tenor_years" raw >>= as_num
    forward ← at_key "forward" raw >>= as_num
    quotes ← at_key "quotes" raw >>= as_list quote_from_dict
    flags ← at_key "flags" raw >>= as_list flag_from
    slice_data (record {
      expiry = expiry;
      tenor_years = tenor_years;
      forward = forward;
      quotes = quotes;
      flags = flags;
    })

  unfoldable pub quality_from_dict : Json F → Result (QualityBlock F)
  quality_from_dict raw = do
    coverage_ratio ← at_key "coverage_ratio" raw >>= as_num
    max_age_seconds ← at_key "max_age_seconds" raw >>= as_num
    n_quotes_admissible ← at_key "n_quotes_admissible" raw >>= as_int
    n_quotes_total ← at_key "n_quotes_total" raw >>= as_int
    forward_crosscheck_error ← at_key "forward_crosscheck_error" raw >>= as_option as_num
    degraded ← at_key "degraded" raw >>= as_bool
    quality_block (record {
      coverage_ratio = coverage_ratio;
      max_age_seconds = max_age_seconds;
      n_quotes_admissible = n_quotes_admissible;
      n_quotes_total = n_quotes_total;
      forward_crosscheck_error = forward_crosscheck_error;
      degraded = degraded;
    })

  unfoldable pub snapshot_from_dict : Json F → Result (MarketSnapshot F)
  snapshot_from_dict raw = do
    version ← get_version raw
    guard (not (ltb 1 version)) value_error
    snapshot_id ← at_key "snapshot_id" raw >>= as_text
    market_id ← at_key "market_id" raw >>= as_text
    ts_exchange ← at_key "ts_exchange" raw >>= as_stamp iso
    ts_local ← at_key "ts_local" raw >>= as_stamp iso
    underlying ← at_key "underlying" raw >>= as_text
    slices ← at_key "slices" raw >>= as_list slice_from_dict
    quality ← at_key "quality" raw >>= quality_from_dict
    market_snapshot (record {
      snapshot_id = snapshot_id;
      market_id = market_id;
      ts_exchange = ts_exchange;
      ts_local = ts_local;
      underlying = underlying;
      slices = slices;
      quality = quality;
      schema_version = version;
    })

  -- The constructors accepted the snapshot and everything in it.
  pub record IsBuilt (s : MarketSnapshot F) : Type 0 where
    pub whole : market_snapshot s ≡ ok s
    pub parts :
        All
          (λ (p : SliceData F).
            (slice_data p ≡ ok p) × All (λ (q : QuoteData F). quote_data q ≡ ok q) p.quotes)
          s.slices
    pub rated : quality_block s.quality ≡ ok s.quality

  module _ (law : IsIso iso) where
    quotes_back :
        (qs : List (QuoteData F))
        → All (λ (q : QuoteData F). quote_data q ≡ ok q) qs
        → Each quote_to_dict quote_from_dict qs
    quotes_back [] h = tt
    quotes_back (q ∷ qs) h = (quote_back q ∙ h.0, quotes_back qs h.1)

    slice_back :
        (s : SliceData F)
        → slice_data s ≡ ok s
        → All (λ (q : QuoteData F). quote_data q ≡ ok q) s.quotes
        → slice_from_dict (slice_to_dict iso s) ≡ ok s
    unfolding slice_from_dict slice_to_dict
    slice_back s made quotes =
        rw
          (
            law.parse-format s.expiry,
            each-items quote_to_dict quote_from_dict s.quotes (quotes_back s.quotes quotes),
            flags_back F s.flags,
          )
          made

    slices_back :
        (ss : List (SliceData F))
        → All
            (λ (p : SliceData F).
              (slice_data p ≡ ok p) × All (λ (q : QuoteData F). quote_data q ≡ ok q) p.quotes)
            ss
        → Each (slice_to_dict iso) slice_from_dict ss
    slices_back [] h = tt
    slices_back (s ∷ ss) h = (slice_back s h.0.0 h.0.1, slices_back ss h.1)

    quality_back :
        (q : QualityBlock F)
        → quality_block q ≡ ok q
        → quality_from_dict (quality_to_dict iso q) ≡ ok q
    unfolding quality_from_dict quality_to_dict
    quality_back q made = rw (number_back q.forward_crosscheck_error) made

    -- A snapshot whose constructors accepted it, and all it holds, survives the wire when its version is
    -- one that this build reads: `from_dict` of its `to_dict` is the same snapshot.
    pub snapshot_from_dict-snapshot_to_dict :
        (s : MarketSnapshot F)
        → IsBuilt s
        → s.schema_version ≤ 1
        → snapshot_from_dict (snapshot_to_dict iso s) ≡ ok s
    unfolding snapshot_from_dict snapshot_to_dict
    snapshot_from_dict-snapshot_to_dict s built readable =
        let current : ltb 1 s.schema_version ≡ false = ground arith in
        rw
          (
            current,
            law.parse-format s.ts_exchange,
            law.parse-format s.ts_local,
            each-items (slice_to_dict iso) slice_from_dict s.slices
                (slices_back s.slices built.parts),
            quality_back s.quality built.rated,
          )
          built.whole
