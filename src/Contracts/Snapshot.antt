-- ===== src/Contracts/Snapshot.antt =====
-- volengine/contracts/market_snapshot.py: the snapshot that both producers receive, with the checks of
-- its constructors in their order. Counts are naturals: the checks below zero have nothing to refuse.
pub mod WireFormat
use volengine.Base.{
  ℕ, String, Bool, true, false, not, ◌&&◌, ◌||◌, Option, none, some, List, [], ◌∷◌, ltb, map,
  if◌then◌else◌,
}
use volengine.Base.Results.{Result, ok, err, value_error, guard, ◌>>=◌, ◌>>◌}
use volengine.Base.Instants.{Instant, before, require_aware}
use volengine.Base.Floats.{Float}
use volengine.Base.Keys.{◌==◌, string_key}
use volengine.Contracts.Surface.{increasing}

pub data OptionKind : Type 0 where
  call put : OptionKind

pub data QuoteFlag : Type 0 where
  stale wide_spread crossed low_size extreme_moneyness iv_divergence : QuoteFlag
  slice_monotonicity slice_convexity : QuoteFlag

pub record QuoteData (F : Type 0) : Type 0 where
  pub strike : F
  pub kind : OptionKind
  pub mid : F
  pub spread_rel : F
  pub age_seconds : F
  pub flags : List QuoteFlag
  pub exchange_iv : Option F

pub record SliceData (F : Type 0) : Type 0 where
  pub expiry : Instant
  pub tenor_years : F
  pub forward : F
  pub quotes : List (QuoteData F)
  pub flags : List QuoteFlag

pub record QualityBlock (F : Type 0) : Type 0 where
  pub coverage_ratio : F
  pub max_age_seconds : F
  pub n_quotes_admissible : ℕ
  pub n_quotes_total : ℕ
  pub forward_crosscheck_error : Option F
  pub degraded : Bool

pub record MarketSnapshot (F : Type 0) : Type 0 where
  pub snapshot_id : String
  pub market_id : String
  pub ts_exchange : Instant
  pub ts_local : Instant
  pub underlying : String
  pub slices : List (SliceData F)
  pub quality : QualityBlock F
  pub schema_version : ℕ

module _ {F : Type 0} ⦃f : Float F⦄ where
  -- `x <= 0 or not math.isfinite(x)` refused, and with `<`
  unfoldable pub usable : F → Bool
  usable x = not (f.le x (f.of_ℕ 0) || not (f.is_finite x))

  unfoldable pub quote_data : QuoteData F → Result (QuoteData F)
  quote_data q = do
    guard (usable q.strike) value_error
    guard (usable q.mid) value_error
    guard (not (f.lt q.spread_rel (f.of_ℕ 0) || not (f.is_finite q.spread_rel))) value_error
    ok q

  unfoldable pub slice_data : SliceData F → Result (SliceData F)
  slice_data s = do
    guard (usable s.tenor_years) value_error
    guard (usable s.forward) value_error
    require_aware s.expiry
    ok s

  unfoldable pub absent_or_not_negative : Option F → Bool
  absent_or_not_negative none = true
  absent_or_not_negative (some x) = not (f.lt x (f.of_ℕ 0))

  unfoldable pub quality_block : QualityBlock F → Result (QualityBlock F)
  quality_block q = do
    guard (f.le (f.of_ℕ 0) q.coverage_ratio && f.le q.coverage_ratio (f.of_ℕ 1)) value_error
    guard (not (f.lt q.max_age_seconds (f.of_ℕ 0))) value_error
    guard (not (ltb q.n_quotes_total q.n_quotes_admissible)) value_error
    guard (absent_or_not_negative q.forward_crosscheck_error) value_error
    ok q

abbrev pub earlier_slice : {F : Type 0} → SliceData F → SliceData F → Bool
earlier_slice near far = before near.expiry far.expiry

unfoldable pub market_snapshot : {F : Type 0} → MarketSnapshot F → Result (MarketSnapshot F)
market_snapshot s = do
  guard (not (s.market_id == "")) value_error
  require_aware s.ts_exchange
  require_aware s.ts_local
  guard (increasing earlier_slice s.slices) value_error
  ok s
