-- ===== src/Market/BuildSnapshot.antt =====
-- volengine/market_data/application/build_snapshot.py: one market's snapshotting cycle.
pub mod Outcomes
pub mod Cycle
pub mod Pace
use volengine.Base.{
  ℕ, suc, String, Bool, true, false, Option, none, some, List, [], ◌∷◌, ◌++◌, if◌then◌else◌,
}
use volengine.Base.Results.{Result, ok, err, value_error, guard, ◌>>=◌, ◌>>◌}
use volengine.Base.Instants.{Instant}
use volengine.Base.Floats.{Float, IsComparable}
use volengine.Platform.Metrics.{Measurement, counter, gauge}
use volengine.Contracts.Snapshot.{MarketSnapshot}
use volengine.Market.Forward.{positive_number}
use volengine.Market.Conventions.{MarketConventions}
use volengine.Market.Admissibility.{AdmissibilityThresholds}
use volengine.Market.QuoteChain.{QuoteChain, max_relative_move_since_baseline, reset_move_baseline}
use volengine.Market.ChainSnapshot.{ChainSlice, ChainSnapshot, snapshot}
use volengine.Market.SnapshotPolicy.{
  SnapshotPolicyConfig, cadence_elapsed, is_due, should_emit, assess_quality,
}
use volengine.Market.Acl.{build_snapshot_id, clock_skew_seconds, to_market_snapshot}

-- What a market configures, with the spelling of a snapshot's identity.
pub record Settings (F : Type 0) : Type 0 where
  pub conventions : MarketConventions
  pub thresholds : AdmissibilityThresholds F
  pub policy : SnapshotPolicyConfig F
  pub max_skew_seconds : F
  pub digits : ℕ → String
  pub join : String → String → String

-- The fields of the use case that change, and what it sent to the metrics.
pub record Builder (F : Type 0) : Type 0 where
  pub chain : QuoteChain F
  pub last_emit : Option Instant
  pub sequence : ℕ
  pub log : List (Measurement F)

module _ {F : Type 0} ⦃f : Float F⦄ where
  -- `BuildSnapshotUseCase(...)`
  unfoldable pub build_snapshot_use_case : Settings F → QuoteChain F → Result (Builder F)
  build_snapshot_use_case s chain = do
    guard (positive_number s.max_skew_seconds) value_error
    ok (record { chain = chain; last_emit = none; sequence = 0; log = [] })

module _ {F : Type 0} where
  unfoldable pub observe_degraded : MarketSnapshot F → List (Measurement F)
  observe_degraded m =
      if m.quality.degraded
      then counter "marketdata.snapshot.degraded" 1 (("market", m.market_id) ∷ []) ∷ []
      else []

  -- `_observe`
  unfoldable pub observe : MarketSnapshot F → F → List (Measurement F)
  unfolding observe_degraded
  observe m skew =
      let tags = ("market", m.market_id) ∷ [] in
      counter "marketdata.snapshot.published" 1 tags
      ∷ gauge "marketdata.clock_skew_seconds" skew tags
      ∷ gauge "marketdata.coverage_ratio" m.quality.coverage_ratio tags
      ∷ gauge "marketdata.max_age_seconds" m.quality.max_age_seconds tags
      ∷ observe_degraded m

module _ {F : Type 0} ⦃f : Float F⦄ ⦃c : IsComparable F⦄ where
  -- The coverage half of the policy, asked on the frozen view.
  unfoldable pub after_due :
      Settings F → Instant → Builder F → F → Bool → Result (Option (ChainSnapshot F))
  after_due s now b move false = ok none
  after_due s now b move true = do
    frozen ← snapshot s.conventions s.thresholds b.chain now
    emit ← should_emit s.policy frozen.stats move b.last_emit now
    ok (if emit then some frozen else none)

  -- The rest of the timing half.
  unfoldable pub after_cadence :
      Settings F → Instant → Builder F → Bool → Result (Option (ChainSnapshot F))
  unfolding after_due
  after_cadence s now b false = ok none
  after_cadence s now b true = do
    let move = max_relative_move_since_baseline b.chain
    due ← is_due s.policy move b.last_emit now
    after_due s now b move due

  -- `build` up to the last answer of the policy: the frozen view, or `None`.
  unfoldable pub gate : Settings F → Instant → Builder F → Result (Option (ChainSnapshot F))
  unfolding after_cadence
  gate s now b = do paced ← cadence_elapsed s.policy b.last_emit now; after_cadence s now b paced

  unfoldable pub translated : Settings F → Builder F → ChainSnapshot F → Result (MarketSnapshot F)
  translated s b frozen = do
    identity ← build_snapshot_id s.digits s.join frozen.market_id b.sequence
    to_market_snapshot frozen identity (assess_quality s.policy frozen.stats) s.max_skew_seconds

  -- The state after an emission.
  unfoldable pub advanced : Instant → Builder F → ChainSnapshot F → MarketSnapshot F → Builder F
  advanced now b frozen m = record {
    chain = reset_move_baseline b.chain;
    last_emit = some now;
    sequence = suc b.sequence;
    log = b.log ++ observe m (clock_skew_seconds frozen);
  }

  unfoldable pub committed :
      Instant
      → Builder F
      → ChainSnapshot F
      → Result (MarketSnapshot F)
      → Result (Option (MarketSnapshot F)) × Builder F
  unfolding advanced
  committed now b frozen (err e) = (err e, b)
  committed now b frozen (ok m) = (ok (some m), advanced now b frozen m)

  -- `if not snapshot.slices`, and what follows it
  unfoldable pub publish_unless_empty :
      Settings F
      → Instant
      → Builder F
      → ChainSnapshot F
      → List (ChainSlice F)
      → Result (Option (MarketSnapshot F)) × Builder F
  unfolding committed translated
  publish_unless_empty s now b frozen [] = (
    ok none,
    record b {
      log = b.log ++ counter "marketdata.snapshot.empty" 1 (("market", frozen.market_id) ∷ []) ∷ [];
    },
  )
  publish_unless_empty s now b frozen (_ ∷ _) = committed now b frozen (translated s b frozen)

  unfoldable pub after_gate :
      Settings F
      → Instant
      → Builder F
      → Result (Option (ChainSnapshot F))
      → Result (Option (MarketSnapshot F)) × Builder F
  unfolding publish_unless_empty
  after_gate s now b (err e) = (err e, b)
  after_gate s now b (ok none) = (ok none, b)
  after_gate s now b (ok (some frozen)) = publish_unless_empty s now b frozen frozen.slices

  -- `build`, with the one reading of the clock
  unfoldable pub build :
      Settings F → Instant → Builder F → Result (Option (MarketSnapshot F)) × Builder F
  unfolding gate after_gate
  build s now b = after_gate s now b (gate s now b)
