-- ===== src/Market/BuildSnapshot/Outcomes.antt =====
-- How a cycle of `build` can end, each ending with what it has done.
use volengine.Base.{suc, ◌≡◌, ◌⊎◌, true, false, Option, none, some, [], ◌∷◌}
use volengine.Base.Results.{Result, Error, ok, err}
use volengine.Base.Instants.{Instant}
use volengine.Base.Floats.{Float, IsComparable}
use volengine.Platform.Metrics.{total}
use volengine.Contracts.Snapshot.{MarketSnapshot}
use volengine.Base.Dict.{Dict}
use volengine.Market.Quotes.{InstrumentId, QuoteObservation, mid}
use volengine.Market.QuoteChain.{max_relative_move_since_baseline}
use volengine.Market.Acl.{build_snapshot_id, to_slices_data}
use volengine.Market.ChainSnapshot.{ChainSnapshot, snapshot}
use volengine.Market.SnapshotPolicy.{should_emit, assess_quality, is_degraded}
use volengine.Market.BuildSnapshot.{Settings, Builder, gate, translated}

module _ {F : Type 0} ⦃f : Float F⦄ ⦃c : IsComparable F⦄ where
  -- The baseline of the observations: their mids that are finite and positive, in order, and
  -- nothing else.
  pub data Rebased
      : Dict (InstrumentId F) (QuoteObservation F) → Dict (InstrumentId F) F → Type 0 where
    none_left : Rebased [] []
    marked :
        {d : Dict (InstrumentId F) (QuoteObservation F)} {base : Dict (InstrumentId F) F}
        {i : InstrumentId F} {o : QuoteObservation F} {m : F}
        → mid o ≡ some m
        → f.is_finite m ≡ true
        → f.le m (f.of_ℕ 0) ≡ false
        → Rebased d base
        → Rebased ((i, o) ∷ d) ((i, m) ∷ base)
    passed_over :
        {d : Dict (InstrumentId F) (QuoteObservation F)} {base : Dict (InstrumentId F) F}
        {i : InstrumentId F} {o : QuoteObservation F}
        → (mid o ≡ none)
          ⊎ ((m : F) × (mid o ≡ some m) × ((f.is_finite m ≡ false) ⊎ (f.le m (f.of_ℕ 0) ≡ true)))
        → Rebased d base
        → Rebased ((i, o) ∷ d) base

  -- A snapshot that says what the frozen view says, under the number of the state before.
  pub record IsTranslation (s : Settings F) (b : Builder F) (frozen : ChainSnapshot F)
      (m : MarketSnapshot F) : Type 0 where
    pub numbered : build_snapshot_id s.digits s.join frozen.market_id b.sequence ≡ ok m.snapshot_id
    pub same_market : m.market_id ≡ frozen.market_id
    pub same_underlying : m.underlying ≡ frozen.underlying
    pub same_instant : m.ts_local ≡ frozen.ts_local
    pub whole : to_slices_data frozen.slices ≡ ok m.slices
    pub judged : m.quality.degraded ≡ is_degraded (assess_quality s.policy frozen.stats)
    pub covered : m.quality.coverage_ratio ≡ frozen.stats.coverage_ratio

  -- What a cycle that publishes `m` has done.
  pub record IsPublished (s : Settings F) (now : Instant) (b b' : Builder F) (m : MarketSnapshot F)
      : Type 0 where
    pub frozen : ChainSnapshot F
    pub view : snapshot s.conventions s.thresholds b.chain now ≡ ok frozen
    pub willing :
        should_emit s.policy frozen.stats (max_relative_move_since_baseline b.chain) b.last_emit now
        ≡ ok true
    pub occupied : ¬ (frozen.slices ≡ [])
    pub translation : IsTranslation s b frozen m
    pub emitted : b'.last_emit ≡ some now
    pub next_sequence : b'.sequence ≡ suc b.sequence
    pub counted :
        total "marketdata.snapshot.published" b'.log
        ≡ suc (total "marketdata.snapshot.published" b.log)
    pub rebased : Rebased b.chain.observations b'.chain.baseline_mids
    pub same_observations : b'.chain.observations ≡ b.chain.observations
    pub same_live : b'.chain.live ≡ b.chain.live
    pub same_forwards : b'.chain.forwards ≡ b.chain.forwards

  -- What a cycle that publishes nothing has done, and why: the policy declined, or the view is empty.
  pub record IsIdle (s : Settings F) (now : Instant) (b b' : Builder F) : Type 0 where
    pub because :
        (gate s now b ≡ ok none)
        ⊎ ((frozen : ChainSnapshot F) × (gate s now b ≡ ok (some frozen)) × (frozen.slices ≡ []))
    pub same_chain : b'.chain ≡ b.chain
    pub same_emission : b'.last_emit ≡ b.last_emit
    pub same_sequence : b'.sequence ≡ b.sequence
    pub same_count :
        total "marketdata.snapshot.published" b'.log ≡ total "marketdata.snapshot.published" b.log

  -- What raised: the tests, with the freezing of the view, or the translation.
  abbrev pub Raises : Settings F → Instant → Builder F → Error → Type 0
  Raises s now b e =
      (gate s now b ≡ err e)
      ⊎ ((frozen : ChainSnapshot F) × (gate s now b ≡ ok (some frozen))
          × (translated s b frozen ≡ err e))

  -- How a cycle can end.
  pub data Ended (s : Settings F) (now : Instant) (b : Builder F)
      : Result (Option (MarketSnapshot F)) → Builder F → Type 0 where
    raised : {e : Error} → Raises s now b e → Ended s now b (err e) b
    idle : {b' : Builder F} → IsIdle s now b b' → Ended s now b (ok none) b'
    published :
        {b' : Builder F} {m : MarketSnapshot F}
        → IsPublished s now b b' m
        → Ended s now b (ok (some m)) b'
