-- ===== src/Market/BuildSnapshot/Cycle.antt =====
-- One cycle: the cheap tests decide what the whole policy decides, and only an emission moves the state.
use volengine.Base.{
  ◌≡◌, refl, sym, ap, ◌∙◌, inl, inr, Bool-cases, arith, String, Bool, true, false, not, ◌&&◌, ◌||◌,
  Option, none, some, List, [], ◌∷◌, ◌++◌, if◌then◌else◌,
}
use volengine.Base.Results.{Result, ok, err, ◌>>=◌, >>=-eq-ok}
use volengine.Base.Instants.{Instant, require_aware}
use volengine.Base.Floats.{Float, IsComparable}
use volengine.Platform.Metrics.{Measurement, counter, total, total-append}
use volengine.Contracts.Snapshot.{MarketSnapshot, QualityBlock, market_snapshot, quality_block}
use volengine.Base.Dict.{Dict}
use volengine.Market.Quotes.{InstrumentId, QuoteObservation, mid}
use volengine.Market.QuoteChain.{
  max_relative_move_since_baseline, usable_mid, mids_of, reset_move_baseline,
}
use volengine.Market.Acl.{
  build_snapshot_id, to_slices_data, to_market_snapshot, reconcile_exchange_instant,
  forward_crosscheck_error, clock_skew_seconds,
}
use volengine.Market.ChainSnapshot.{ChainSlice, ChainSnapshot, snapshot}
use volengine.Market.SnapshotPolicy.{cadence_elapsed, due_after, is_due, should_emit}
use volengine.Market.SnapshotPolicy.Emission.{should_emit-eq-is_due}
use volengine.Market.BuildSnapshot.{
  Settings, Builder, after_due, after_cadence, gate, translated, advanced, committed,
  publish_unless_empty, after_gate, build, observe, observe_degraded,
}
use volengine.Market.BuildSnapshot.Outcomes.{
  Rebased, none_left, marked, passed_over, IsTranslation, Ended, raised, idle, published,
}

market_snapshot_eq : {F : Type 0} (r m : MarketSnapshot F) → market_snapshot r ≡ ok m → r ≡ m
unfolding market_snapshot require_aware
market_snapshot_eq r m h = ground (arith, h)

module _ {F : Type 0} ⦃f : Float F⦄ where
  quality_block_eq : (r q : QualityBlock F) → quality_block r ≡ ok q → r ≡ q
  unfolding quality_block
  quality_block_eq r q h = ground (arith, h)

module _ {F : Type 0} ⦃f : Float F⦄ ⦃c : IsComparable F⦄ where
  -- What the whole policy, asked at once, makes of a frozen view.
  abbrev pub verdict :
      Settings F → Instant → Builder F → ChainSnapshot F → Result (Option (ChainSnapshot F))
  verdict s now b frozen =
      should_emit s.policy frozen.stats (max_relative_move_since_baseline b.chain) b.last_emit now
      >>= λ emit. ok (if emit then some frozen else none)

  verdict_timed :
      (s : Settings F) (now : Instant) (b : Builder F) (frozen : ChainSnapshot F)
      → verdict s now b frozen ≡ (
          (is_due s.policy (max_relative_move_since_baseline b.chain) b.last_emit now >>= λ due.
          ok (due && not (f.le frozen.stats.coverage_ratio (f.of_ℕ 0))))
          >>= λ emit. ok (if emit then some frozen else none))
  verdict_timed s now b frozen =
      ap (λ m. m >>= λ emit. ok (if emit then some frozen else none))
        (should_emit-eq-is_due s.policy frozen.stats (max_relative_move_since_baseline b.chain)
          b.last_emit now)

  after_due-eq-verdict :
      (s : Settings F) (now : Instant) (b : Builder F) (frozen : ChainSnapshot F)
      (due : Result Bool)
      → snapshot s.conventions s.thresholds b.chain now ≡ ok frozen
      → is_due s.policy (max_relative_move_since_baseline b.chain) b.last_emit now ≡ due
      → (due >>= λ d. after_due s now b (max_relative_move_since_baseline b.chain) d)
        ≡ verdict s now b frozen
  unfolding after_due
  after_due-eq-verdict s now b frozen (err e) h d = rw (verdict_timed s now b frozen, d) refl
  after_due-eq-verdict s now b frozen (ok false) h d = rw (verdict_timed s now b frozen, d) refl
  after_due-eq-verdict s now b frozen (ok true) h d = rw h refl

  after_cadence-eq-verdict :
      (s : Settings F) (now : Instant) (b : Builder F) (frozen : ChainSnapshot F)
      (paced : Result Bool)
      → snapshot s.conventions s.thresholds b.chain now ≡ ok frozen
      → cadence_elapsed s.policy b.last_emit now ≡ paced
      → (paced >>= λ p. after_cadence s now b p) ≡ verdict s now b frozen
  unfolding after_cadence is_due due_after
  after_cadence-eq-verdict s now b frozen (err e) h p = rw (verdict_timed s now b frozen, p) refl
  after_cadence-eq-verdict s now b frozen (ok false) h p = rw (verdict_timed s now b frozen, p) refl
  after_cadence-eq-verdict s now b frozen (ok true) h p =
      after_due-eq-verdict s now b frozen _ h refl

  -- The order of the tests does not change what is published: where the chain can be frozen, asking
  -- the cadence, then the movement, then freezing and asking the whole policy gives the frozen view
  -- exactly when the whole policy, asked at once, says so, and raises when it raises.
  pub gate-eq-should_emit :
      (s : Settings F) (now : Instant) (b : Builder F) (frozen : ChainSnapshot F)
      → snapshot s.conventions s.thresholds b.chain now ≡ ok frozen
      → gate s now b ≡ (
          should_emit s.policy frozen.stats
            (max_relative_move_since_baseline b.chain)
            b.last_emit
            now
          >>= λ emit. ok (if emit then some frozen else none))
  unfolding gate
  gate-eq-should_emit s now b frozen h = after_cadence-eq-verdict s now b frozen _ h refl

  abbrev usable_of : Option F → Option F
  usable_of r = elim r [
    | none ↦ none
    | some m ↦ if not (f.is_finite m) || f.le m (f.of_ℕ 0) then none else some m
  ]

  rebase_one :
      (i : InstrumentId F) (o : QuoteObservation F) (d : Dict (InstrumentId F) (QuoteObservation F))
      (base : Dict (InstrumentId F) F) (r : Option F)
      → mid o ≡ r
      → Rebased d base
      → Rebased ((i, o) ∷ d) (elim (usable_of r) as (λ x. Dict (InstrumentId F) F) [
        | none ↦ base
        | some m ↦ (i, m) ∷ base
      ])
  rebase_one i o d base none h rest = passed_over (inl h) rest
  rebase_one i o d base (some m) h rest = elim (Bool-cases (f.is_finite m)) [
    | inr odd ↦ rw odd (passed_over (inr (m, h, inl odd)) rest)
    | inl known ↦ elim (Bool-cases (f.le m (f.of_ℕ 0))) [
      | inl low ↦ rw (known, low) (passed_over (inr (m, h, inr low)) rest)
      | inr high ↦ rw (known, high) (marked h known high rest)
    ]
  ]

  mids_of-Rebased : (d : Dict (InstrumentId F) (QuoteObservation F)) → Rebased d (mids_of d)
  unfolding mids_of usable_mid
  mids_of-Rebased [] = none_left
  mids_of-Rebased ((i, o) ∷ d) = rebase_one i o d (mids_of d) (mid o) refl (mids_of-Rebased d)

  kept_view :
      (emit : Bool) (seen frozen : ChainSnapshot F)
      → ok (if emit then some seen else none) ≡ ok (some frozen)
      → seen ≡ frozen
  kept_view true seen frozen h = cc
  kept_view false seen frozen h = cc

  due_view :
      (s : Settings F) (now : Instant) (b : Builder F) (frozen : ChainSnapshot F) (due : Bool)
      → after_due s now b (max_relative_move_since_baseline b.chain) due ≡ ok (some frozen)
      → snapshot s.conventions s.thresholds b.chain now ≡ ok frozen
  unfolding after_due
  due_view s now b frozen false h = cc
  due_view s now b frozen true h =
      let (seen, view, rest) = >>=-eq-ok (snapshot s.conventions s.thresholds b.chain now) _ h in
      let (emit, told, same) =
        >>=-eq-ok (should_emit s.policy seen.stats _ b.last_emit now) _ rest in
      view ∙ ap ok (kept_view emit seen frozen same)

  cadence_view :
      (s : Settings F) (now : Instant) (b : Builder F) (frozen : ChainSnapshot F) (paced : Bool)
      → after_cadence s now b paced ≡ ok (some frozen)
      → snapshot s.conventions s.thresholds b.chain now ≡ ok frozen
  unfolding after_cadence
  cadence_view s now b frozen false h = cc
  cadence_view s now b frozen true h =
      let (due, told, rest) =
        >>=-eq-ok (is_due s.policy (max_relative_move_since_baseline b.chain) b.last_emit now) _
          h in
      due_view s now b frozen due rest

  -- The view that the gate lets through is the chain's, and the whole policy wants it emitted.
  gate_view :
      (s : Settings F) (now : Instant) (b : Builder F) (frozen : ChainSnapshot F)
      → gate s now b ≡ ok (some frozen)
      → snapshot s.conventions s.thresholds b.chain now ≡ ok frozen
  unfolding gate
  gate_view s now b frozen h =
      let (paced, told, rest) = >>=-eq-ok (cadence_elapsed s.policy b.last_emit now) _ h in
      cadence_view s now b frozen paced rest

  emitted_only :
      (r : Result Bool) (frozen : ChainSnapshot F)
      → (r >>= λ emit. ok (if emit then some frozen else none)) ≡ ok (some frozen)
      → r ≡ ok true
  emitted_only (err e) frozen h = cc
  emitted_only (ok true) frozen h = refl
  emitted_only (ok false) frozen h = cc

  gate_willing :
      (s : Settings F) (now : Instant) (b : Builder F) (frozen : ChainSnapshot F)
      → gate s now b ≡ ok (some frozen)
      → should_emit s.policy frozen.stats (max_relative_move_since_baseline b.chain) b.last_emit now
        ≡ ok true
  gate_willing s now b frozen h =
      emitted_only _ frozen
        (sym (gate-eq-should_emit s now b frozen (gate_view s now b frozen h)) ∙ h)

  translated-IsTranslation :
      (s : Settings F) (b : Builder F) (frozen : ChainSnapshot F) (m : MarketSnapshot F)
      → translated s b frozen ≡ ok m
      → IsTranslation s b frozen m
  unfolding translated to_market_snapshot
  translated-IsTranslation s b frozen m h =
      let (identity, numbered, h1) =
        >>=-eq-ok (build_snapshot_id s.digits s.join frozen.market_id b.sequence) _ h in
      let (ts, stamped, h2) =
        >>=-eq-ok (reconcile_exchange_instant frozen.ts_exchange frozen.ts_local s.max_skew_seconds)
          _ h1 in
      let (slices, whole, h3) = >>=-eq-ok (to_slices_data frozen.slices) _ h2 in
      let (error, checked, h4) = >>=-eq-ok (forward_crosscheck_error frozen) _ h3 in
      let (block, made, h5) = >>=-eq-ok (quality_block _) _ h4 in
      let same = market_snapshot_eq _ m h5 in
      let own = quality_block_eq _ block made in
      record {
        numbered = numbered ∙ ap (λ x. ok x.snapshot_id) same;
        same_market = sym (ap (λ x. x.market_id) same);
        same_underlying = sym (ap (λ x. x.underlying) same);
        same_instant = sym (ap (λ x. x.ts_local) same);
        whole = whole ∙ ap (λ x. ok x.slices) same;
        judged = sym (ap (λ x. x.degraded) own ∙ ap (λ x. x.quality.degraded) same);
        covered = sym (ap (λ x. x.coverage_ratio) own ∙ ap (λ x. x.quality.coverage_ratio) same);
      }

  published_count :
      (m : MarketSnapshot F) (skew : F) → total "marketdata.snapshot.published" (observe m skew) ≡ 1
  unfolding observe observe_degraded total
  published_count m skew = elim (Bool-cases m.quality.degraded) [
    | inl h ↦ rw h refl
    | inr h ↦ rw h refl
  ]

  committed_ended :
      (s : Settings F) (now : Instant) (b : Builder F) (frozen : ChainSnapshot F)
      (m : Result (MarketSnapshot F))
      → gate s now b ≡ ok (some frozen)
      → ¬ (frozen.slices ≡ [])
      → translated s b frozen ≡ m
      → Ended s now b (committed now b frozen m).0 (committed now b frozen m).1
  unfolding committed advanced reset_move_baseline
  committed_ended s now b frozen (err e) g o t = raised (inr (frozen, g, t))
  committed_ended s now b frozen (ok m) g o t = published (record {
    frozen = frozen;
    view = gate_view s now b frozen g;
    willing = gate_willing s now b frozen g;
    occupied = o;
    translation = translated-IsTranslation s b frozen m t;
    emitted = refl;
    next_sequence = refl;
    counted = omega (
      arith,
      total-append "marketdata.snapshot.published" b.log (observe m (clock_skew_seconds frozen)),
      published_count m (clock_skew_seconds frozen),
    );
    rebased = mids_of-Rebased b.chain.observations;
    same_observations = refl;
    same_live = refl;
    same_forwards = refl;
  })

  empty_count :
      (log : List (Measurement F)) (tags : List (String × String))
      → total "marketdata.snapshot.published"
          (log ++ counter "marketdata.snapshot.empty" 1 tags ∷ [])
        ≡ total "marketdata.snapshot.published" log
  unfolding total
  empty_count log tags = omega (
    arith,
    total-append "marketdata.snapshot.published" log
        (counter "marketdata.snapshot.empty" 1 tags ∷ []),
  )

  publish_ended :
      (s : Settings F) (now : Instant) (b : Builder F) (frozen : ChainSnapshot F)
      (slices : List (ChainSlice F))
      → gate s now b ≡ ok (some frozen)
      → frozen.slices ≡ slices
      → let r = publish_unless_empty s now b frozen slices in Ended s now b r.0 r.1
  unfolding publish_unless_empty
  publish_ended s now b frozen [] g e = idle (record {
    because = inr (frozen, g, e);
    same_chain = refl;
    same_emission = refl;
    same_sequence = refl;
    same_count = empty_count b.log (("market", frozen.market_id) ∷ []);
  })
  publish_ended s now b frozen (part ∷ slices) g e =
      committed_ended s now b frozen _ g (λ none_left. cc) refl

  gate_ended :
      (s : Settings F) (now : Instant) (b : Builder F) (g : Result (Option (ChainSnapshot F)))
      → gate s now b ≡ g
      → let r = after_gate s now b g in Ended s now b r.0 r.1
  unfolding after_gate
  gate_ended s now b (err e) g = raised (inl g)
  gate_ended s now b (ok none) g = idle (record {
    because = inl g;
    same_chain = refl;
    same_emission = refl;
    same_sequence = refl;
    same_count = refl;
  })
  gate_ended s now b (ok (some frozen)) g = publish_ended s now b frozen frozen.slices g refl

  pub build-Ended :
      (s : Settings F) (now : Instant) (b : Builder F)
      → Ended s now b (build s now b).0 (build s now b).1
  unfolding build
  build-Ended s now b = gate_ended s now b _ refl
