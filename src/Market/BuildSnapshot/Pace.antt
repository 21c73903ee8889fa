-- ===== src/Market/BuildSnapshot/Pace.antt =====
-- The pace of publication, over any run of cycles of volengine/market_data/application/build_snapshot.py.
use volengine.Base.{◌≡◌, subst, arith, true, Option, none, some, List, [], ◌∷◌}
use volengine.Base.Results.{Result, ok}
use volengine.Base.Instants.{Instant, elapsed, require_aware}
use volengine.Base.Floats.{Float, IsComparable}
use volengine.Contracts.Snapshot.{MarketSnapshot}
use volengine.Market.QuoteChain.{QuoteChain}
use volengine.Market.SnapshotPolicy.{
  SnapshotPolicyConfig, ChainStats, cadence_elapsed, due_after, is_due, should_emit,
}
use volengine.Market.BuildSnapshot.{Settings, Builder, build}
use volengine.Market.BuildSnapshot.Outcomes.{Ended, raised, idle, published}
use volengine.Market.BuildSnapshot.Cycle.{build-Ended}

module _ {F : Type 0} ⦃f : Float F⦄ where
  -- Instants of which each is at least the cadence after the one before.
  abbrev pub Spaced : F → Option Instant → List Instant → Type 0
  Spaced cadence last [] = Unit {0}
  Spaced cadence none (t ∷ ts) = Spaced cadence (some t) ts
  Spaced cadence (some last) (t ∷ ts) =
      (f.le cadence (f.seconds (elapsed t last)) ≡ true) × Spaced cadence (some t) ts

  -- The instant of a cycle that published, before those of the later ones.
  abbrev pub then_at : Instant → Result (Option (MarketSnapshot F)) → List Instant → List Instant
  then_at now (ok (some m)) later = now ∷ later
  then_at now _ later = later

  paced :
      (c : SnapshotPolicyConfig F) (stats : ChainStats F) (move : F) (last now : Instant)
      → should_emit c stats move (some last) now ≡ ok true
      → f.le c.cadence_seconds (f.seconds (elapsed now last)) ≡ true
  unfolding should_emit is_due cadence_elapsed due_after require_aware
  paced c stats move last now h = ground (arith, h)

  emitted-Spaced :
      (c : SnapshotPolicyConfig F) (stats : ChainStats F) (move : F) (last : Option Instant)
      (now : Instant) (later : List Instant)
      → should_emit c stats move last now ≡ ok true
      → Spaced c.cadence_seconds (some now) later
      → Spaced c.cadence_seconds last (now ∷ later)
  emitted-Spaced c stats move none now later h rest = rest
  emitted-Spaced c stats move (some last) now later h rest = (paced c stats move last now h, rest)

module _ {F : Type 0} ⦃f : Float F⦄ ⦃c : IsComparable F⦄ where
  ended-Spaced :
      {s : Settings F} {now : Instant} {b b' : Builder F} {r : Result (Option (MarketSnapshot F))}
      (later : List Instant)
      → Ended s now b r b'
      → Spaced s.policy.cadence_seconds b'.last_emit later
      → Spaced s.policy.cadence_seconds b.last_emit (then_at now r later)
  ended-Spaced later (raised because) rest = rest
  ended-Spaced {s = s} later (idle h) rest =
      subst (λ last. Spaced s.policy.cadence_seconds last later) h.same_emission rest
  ended-Spaced {s = s} {b = b} later (published h) rest =
      emitted-Spaced s.policy h.frozen.stats _ b.last_emit _ later h.willing
        (subst (λ last. Spaced s.policy.cadence_seconds last later) h.emitted rest)

  -- The instants at which a run of cycles published. Before each cycle the chain is whatever the
  -- updates and inventories have made of it.
  unfoldable pub publications :
      Settings F → List ((QuoteChain F → QuoteChain F) × Instant) → Builder F → List Instant
  publications s [] b = []
  publications s ((change, now) ∷ calls) b =
      let (r, b') = build s now (record b { chain = change b.chain }) in
      then_at now r (publications s calls b')

  -- Whatever happens to the chain between the cycles, and whichever of them raise, decline or find an
  -- empty view, each snapshot that is published is at least the cadence after the one before, the
  -- first after the last emission that the run started with.
  pub publications-Spaced :
      (s : Settings F) (calls : List ((QuoteChain F → QuoteChain F) × Instant)) (b : Builder F)
      → Spaced s.policy.cadence_seconds b.last_emit (publications s calls b)
  unfolding publications
  publications-Spaced s [] b = tt
  publications-Spaced s ((change, now) ∷ calls) b =
      let b0 : Builder F = record b { chain = change b.chain } in
      ended-Spaced (publications s calls (build s now b0).1) (build-Ended s now b0)
        (publications-Spaced s calls (build s now b0).1)
