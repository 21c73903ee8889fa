-- ===== src/Market/Examples.antt =====
-- The theorems of the emission policy at a concrete configuration.
use volengine.Base.{◌≡◌, refl, true, none, some}
use volengine.Base.Results.{ok}
use volengine.Base.Instants.{at}
use volengine.Base.Fixed.{Fixed, fixed_float, Fixed-IsOrdered, millionths}
use volengine.Base.{List, [], ◌∷◌}
use volengine.Base.Fixed.{Fixed-IsComparable}
use volengine.Market.Quotes.{InstrumentId, QuoteUpdate, call}
use volengine.Market.QuoteChain.{QuoteChain, new_chain, apply}
use volengine.Market.QuoteChain.Kept.{
  IsKept, ChainOp, tick, inventory, emitted, chain_run, chain_run-IsKept,
}
use volengine.Market.SnapshotPolicy.{
  ChainStats, SnapshotPolicyConfig, snapshot_policy_config, positive, non_negative, check_quiet,
  should_emit,
}
use volengine.Market.SnapshotPolicy.Emission.{should_emit_heartbeat}

abbrev config : SnapshotPolicyConfig Fixed
config = record {
  cadence_seconds = millionths 5_000_000;
  material_move_threshold = millionths 1_000;
  min_coverage_ratio = millionths 500_000;
  max_quiet_seconds = some (millionths 60_000_000);
}

abbrev stats : ChainStats Fixed
stats = record {
  n_instruments_known = 10;
  n_quotes_total = 8;
  n_quotes_admissible = 6;
  max_age_seconds = millionths 2_000_000;
  coverage_ratio = millionths 750_000;
}

config_made : snapshot_policy_config config ≡ ok config
unfolding snapshot_policy_config positive non_negative check_quiet
config_made = refl

-- A move that is not a number does not silence the heartbeat.
should_emit_heartbeat_example :
    should_emit config stats none (some (at 0)) (at 61_000_000) ≡ ok true
should_emit_heartbeat_example =
    should_emit_heartbeat Fixed-IsOrdered config stats none (millionths 60_000_000) (at 0)
      (at 61_000_000) config_made refl refl refl refl refl

abbrev june_call : InstrumentId Fixed
june_call = record {
  underlying = "BTC";
  expiry = at 900;
  strike = millionths 80_000_000_000;
  kind = call;
}

abbrev june_tick : QuoteUpdate Fixed
june_tick = record {
  instrument = june_call;
  observation = record {
    bid = some (millionths 50_000);
    ask = some (millionths 52_000);
    bid_size = millionths 1_000_000;
    ask_size = millionths 2_000_000;
    ts_exchange = at 10;
    ts_local = at 12;
    exchange_iv = none;
  };
  underlying_price = some (millionths 79_000_000_000);
}

abbrev chain_ops : List (ChainOp Fixed)
chain_ops = tick june_tick ∷ emitted ∷ inventory [] ∷ tick june_tick ∷ []

chain_run-IsKept_example :
    IsKept ⦃c = Fixed-IsComparable⦄ (chain_run ⦃c = Fixed-IsComparable⦄ chain_ops (new_chain "BTC"))
chain_run-IsKept_example = chain_run-IsKept ⦃c = Fixed-IsComparable⦄ chain_ops "BTC"

abbrev ticked : QuoteChain Fixed
ticked = (apply ⦃c = Fixed-IsComparable⦄ june_tick (new_chain "BTC")).1
