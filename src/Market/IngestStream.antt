-- ===== src/Market/IngestStream.antt =====
-- volengine/market_data/application/ingest_stream.py, with the events of acl.py: one market's ingestion
-- as the turns of its two tasks and of the heartbeat that the pipeline runs beside them.
pub mod Inventory
pub mod Counters
use volengine.Base.{
  ℕ, String, Bool, true, false, not, ◌&&◌, Option, none, some, List, [], ◌∷◌, ◌++◌, map, length,
  ltb, if◌then◌else◌, ◌==◌ as same_number,
}
use Prim.Native.Char.{code}
use Prim.Native.String.{◌++◌ as followed_by}
use volengine.Base.Results.{Result, ok, err, value_error, guard, ◌>>=◌, ◌>>◌}
use volengine.Base.Instants.{Instant}
use volengine.Base.Floats.{Float, IsComparable}
use volengine.Base.Keys.{◌==◌, string_key}
use volengine.Base.Dict.{member}
use volengine.Base.Sorting.{sort_by}
use volengine.Contracts.Surface.{every}
use volengine.Contracts.Snapshot.{MarketSnapshot}
use volengine.Contracts.Events.{
  Event, ChainCompositionChanged, snapshot_ready, chain_composition_changed,
}
use volengine.Platform.Metrics.{Measurement, counter}
use volengine.Market.Quotes.{OptionKindD, InstrumentId, QuoteUpdate, instrument_key}
use volengine.Market.QuoteChain.{QuoteChain, apply, add_live, live_set, set_live_instruments}
use volengine.Market.BuildSnapshot.{Settings, Builder, build}

-- The order of `str`.
unfoldable pub text_before : String → String → Bool
text_before String.[] String.[] = false
text_before String.[] (String.◌∷◌ d t) = true
text_before (String.◌∷◌ c s) String.[] = false
text_before (String.◌∷◌ c s) (String.◌∷◌ d t) =
    let later = text_before s t in
    if same_number (code c) (code d) then later else ltb (code c) (code d)

-- How Python spells an instant (`isoformat`) and a strike (`{:g}`).
pub record Spelling (F : Type 0) : Type 0 where
  pub iso_format : Instant → String
  pub general : F → String

-- `OptionKindD`'s values
unfoldable pub kind_text : OptionKindD → String
kind_text OptionKindD.call = "CALL"
kind_text OptionKindD.put = "PUT"

unfoldable pub key_text : {F : Type 0} → Spelling F → InstrumentId F → String
unfolding kind_text
key_text w i = followed_by i.underlying (
    followed_by "|" (
      followed_by (w.iso_format i.expiry)
        (followed_by "|" (followed_by (w.general i.strike) (followed_by "|" (kind_text i.kind))))))

-- `to_composition_changed`
unfoldable pub to_composition_changed :
    {F : Type 0} → Spelling F → String → Instant → List (InstrumentId F) → ChainCompositionChanged
unfolding key_text text_before
to_composition_changed w market_id ts instruments = record {
  market_id = market_id;
  ts = ts;
  instruments = sort_by text_before (map (key_text w) instruments);
}

-- The use case, with the snapshot cycle that shares its chain; the cycle's log is the one sink of both.
pub record Ingest (F : Type 0) : Type 0 where
  pub market_id : String
  pub builder : Builder F
  pub live : List (InstrumentId F)

-- What a turn published, how it ended, and what it left.
pub record Turn (F : Type 0) : Type 0 where
  pub events : List (Event F)
  pub ended : Result (Unit {0})
  pub state : Ingest F

unfoldable pub ingest_stream_use_case : {F : Type 0} → String → Builder F → Result (Ingest F)
ingest_stream_use_case market_id builder = do
  guard (not (market_id == "")) value_error
  ok (record { market_id = market_id; builder = builder; live = [] })

module _ {F : Type 0} where
  abbrev pub with_chain : Ingest F → QuoteChain F → Ingest F
  with_chain st q = record st { builder = record st.builder { chain = q } }

  abbrev pub counted : String → Ingest F → Ingest F
  counted name st = record st {
    builder = record st.builder {
      log = st.builder.log ++ counter name 1 (("market", st.market_id) ∷ []) ∷ [];
    };
  }

  -- `_composition_event`
  unfoldable pub composition_event : Spelling F → Instant → Ingest F → Event F
  composition_event w now st =
      chain_composition_changed (to_composition_changed w st.market_id now st.live)

  unfoldable pub announced : Spelling F → Instant → Ingest F → Turn F
  unfolding composition_event
  announced w now st = record {
    events = composition_event w now st ∷ [];
    ended = ok tt;
    state = counted "marketdata.composition.changed" st;
  }

  unfoldable pub after_adopting :
      Spelling F → Instant → Ingest F → Result (Unit {0}) × QuoteChain F → Turn F
  unfolding announced
  after_adopting w now st (err e, q) = record {
    events = [];
    ended = err e;
    state = with_chain st q;
  }
  after_adopting w now st (ok tt, q) = announced w now (with_chain st q)

  -- `snapshot = self._build_snapshot.build()`, and its event
  unfoldable pub after_cycle : Ingest F → Result (Option (MarketSnapshot F)) × Builder F → Turn F
  after_cycle st (err e, b) = record {
    events = [];
    ended = err e;
    state = record st { builder = b };
  }
  after_cycle st (ok none, b) = record {
    events = [];
    ended = ok tt;
    state = record st { builder = b };
  }
  after_cycle st (ok (some m), b) = record {
    events = snapshot_ready m ∷ [];
    ended = ok tt;
    state = record st { builder = b };
  }

module _ {F : Type 0} ⦃f : Float F⦄ ⦃c : IsComparable F⦄ where
  -- `==` of two sets
  unfoldable pub same_set : List (InstrumentId F) → List (InstrumentId F) → Bool
  same_set a b = same_number (length a) (length b) && every (λ i. member i b) a

  -- `self._live = ...`, `set_live_instruments`, and the announcement
  unfoldable pub adopt : Spelling F → Instant → List (InstrumentId F) → Ingest F → Turn F
  unfolding after_adopting
  adopt w now live st =
      after_adopting w now (record st { live = live }) (set_live_instruments live st.builder.chain)

  -- `run`, up to the first quote
  unfoldable pub start : Spelling F → Instant → List (InstrumentId F) → Ingest F → Turn F
  unfolding adopt
  start w now discovered st = adopt w now (live_set discovered) st

  unfoldable pub rediscover : Spelling F → Instant → List (InstrumentId F) → Ingest F → Turn F
  unfolding adopt
  rediscover w now discovered st =
      let live = live_set discovered in
      if same_set live st.live
      then record { events = []; ended = ok tt; state = st }
      else adopt w now live st

  -- One call of the snapshot cycle, by the stream or by the heartbeat.
  unfoldable pub cycle : Settings F → Instant → Ingest F → Turn F
  unfolding after_cycle
  cycle s now st = after_cycle st (build s now st.builder)

  -- `if update.instrument not in self._live`, and the event
  unfoldable pub noticed : Spelling F → Instant → InstrumentId F → Ingest F → Turn F
  unfolding announced
  noticed w now i st =
      if member i st.live
      then record { events = []; ended = ok tt; state = st }
      else announced w now (record st { live = add_live st.live i })

  unfoldable pub then_cycle : Settings F → Instant → Turn F → Turn F
  unfolding cycle
  then_cycle s now turn =
      let next = cycle s now turn.state in
      record { events = turn.events ++ next.events; ended = next.ended; state = next.state }

  unfoldable pub after_applying :
      Settings F
      → Spelling F
      → Instant
      → Instant
      → InstrumentId F
      → Ingest F
      → Result (Unit {0}) × QuoteChain F
      → Turn F
  unfolding noticed then_cycle
  after_applying s w now later i st (err e, q) = record {
    events = [];
    ended = err e;
    state = with_chain st q;
  }
  after_applying s w now later i st (ok tt, q) =
      then_cycle s later (noticed w now i (counted "marketdata.update.applied" (with_chain st q)))

  -- One round of `async for update in self._provider.stream()`, with the clock's two readings
  unfoldable pub received :
      Settings F → Spelling F → Instant → Instant → QuoteUpdate F → Ingest F → Turn F
  unfolding after_applying
  received s w now later u st =
      after_applying s w now later u.instrument st (apply u st.builder.chain)
