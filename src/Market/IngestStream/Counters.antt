-- ===== src/Market/IngestStream/Counters.antt =====
-- The sequence number, the counter of published snapshots and the published events agree.
use volengine.Base.{
  ℕ, suc, ◌+◌, ◌≡◌, refl, inl, inr, Bool-cases, arith, String, false, Option, List, [], ◌∷◌, ◌++◌,
}
use volengine.Base.Results.{Result, Result-cases, ok, err}
use volengine.Base.Instants.{Instant}
use volengine.Base.Floats.{Float, IsComparable}
use volengine.Base.Keys.{◌==◌, string_key}
use volengine.Base.Dict.{member}
use volengine.Contracts.Snapshot.{MarketSnapshot}
use volengine.Contracts.Events.{
  Event, snapshot_ready, surface_calibrated, chain_composition_changed, calibration_failed,
}
use volengine.Platform.Metrics.{counter, total, total-append}
use volengine.Market.Quotes.{InstrumentId, instrument_key}
use volengine.Market.QuoteChain.{QuoteChain, add_live, live_set}
use volengine.Market.BuildSnapshot.{Settings, Builder, advanced}
use volengine.Market.BuildSnapshot.Outcomes.{Ended, raised, idle, published}
use volengine.Market.BuildSnapshot.Cycle.{build-Ended}
use volengine.Market.IngestStream.{
  Spelling, Ingest, Turn, with_chain, counted, announced, after_adopting, after_cycle, same_set,
  adopt, start, rediscover, cycle, noticed, then_cycle, after_applying, received,
}
use volengine.Market.IngestStream.Inventory.{
  Moment, started, heard, polled, beat, take_turn, ingest_run, ingest_run_raised, ingest_run_fine,
  followed,
}

module _ {F : Type 0} where
  -- The snapshots among the events of a session.
  abbrev pub snapshots : List (Event F) → ℕ
  snapshots [] = 0
  snapshots (snapshot_ready m ∷ events) = suc (snapshots events)
  snapshots (surface_calibrated m ∷ events) = snapshots events
  snapshots (chain_composition_changed m ∷ events) = snapshots events
  snapshots (calibration_failed m ∷ events) = snapshots events

  snapshots-append : (a b : List (Event F)) → snapshots (a ++ b) ≡ snapshots a + snapshots b
  snapshots-append [] b = omega arith
  snapshots-append (snapshot_ready m ∷ a) b = omega (arith, snapshots-append a b)
  snapshots-append (surface_calibrated m ∷ a) b = snapshots-append a b
  snapshots-append (chain_composition_changed m ∷ a) b = snapshots-append a b
  snapshots-append (calibration_failed m ∷ a) b = snapshots-append a b

  abbrev published_total : Ingest F → ℕ
  published_total st = total "marketdata.snapshot.published" st.builder.log

  -- A turn from a state numbers and counts each snapshot that it publishes.
  abbrev pub Numbered : Ingest F → Turn F → Type 0
  Numbered st turn =
      (turn.state.builder.sequence ≡ st.builder.sequence + snapshots turn.events)
      × (published_total turn.state ≡ published_total st + snapshots turn.events)

  counted_total :
      (st : Ingest F) (name : String)
      → (name == "marketdata.snapshot.published") ≡ false
      → published_total (counted name st) ≡ published_total st
  unfolding total
  counted_total st name h = ground (
    arith,
    total-append "marketdata.snapshot.published" st.builder.log
        (counter name 1 (("market", st.market_id) ∷ []) ∷ []),
  )

  followed-Numbered :
      (st : Ingest F) (turn rest : Turn F)
      → Numbered st turn
      → Numbered turn.state rest
      → Numbered st (followed turn rest)
  followed-Numbered st turn rest a b = (
    omega (arith, a.0, b.0, snapshots-append turn.events rest.events),
    omega (arith, a.1, b.1, snapshots-append turn.events rest.events),
  )

module _ {F : Type 0} ⦃f : Float F⦄ ⦃c : IsComparable F⦄ where
  after_cycle-Numbered :
      {s : Settings F} {now : Instant} {r : Result (Option (MarketSnapshot F))} {b' : Builder F}
      (st : Ingest F)
      → Ended s now st.builder r b'
      → Numbered st (after_cycle st (r, b'))
  unfolding after_cycle advanced
  after_cycle-Numbered st (raised because) = (omega arith, omega arith)
  after_cycle-Numbered st (idle h) = (omega (arith, h.same_sequence), omega (arith, h.same_count))
  after_cycle-Numbered st (published {m = m} h) =
      (omega (arith, h.next_sequence), omega (arith, h.counted))

  cycle-Numbered : (s : Settings F) (now : Instant) (st : Ingest F) → Numbered st (cycle s now st)
  unfolding cycle
  cycle-Numbered s now st = after_cycle-Numbered st (build-Ended s now st.builder)

  announced-Numbered :
      (w : Spelling F) (now : Instant) (st : Ingest F) → Numbered st (announced w now st)
  unfolding announced
  announced-Numbered w now st =
      (omega arith, omega (arith, counted_total st "marketdata.composition.changed" refl))

  adopted-Numbered :
      (w : Spelling F) (now : Instant) (st : Ingest F) (r : Result (Unit {0})) (q : QuoteChain F)
      → Numbered st (after_adopting w now st (r, q))
  unfolding after_adopting
  adopted-Numbered w now st (err e) q = (omega arith, omega arith)
  adopted-Numbered w now st (ok tt) q = announced-Numbered w now (with_chain st q)

  adopt-Numbered :
      (w : Spelling F) (now : Instant) (live : List (InstrumentId F)) (st : Ingest F)
      → Numbered st (adopt w now live st)
  unfolding adopt
  adopt-Numbered w now live st = adopted-Numbered w now (record st { live = live }) _ _

  polled-Numbered :
      (w : Spelling F) (now : Instant) (is : List (InstrumentId F)) (st : Ingest F)
      → Numbered st (rediscover w now is st)
  unfolding rediscover
  polled-Numbered w now is st = elim (Bool-cases (same_set (live_set is) st.live)) [
    | inl same ↦ rw same (omega arith, omega arith)
    | inr moved ↦ rw moved (adopt-Numbered w now (live_set is) st)
  ]

  noticed-Numbered :
      (w : Spelling F) (now : Instant) (i : InstrumentId F) (st : Ingest F)
      → Numbered st (noticed w now i st)
  unfolding noticed
  noticed-Numbered w now i st = elim (Bool-cases (member i st.live)) [
    | inl old ↦ rw old (omega arith, omega arith)
    | inr new ↦ rw new (announced-Numbered w now (record st { live = add_live st.live i }))
  ]

  after_applying-Numbered :
      (s : Settings F) (w : Spelling F) (now later : Instant) (i : InstrumentId F) (st : Ingest F)
      (r : Result (Unit {0})) (q : QuoteChain F)
      → Numbered st (after_applying s w now later i st (r, q))
  unfolding after_applying then_cycle
  after_applying-Numbered s w now later i st (err e) q = (omega arith, omega arith)
  after_applying-Numbered s w now later i st (ok tt) q =
      let st' = counted "marketdata.update.applied" (with_chain st q) in
      let turn = noticed w now i st' in
      let (a, b) =
        followed-Numbered st' turn (cycle s later turn.state) (noticed-Numbered w now i st')
          (cycle-Numbered s later turn.state) in
      (a, omega (arith, b, counted_total (with_chain st q) "marketdata.update.applied" refl))

  take_turn-Numbered :
      (s : Settings F) (w : Spelling F) (m : Moment F) (st : Ingest F)
      → Numbered st (take_turn s w m st)
  unfolding take_turn start received
  take_turn-Numbered s w (started is now) st = adopt-Numbered w now (live_set is) st
  take_turn-Numbered s w (heard u now later) st =
      after_applying-Numbered s w now later u.instrument st _ _
  take_turn-Numbered s w (polled is now) st = polled-Numbered w now is st
  take_turn-Numbered s w (beat now) st = cycle-Numbered s now st

  -- No snapshot is lost or counted twice: through any session, one that ends in an exception
  -- included, the sequence number and the counter of published snapshots both grow by the number of
  -- snapshots among the events that went out.
  pub ingest_run_numbered :
      (s : Settings F) (w : Spelling F) (ms : List (Moment F)) (st : Ingest F)
      → let turn = ingest_run s w ms st in
        (turn.state.builder.sequence ≡ st.builder.sequence + snapshots turn.events)
        × (total "marketdata.snapshot.published" turn.state.builder.log
            ≡ total "marketdata.snapshot.published" st.builder.log + snapshots turn.events)
  unfolding ingest_run
  ingest_run_numbered s w [] st = (omega arith, omega arith)
  ingest_run_numbered s w (m ∷ ms) st = elim (Result-cases (take_turn s w m st).ended) [
    | inl (e, refused) ↦ rw (ingest_run_raised s w m ms st e refused) (take_turn-Numbered s w m st)
    | inr fine ↦
        let turn = take_turn s w m st in
        rw (ingest_run_fine s w m ms st fine) (
          followed-Numbered st turn (ingest_run s w ms turn.state) (take_turn-Numbered s w m st)
            (ingest_run_numbered s w ms turn.state))
  ]
