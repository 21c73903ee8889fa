-- ===== src/Market/IngestStream/Inventory.antt =====
-- Sessions of the ingestion: its own live set is the chain's, and its counters are its events.
use volengine.Base.{
  ◌≡◌, refl, sym, ap, ◌∙◌, inl, inr, Bool-cases, arith, false, ◌||◌, Option, List, [], ◌∷◌, ◌++◌,
}
use volengine.Base.Results.{Result, Result-cases, Error, ok, err}
use volengine.Base.Instants.{Instant}
use volengine.Base.Floats.{Float, IsComparable}
use volengine.Base.Keys.{◌==◌, string_key}
use volengine.Base.Dict.{member}
use volengine.Base.Dict.Laws.{member-Respects}
use volengine.Contracts.Snapshot.{MarketSnapshot}
use volengine.Market.Quotes.{InstrumentId, QuoteUpdate, instrument_key}
use volengine.Market.QuoteChain.{QuoteChain, apply, add_live, live_set, reset_move_baseline}
use volengine.Market.QuoteChain.Inventory.{
  member-add_live, covers, set_live_covered, set_live_refused,
}
use volengine.Market.BuildSnapshot.{Settings, Builder, advanced}
use volengine.Market.BuildSnapshot.Outcomes.{Ended, raised, idle, published}
use volengine.Market.BuildSnapshot.Cycle.{build-Ended}
use volengine.Market.IngestStream.{
  Spelling, Ingest, Turn, with_chain, counted, announced, after_adopting, after_cycle, same_set,
  adopt, start, rediscover, cycle, noticed, then_cycle, after_applying, received,
}

-- What can happen to a market's ingestion, with the clock's readings.
pub data Moment (F : Type 0) : Type 0 where
  started : List (InstrumentId F) → Instant → Moment F
  heard : QuoteUpdate F → Instant → Instant → Moment F
  polled : List (InstrumentId F) → Instant → Moment F
  beat : Instant → Moment F

module _ {F : Type 0} where
  abbrev pub followed : Turn F → Turn F → Turn F
  followed turn rest = record {
    events = turn.events ++ rest.events;
    ended = rest.ended;
    state = rest.state;
  }

  -- The events of one market, up to the first exception.
  abbrev pub if_ended : Result (Unit {0}) → Turn F → Turn F → Turn F
  if_ended (err e) turn rest = turn
  if_ended (ok tt) turn rest = followed turn rest

module _ {F : Type 0} ⦃f : Float F⦄ ⦃c : IsComparable F⦄ where
  unfoldable pub take_turn : Settings F → Spelling F → Moment F → Ingest F → Turn F
  take_turn s w (started discovered now) st = start w now discovered st
  take_turn s w (heard u now later) st = received s w now later u st
  take_turn s w (polled discovered now) st = rediscover w now discovered st
  take_turn s w (beat now) st = cycle s now st

  unfoldable pub ingest_run : Settings F → Spelling F → List (Moment F) → Ingest F → Turn F
  unfolding take_turn
  ingest_run s w [] st = record { events = []; ended = ok tt; state = st }
  ingest_run s w (m ∷ ms) st =
      let turn = take_turn s w m st in if_ended turn.ended turn (ingest_run s w ms turn.state)

  -- The use case and the chain hold the same instruments.
  unfoldable pub Agrees : Ingest F → Type 0
  Agrees st = (i : InstrumentId F) → member i st.live ≡ member i st.builder.chain.live

  member-live_set :
      (is : List (InstrumentId F)) (i : InstrumentId F) → member i (live_set is) ≡ member i is
  unfolding live_set member
  member-live_set [] i = refl
  member-live_set (j ∷ is) i =
      ground (arith, member-live_set is i, member-add_live (live_set is) j i)

  adopt-Agrees :
      (w : Spelling F) (now : Instant) (is : List (InstrumentId F)) (st : Ingest F)
      → (adopt w now (live_set is) st).ended ≡ ok tt
      → Agrees (adopt w now (live_set is) st).state
  unfolding adopt after_adopting announced Agrees
  adopt-Agrees w now is st done i =
      let live = live_set is in
      elim (Bool-cases (covers st.builder.chain (live_set live))) [
        | inl covered ↦
            rw (set_live_covered live st.builder.chain covered) (sym (member-live_set live i))
        | inr other ↦ cc (set_live_refused live st.builder.chain other, done)
      ]

  -- A cycle leaves the live sets alone.
  ended-live :
      {s : Settings F} {now : Instant} {b b' : Builder F} {r : Result (Option (MarketSnapshot F))}
      → Ended s now b r b'
      → b'.chain.live ≡ b.chain.live
  unfolding advanced reset_move_baseline
  ended-live (raised because) = refl
  ended-live (idle h) = rw h.same_chain refl
  ended-live (published h) = h.same_live

  after_cycle-live :
      {s : Settings F} {now : Instant} {b : Builder F} {r : Result (Option (MarketSnapshot F))}
      {b' : Builder F} (st : Ingest F)
      → Ended s now b r b'
      → ((after_cycle st (r, b')).state.live ≡ st.live)
        × ((after_cycle st (r, b')).state.builder ≡ b')
  unfolding after_cycle
  after_cycle-live st (raised because) = (refl, refl)
  after_cycle-live st (idle h) = (refl, refl)
  after_cycle-live st (published h) = (refl, refl)

  cycle-Agrees :
      (s : Settings F) (now : Instant) (st : Ingest F) → Agrees st → Agrees (cycle s now st).state
  unfolding cycle Agrees
  cycle-Agrees s now st h i =
      let e = build-Ended s now st.builder in
      let (own, built) = after_cycle-live st e in rw (own, built, ended-live e) (h i)

  noticed-Agrees :
      (w : Spelling F) (now : Instant) (i : InstrumentId F) (st : Ingest F)
      → ((j : InstrumentId F) → ((i == j) || member j st.live) ≡ member j st.builder.chain.live)
      → Agrees (noticed w now i st).state
  unfolding noticed announced Agrees
  noticed-Agrees w now i st h j = elim (Bool-cases (member i st.live)) [
    | inl old ↦ rw old (ground (arith, h j, member-Respects st.live i j, h i))
    | inr new ↦ rw new (ground (arith, h j, member-add_live st.live i j))
  ]

  -- An update that the chain takes is live in it.
  apply-live :
      (u : QuoteUpdate F) (q q' : QuoteChain F)
      → apply u q ≡ (ok tt, q')
      → q'.live ≡ add_live q.live u.instrument
  unfolding apply
  apply-live u q q' h = elim (Bool-cases (u.instrument.underlying == q.underlying)) [
    | inl own ↦ ground (arith, h, own)
    | inr other ↦ ground (arith, h, other)
  ]

  after_applying-Agrees :
      (s : Settings F) (w : Spelling F) (now later : Instant) (u : QuoteUpdate F) (st : Ingest F)
      (r : Result (Unit {0})) (q : QuoteChain F)
      → apply u st.builder.chain ≡ (r, q)
      → (after_applying s w now later u.instrument st (r, q)).ended ≡ ok tt
      → Agrees st
      → Agrees (after_applying s w now later u.instrument st (r, q)).state
  unfolding after_applying then_cycle Agrees
  after_applying-Agrees s w now later u st (err e) q a done h = cc
  after_applying-Agrees s w now later u st (ok tt) q a done h =
      cycle-Agrees s later
        (noticed w now u.instrument (counted "marketdata.update.applied" (with_chain st q))).state
        (noticed-Agrees w now u.instrument (counted "marketdata.update.applied" (with_chain st q))
          (λ j.
            rw (apply-live u st.builder.chain q a)
              (ground (arith, h j, member-add_live st.builder.chain.live u.instrument j))))

  pub rediscover_moved :
      (w : Spelling F) (now : Instant) (is : List (InstrumentId F)) (st : Ingest F)
      → same_set (live_set is) st.live ≡ false
      → rediscover w now is st ≡ adopt w now (live_set is) st
  unfolding rediscover
  rediscover_moved w now is st h = rw h refl

  polled-Agrees :
      (w : Spelling F) (now : Instant) (is : List (InstrumentId F)) (st : Ingest F)
      → (rediscover w now is st).ended ≡ ok tt
      → Agrees st
      → Agrees (rediscover w now is st).state
  unfolding rediscover
  polled-Agrees w now is st done h = elim (Bool-cases (same_set (live_set is) st.live)) [
    | inl same ↦ rw same h
    | inr moved ↦ rw (rediscover_moved w now is st moved) (
        adopt-Agrees w now is st
          (ap (λ t. t.ended) (sym (rediscover_moved w now is st moved)) ∙ done))
  ]

  take_turn-Agrees :
      (s : Settings F) (w : Spelling F) (m : Moment F) (st : Ingest F)
      → (take_turn s w m st).ended ≡ ok tt
      → Agrees st
      → Agrees (take_turn s w m st).state
  unfolding take_turn start received
  take_turn-Agrees s w (started is now) st done h = adopt-Agrees w now is st done
  take_turn-Agrees s w (heard u now later) st done h =
      after_applying-Agrees s w now later u st _ _ refl done h
  take_turn-Agrees s w (polled is now) st done h = polled-Agrees w now is st done h
  take_turn-Agrees s w (beat now) st done h = cycle-Agrees s now st h

  pub ingest_run_raised :
      (s : Settings F) (w : Spelling F) (m : Moment F) (ms : List (Moment F)) (st : Ingest F)
      (e : Error)
      → (take_turn s w m st).ended ≡ err e
      → ingest_run s w (m ∷ ms) st ≡ take_turn s w m st
  unfolding ingest_run
  ingest_run_raised s w m ms st e h = rw h refl

  pub ingest_run_fine :
      (s : Settings F) (w : Spelling F) (m : Moment F) (ms : List (Moment F)) (st : Ingest F)
      → (take_turn s w m st).ended ≡ ok tt
      → ingest_run s w (m ∷ ms) st
        ≡ followed (take_turn s w m st) (ingest_run s w ms (take_turn s w m st).state)
  unfolding ingest_run
  ingest_run_fine s w m ms st h = rw h refl

  -- Through a session in which no turn raises, the live set that the use case announces and the one
  -- that the chain counts its coverage against have the same instruments: after discovery, after
  -- updates of instruments listed in mid-session, after every poll and after every heartbeat.
  pub ingest_run-Agrees :
      (s : Settings F) (w : Spelling F) (ms : List (Moment F)) (st : Ingest F)
      → Agrees st
      → (ingest_run s w ms st).ended ≡ ok tt
      → Agrees (ingest_run s w ms st).state
  unfolding ingest_run
  ingest_run-Agrees s w [] st h done = h
  ingest_run-Agrees s w (m ∷ ms) st h done = elim (Result-cases (take_turn s w m st).ended) [
    | inl (e, refused) ↦
        cc (ap (λ t. t.ended) (ingest_run_raised s w m ms st e refused), refused, done)
    | inr fine ↦
        let run = ingest_run_fine s w m ms st fine in
        rw run (
          ingest_run-Agrees s w ms (take_turn s w m st).state (take_turn-Agrees s w m st fine h)
            (ap (λ t. t.ended) (sym run) ∙ done))
  ]
