-- ===== src/Market/Recorded/Replay.antt =====
-- A recorded session comes back: what was streamed is what a replay streams.
use volengine.Base.{
  ℕ, zero, suc, ◌≡◌, refl, sym, ap, ◌∙◌, String, true, false, some, List, [], ◌∷◌, ◌++◌, map, All,
}
use mathlib.Core.List.{append-nil, append_assoc}
use volengine.Base.Results.{ok}
use volengine.Base.Floats.{Float}
use volengine.Base.Keys.{string_key}
use volengine.Base.Texts.{is_blank}
use volengine.Contracts.Wire.{Fields, text, obj, Iso, IsIso, each-items, lookup}
use volengine.Market.Quotes.{InstrumentId, QuoteUpdate, instrument_id}
use volengine.Market.Recorder.{
  Codec, IsCodec, are_finite_fields, RecordingSink, opened, instrument_to_dict, quote_fields,
  header_fields, appended, write, counted, header, quote, Streamed, record_discovery, record_stream,
  passed,
}
use volengine.Market.Recorded.{
  required_text, is_version, require_header, instrument_entry, instruments_of, lines_of, decode,
  first_instant, open_lines, open_recording, replay_lines, replay,
}
use volengine.Market.Recorded.ReadBack.{
  quote_finite, instruments_finite, update_back, instruments_back, IsMade, take,
}

module _ {F : Type 0} ⦃f : Float F⦄ (iso : Iso) where
  module _ {L : Type 0} (codec : Codec F L) (law : IsIso iso) (written : IsCodec codec) where
    -- A line that holds an update.
    abbrev Holds : QuoteUpdate F → L → Type 0
    Holds u l = (codec.blank l ≡ false) × (decode codec l ≡ ok (quote_fields iso u)) × IsMade u

    -- Lines that hold updates, in order.
    data Held : List (QuoteUpdate F) → List L → Type 0 where
      none_left : Held [] []
      next :
          {u : QuoteUpdate F} {us : List (QuoteUpdate F)} {l : L} {ls : List L}
          → Holds u l
          → Held us ls
          → Held (u ∷ us) (l ∷ ls)

    -- An object of finite numbers is written on one line, from which it is decoded.
    line_of :
        (fs : Fields F)
        → are_finite_fields fs ≡ true
        → (l : L) × (codec.dumps (obj fs) ≡ ok l)
          × (codec.blank l ≡ false)
          × (decode codec l ≡ ok fs)
    unfolding decode
    line_of fs finite =
        let (l, dumped, solid, loaded) = written.written (obj fs) finite in
        (l, dumped, solid, rw loaded refl)

    write_open :
        (fs : Fields F) (l : L) (sink : RecordingSink L)
        → codec.dumps (obj fs) ≡ ok l
        → sink.closed ≡ false
        → write codec (obj fs) sink ≡ (ok tt, record sink { lines = sink.lines ++ l ∷ [] })
    unfolding write appended
    write_open fs l sink dumped open_still = rw (open_still, dumped) refl

    -- A stream that was recorded whole.
    record Recorded (us : List (QuoteUpdate F)) (sink : RecordingSink L) (s : Streamed F L)
        : Type 0 where
      lines : List L
      appended_lines : s.sink.lines ≡ sink.lines ++ lines
      yielded_all : s.yielded ≡ us
      ended_well : s.ended ≡ ok tt
      held : Held us lines

    record_stream-Recorded :
        (us : List (QuoteUpdate F)) (sink : RecordingSink L)
        → sink.closed ≡ false
        → All IsMade us
        → Recorded us sink (record_stream codec iso us sink)
    unfolding record_stream passed quote counted
    record_stream-Recorded [] sink open_still made = record {
      lines = [];
      appended_lines = sym (append-nil sink.lines);
      yielded_all = refl;
      ended_well = refl;
      held = none_left;
    }
    record_stream-Recorded (u ∷ us) sink open_still made =
        let (l, dumped, solid, decoded) =
          line_of (quote_fields iso u) (quote_finite iso u made.0) in
        let sink' = record sink { lines = sink.lines ++ l ∷ []; written = suc sink.written } in
        let rest = record_stream-Recorded us sink' open_still made.1 in
        rw (write_open (quote_fields iso u) l sink dumped open_still) (record {
          lines = l ∷ rest.lines;
          appended_lines = rest.appended_lines ∙ append_assoc sink.lines (l ∷ []) rest.lines;
          yielded_all = ap (u ∷◌) rest.yielded_all;
          ended_well = rest.ended_well;
          held = next (solid, decoded, made.0) rest.held;
        })

    -- Lines that hold updates are none of them blank.
    lines_of-Held : (us : List (QuoteUpdate F)) (ls : List L) → Held us ls → lines_of codec ls ≡ ls
    unfolding lines_of
    lines_of-Held [] [] none_left = refl
    lines_of-Held [] (l ∷ ls) h = elim h [ ]
    lines_of-Held (u ∷ us) [] h = elim h [ ]
    lines_of-Held (u ∷ us) (l ∷ ls) (next h rest) = rw (h.0, lines_of-Held us ls rest) refl

    is_quote : (u : QuoteUpdate F) → lookup "kind" (quote_fields iso u) ≡ some (text "quote")
    unfolding quote_fields
    is_quote u = refl

    replay-Held :
        (us : List (QuoteUpdate F)) (ls : List L) (n : ℕ)
        → Held us ls
        → replay_lines codec iso ls n ≡ record {
          yielded = take n us;
          clock = map (λ u. u.observation.ts_local) (take n us);
          ended = ok tt;
        }
    unfolding replay_lines
    replay-Held [] (l ∷ ls) n h = elim h [ ]
    replay-Held (u ∷ us) [] n h = elim h [ ]
    replay-Held [] [] zero none_left = refl
    replay-Held [] [] (suc n) none_left = refl
    replay-Held (u ∷ us) (l ∷ ls) zero (next h rest) = rw (h.1, is_quote u) refl
    replay-Held (u ∷ us) (l ∷ ls) (suc n) (next h rest) =
        rw (h.1, is_quote u, update_back iso law u h.2, replay-Held us ls n rest) refl

    header_finite :
        (m underlying : String) (is : List (InstrumentId F))
        → All (λ i. instrument_id i ≡ ok i) is
        → are_finite_fields (header_fields iso m underlying is) ≡ true
    unfolding header_fields
    header_finite m underlying is made = rw (instruments_finite iso is made) refl

    open-Held :
        (m underlying : String) (is : List (InstrumentId F)) (h : L) (u : QuoteUpdate F) (l : L)
        (ls : List L)
        → is_blank m ≡ false
        → is_blank underlying ≡ false
        → All (λ i. instrument_id i ≡ ok i) is
        → decode codec h ≡ ok (header_fields iso m underlying is)
        → Holds u l
        → open_lines codec iso (h ∷ l ∷ ls)
          ≡ ok (record {
            market_id = m;
            underlying = underlying;
            instruments = is;
            started_at = u.observation.ts_local;
          })
    unfolding open_lines first_instant require_header is_version required_text instruments_of
        header_fields
    open-Held m underlying is h u l ls said known made decoded held =
        rw
          (
            decoded,
            held.1,
            is_quote u,
            update_back iso law u held.2,
            said,
            known,
            each-items (instrument_to_dict iso) (instrument_entry iso) is
                (instruments_back iso law is made),
          )
          refl

    -- The header line of an open recording.
    header_open :
        (m underlying : String) (is : List (InstrumentId F)) (l : L)
        → is_blank m ≡ false
        → is_blank underlying ≡ false
        → codec.dumps (obj (header_fields iso m underlying is)) ≡ ok l
        → header codec iso m underlying is opened ≡ (ok tt, record opened { lines = l ∷ [] })
    unfolding header
    header_open m underlying is l said known dumped =
        rw (said, known) (write_open (header_fields iso m underlying is) l opened dumped refl)

    lines_of-header :
        {l : L} {us : List (QuoteUpdate F)} {ls : List L}
        → codec.blank l ≡ false
        → Held us ls
        → lines_of codec (l ∷ ls) ≡ l ∷ ls
    unfolding lines_of
    lines_of-header {l} {us} {ls} solid held = rw (solid, lines_of-Held us ls held) refl

    -- A held session opens, from its first update on.
    open_held :
        (m underlying : String) (is : List (InstrumentId F)) (h : L) (u : QuoteUpdate F)
        (us : List (QuoteUpdate F)) (ls : List L)
        → is_blank m ≡ false
        → is_blank underlying ≡ false
        → All (λ i. instrument_id i ≡ ok i) is
        → decode codec h ≡ ok (header_fields iso m underlying is)
        → Held (u ∷ us) ls
        → open_lines codec iso (h ∷ ls)
          ≡ ok (record {
            market_id = m;
            underlying = underlying;
            instruments = is;
            started_at = u.observation.ts_local;
          })
    open_held m underlying is h u us [] said known listed decoded held = elim held [ ]
    open_held m underlying is h u us (l ∷ ls) said known listed decoded (next first more) =
        open-Held m underlying is h u l ls said known listed decoded first

    is_header :
        (m underlying : String) (is : List (InstrumentId F))
        → lookup "kind" (header_fields iso m underlying is) ≡ some (text "header")
    unfolding header_fields
    is_header m underlying is = refl

    -- The header's line is passed over.
    replay_header :
        (m underlying : String) (is : List (InstrumentId F)) (h : L) (us : List (QuoteUpdate F))
        (ls : List L) (n : ℕ)
        → decode codec h ≡ ok (header_fields iso m underlying is)
        → Held us ls
        → replay_lines codec iso (h ∷ ls) n ≡ record {
          yielded = take n us;
          clock = map (λ u. u.observation.ts_local) (take n us);
          ended = ok tt;
        }
    unfolding replay_lines
    replay_header m underlying is h us ls n decoded held =
        rw (decoded, is_header m underlying is) (replay-Held us ls n held)

    -- A recorded session replays as it was: for a market and an underlying that are named, and
    -- instruments and updates that their constructors accepted, recording passes the discovery and every
    -- update through; the file opens with the same market, underlying and instruments and the first
    -- update's local instant; and a replay yields the same updates in order, setting the clock to each
    -- one's local instant, as many as the consumer takes before it closes the provider.
    pub record-replay :
        (m underlying : String) (is : List (InstrumentId F)) (u : QuoteUpdate F)
        (us : List (QuoteUpdate F)) (n : ℕ)
        → is_blank m ≡ false
        → is_blank underlying ≡ false
        → All (λ i. instrument_id i ≡ ok i) is
        → All IsMade (u ∷ us)
        → let (discovered, sink) = record_discovery codec iso m underlying is opened in
          let streamed = record_stream codec iso (u ∷ us) sink in
          let file = streamed.sink.lines in
          (discovered ≡ ok is)
          × (streamed.yielded ≡ u ∷ us)
          × (streamed.ended ≡ ok tt)
          × (open_recording codec iso file
              ≡ ok (record {
                market_id = m;
                underlying = underlying;
                instruments = is;
                started_at = u.observation.ts_local;
              }))
          × (replay codec iso file n ≡ record {
            yielded = take n (u ∷ us);
            clock = map (λ u. u.observation.ts_local) (take n (u ∷ us));
            ended = ok tt;
          })
    unfolding record_discovery open_recording replay
    record-replay m underlying is u us n said known listed made =
        let (l, dumped, solid, decoded) =
          line_of (header_fields iso m underlying is) (header_finite m underlying is listed) in
        let sink = record opened { lines = l ∷ [] } in
        let rest = record_stream-Recorded (u ∷ us) sink refl made in
        rw (header_open m underlying is l said known dumped) (
          refl,
          rest.yielded_all,
          rest.ended_well,
          rw (rest.appended_lines, lines_of-header solid rest.held)
              (open_held m underlying is l u us rest.lines said known listed decoded rest.held),
          rw (rest.appended_lines, lines_of-header solid rest.held)
              (replay_header m underlying is l (u ∷ us) rest.lines n decoded rest.held),
        )
