-- ===== src/Market/Recorder.antt =====
-- volengine/market_data/adapters/recorder.py: a session written as one JSON object a line. A file is the
-- list of its lines; `json.dumps`, `json.loads` and the test for a blank line are a parameter.
use volengine.Base.{
  ℕ, suc, String, Bool, true, false, ◌&&◌, List, [], ◌∷◌, ◌++◌, ◌≡◌, if◌then◌else◌,
}
use volengine.Base.Results.{Result, ok, err, value_error, ◌>>=◌}
use volengine.Base.Floats.{Float}
use volengine.Base.Keys.{string_key}
use volengine.Base.Texts.{is_blank}
use volengine.Contracts.Wire.{
  Json, Items, Fields, int, num, text, arr, obj, nil, item, end, field, Iso, items, or_null, stamp,
}
use volengine.Market.Quotes.{InstrumentId, QuoteUpdate}
use volengine.Market.IngestStream.{kind_text}

-- Lines of text, and the JSON reader and writer. `dumps` refuses what `allow_nan=False` refuses.
pub record Codec (F L : Type 0) : Type 0 where
  pub dumps : Json F → Result L
  pub loads : L → Result (Json F)
  pub blank : L → Bool

module _ {F : Type 0} ⦃f : Float F⦄ where
  abbrev mutual
    -- No number in the value is infinite or a NaN.
    pub is_finite_json : Json F → Bool
    is_finite_json (num x) = f.is_finite x
    is_finite_json (arr vs) = are_finite_items vs
    is_finite_json (obj fs) = are_finite_fields fs
    is_finite_json _ = true

    pub are_finite_items : Items F → Bool
    are_finite_items nil = true
    are_finite_items (item v vs) = is_finite_json v && are_finite_items vs

    pub are_finite_fields : Fields F → Bool
    are_finite_fields end = true
    are_finite_fields (field k v fs) = is_finite_json v && are_finite_fields fs

  -- Documented: what `dumps` writes without a NaN is one line that is not blank, and `loads` reads it back.
  pub record IsCodec {L : Type 0} (codec : Codec F L) : Type 0 where
    pub written :
        (v : Json F)
        → is_finite_json v ≡ true
        → (l : L) × (codec.dumps v ≡ ok l) × (codec.blank l ≡ false) × (codec.loads l ≡ ok v)

-- `RecordingSink`, with the lines of its file.
pub record RecordingSink (L : Type 0) : Type 0 where
  pub lines : List L
  pub closed : Bool
  pub written : ℕ

abbrev pub opened : {L : Type 0} → RecordingSink L
opened = record { lines = []; closed = false; written = 0 }

module _ {F : Type 0} (iso : Iso) where
  unfoldable pub instrument_to_fields : InstrumentId F → Fields F
  unfolding kind_text
  instrument_to_fields i = field "underlying" (text i.underlying) (
      field "expiry" (stamp iso i.expiry)
        (field "strike" (num i.strike) (field "kind" (text (kind_text i.kind)) end)))

  unfoldable pub instrument_to_dict : InstrumentId F → Json F
  unfolding instrument_to_fields
  instrument_to_dict i = obj (instrument_to_fields i)

  -- What `quote` writes.
  unfoldable pub quote_fields : QuoteUpdate F → Fields F
  unfolding instrument_to_dict
  quote_fields u = field "kind" (text "quote") (
      field "instrument" (instrument_to_dict u.instrument) (
        field "bid" (or_null num u.observation.bid) (
          field "ask" (or_null num u.observation.ask) (
            field "bid_size" (num u.observation.bid_size) (
              field "ask_size" (num u.observation.ask_size) (
                field "ts_exchange" (stamp iso u.observation.ts_exchange) (
                  field "ts_local" (stamp iso u.observation.ts_local) (
                    field "exchange_iv" (or_null num u.observation.exchange_iv)
                      (field "underlying_price" (or_null num u.underlying_price) end)))))))))

  -- What `header` writes.
  unfoldable pub header_fields : String → String → List (InstrumentId F) → Fields F
  unfolding instrument_to_dict
  header_fields market_id underlying instruments = field "schema_version" (int 1) (
      field "kind" (text "header") (
        field "market_id" (text market_id) (
          field "underlying" (text underlying)
            (field "instruments" (arr (items instrument_to_dict instruments)) end))))

module _ {F L : Type 0} (codec : Codec F L) where
  unfoldable pub appended : RecordingSink L → Result L → Result (Unit {0}) × RecordingSink L
  appended sink (err e) = (err e, sink)
  appended sink (ok line) = (ok tt, record sink { lines = sink.lines ++ line ∷ [] })

  -- `_write`
  unfoldable pub write : Json F → RecordingSink L → Result (Unit {0}) × RecordingSink L
  unfolding appended
  write payload sink =
      if sink.closed then (err value_error, sink) else appended sink (codec.dumps payload)

  unfoldable pub counted : Result (Unit {0}) × RecordingSink L → Result (Unit {0}) × RecordingSink L
  counted (err e, sink) = (err e, sink)
  counted (ok tt, sink) = (ok tt, record sink { written = suc sink.written })

  module _ (iso : Iso) where
    unfoldable pub header :
        String
        → String
        → List (InstrumentId F)
        → RecordingSink L
        → Result (Unit {0}) × RecordingSink L
    unfolding write header_fields
    header market_id underlying instruments sink =
        if is_blank market_id
        then (err value_error, sink)
        else if is_blank underlying
        then (err value_error, sink)
        else write (obj (header_fields iso market_id underlying instruments)) sink

    unfoldable pub quote : QuoteUpdate F → RecordingSink L → Result (Unit {0}) × RecordingSink L
    unfolding counted write quote_fields
    quote u sink = counted (write (obj (quote_fields iso u)) sink)

-- `RecordingSink.close`
unfoldable pub close_sink : {L : Type 0} → RecordingSink L → RecordingSink L
close_sink sink = record sink { closed = true }

-- What a stream yielded, how it ended, and the recording that it left.
pub record Streamed (F L : Type 0) : Type 0 where
  pub yielded : List (QuoteUpdate F)
  pub ended : Result (Unit {0})
  pub sink : RecordingSink L

module _ {F L : Type 0} (codec : Codec F L) (iso : Iso) where
  -- `RecordingProvider.discover`, after the inner provider answered
  unfoldable pub record_discovery :
      String
      → String
      → List (InstrumentId F)
      → RecordingSink L
      → Result (List (InstrumentId F)) × RecordingSink L
  unfolding header
  record_discovery market_id underlying instruments sink =
      let (done, sink') = header codec iso market_id underlying instruments sink in
      (done >>= λ _. ok instruments, sink')

  -- One round of `_record`: what is written is yielded, after it was written.
  unfoldable pub passed :
      QuoteUpdate F
      → Result (Unit {0}) × RecordingSink L
      → (RecordingSink L → Streamed F L)
      → Streamed F L
  passed u (err e, sink) later = record { yielded = []; ended = err e; sink = sink }
  passed u (ok tt, sink) later = record {
    yielded = u ∷ (later sink).yielded;
    ended = (later sink).ended;
    sink = (later sink).sink;
  }

  -- `_record`, over the updates of the inner stream
  unfoldable pub record_stream : List (QuoteUpdate F) → RecordingSink L → Streamed F L
  unfolding passed quote
  record_stream [] sink = record { yielded = []; ended = ok tt; sink = sink }
  record_stream (u ∷ updates) sink =
      let later = record_stream updates in passed u (quote codec iso u sink) later
