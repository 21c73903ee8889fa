-- ===== src/Market/RecordingExamples.antt =====
-- A session recorded and replayed, at a concrete reader and writer of JSON.
use volengine.Base.{◌≡◌, refl, false, some, none, [], ◌∷◌, if◌then◌else◌}
use volengine.Base.Results.{Result, ok, err, value_error}
use volengine.Base.Instants.{at, require_aware}
use volengine.Base.Fixed.{Fixed, fixed_float, millionths}
use volengine.Base.Texts.{is_blank}
use volengine.Contracts.Wire.{Json}
use volengine.Contracts.Examples.{unary, unary-IsIso}
use volengine.Market.Quotes.{
  InstrumentId, QuoteUpdate, call, put, instrument_id, quote_observation, quote_update,
  absent_or_non_negative, absent_or_positive,
}
use volengine.Market.Recorder.{
  Codec, IsCodec, is_finite_json, opened, record_discovery, record_stream,
}
use volengine.Market.Recorded.{open_recording, replay}
use volengine.Market.Recorded.ReadBack.{IsMade}
use volengine.Market.Recorded.Replay.{record-replay}

-- A line is the value itself.
abbrev plain_dumps : Json Fixed → Result (Json Fixed)
plain_dumps v = if is_finite_json v then ok v else err value_error

abbrev plain : Codec Fixed (Json Fixed)
plain = record { dumps = plain_dumps; loads = ok; blank = λ l. false }

plain-IsCodec : IsCodec plain
plain-IsCodec = record { written = λ v finite. (v, rw finite refl, refl, refl) }

abbrev call_option : InstrumentId Fixed
call_option = record {
  underlying = "BTC";
  expiry = at 900;
  strike = millionths 100_000_000;
  kind = call;
}

abbrev put_option : InstrumentId Fixed
put_option = record call_option { kind = put }

abbrev first_update : QuoteUpdate Fixed
first_update = record {
  instrument = call_option;
  observation = record {
    bid = some (millionths 50_000);
    ask = some (millionths 60_000);
    bid_size = millionths 1_000_000;
    ask_size = millionths 2_000_000;
    ts_exchange = at 10;
    ts_local = at 12;
    exchange_iv = none;
  };
  underlying_price = some (millionths 99_000_000);
}

abbrev second_update : QuoteUpdate Fixed
second_update = record first_update { instrument = put_option; underlying_price = none }

call_made : instrument_id call_option ≡ ok call_option
unfolding instrument_id require_aware is_blank
call_made = refl

put_made : instrument_id put_option ≡ ok put_option
unfolding instrument_id require_aware is_blank
put_made = refl

first_update-IsMade : IsMade first_update
unfolding instrument_id require_aware quote_observation quote_update absent_or_non_negative
    absent_or_positive
first_update-IsMade = record { named = call_made; observed = refl; priced = refl }

second_update-IsMade : IsMade second_update
unfolding instrument_id require_aware quote_observation quote_update absent_or_non_negative
    absent_or_positive
second_update-IsMade = record { named = put_made; observed = refl; priced = refl }

-- The consumer takes one of the two updates.
record-replay_example :
    let (discovered, sink) =
      record_discovery plain unary "deribit" "BTC" (call_option ∷ put_option ∷ []) opened in
    let streamed = record_stream plain unary (first_update ∷ second_update ∷ []) sink in
    let file = streamed.sink.lines in
    (discovered ≡ ok (call_option ∷ put_option ∷ []))
    × (streamed.yielded ≡ first_update ∷ second_update ∷ [])
    × (streamed.ended ≡ ok tt)
    × (open_recording plain unary file
        ≡ ok (record {
          market_id = "deribit";
          underlying = "BTC";
          instruments = call_option ∷ put_option ∷ [];
          started_at = at 12;
        }))
    × (replay plain unary file 1
        ≡ record { yielded = first_update ∷ []; clock = at 12 ∷ []; ended = ok tt })
unfolding is_blank
record-replay_example =
    record-replay unary plain unary-IsIso plain-IsCodec "deribit" "BTC"
      (call_option ∷ put_option ∷ []) first_update (second_update ∷ []) 1 refl refl
      (call_made, (put_made, tt)) (first_update-IsMade, (second_update-IsMade, tt))
