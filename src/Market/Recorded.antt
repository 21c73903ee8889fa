-- ===== src/Market/Recorded.antt =====
-- volengine/market_data/adapters/recorded.py, with the readers of recorder.py: a recording opened and
-- replayed.
pub mod ReadBack
pub mod Replay
use volengine.Base.{
  ℕ, zero, suc, String, Bool, true, false, not, ◌&&◌, ◌||◌, Option, none, some, List, [], ◌∷◌, ◌++◌,
  if◌then◌else◌, ◌==◌ as same_number,
}
use volengine.Base.Results.{Result, Error, ok, err, value_error, guard, ◌>>=◌, ◌>>◌}
use volengine.Base.Instants.{Instant}
use volengine.Base.Floats.{Float}
use volengine.Base.Keys.{◌==◌, string_key}
use volengine.Base.Texts.{is_blank}
use volengine.Contracts.Wire.{
  Json, Items, Fields, null, boolean, int, num, text, arr, obj, nil, item, end, field, Iso, lookup,
  each,
}
use volengine.Market.Quotes.{
  OptionKindD, call, put, InstrumentId, QuoteObservation, QuoteUpdate, instrument_id,
  quote_observation, quote_update,
}
use volengine.Market.Recorder.{Codec}

pub record Recording (F : Type 0) : Type 0 where
  pub market_id : String
  pub underlying : String
  pub instruments : List (InstrumentId F)
  pub started_at : Instant

-- `OptionKindD(value)`
unfoldable pub kind_named : String → Result OptionKindD
kind_named s = if s == "CALL" then ok call else if s == "PUT" then ok put else err value_error

-- `_instant`: `fromisoformat`'s refusal is a `ValueError`, and a naive instant is refused
abbrev pub aware_only : Result Instant → Result Instant
aware_only (err e) = err value_error
aware_only (ok t) = if t.aware then ok t else err value_error

module _ {F : Type 0} where
  -- `_text`, of what `payload.get` gave
  abbrev pub text_of : Option (Json F) → Result String
  text_of (some (text s)) = ok s
  text_of _ = err value_error

  -- `payload.get("kind") == name`
  abbrev pub is_kind : String → Option (Json F) → Bool
  is_kind name (some (text s)) = s == name
  is_kind name _ = false

  unfoldable pub instant_of : Iso → Option (Json F) → Result Instant
  instant_of iso v = text_of v >>= λ s. aware_only (iso.parse s)

  -- `_required_text`
  unfoldable pub required_text : Option (Json F) → Result String
  required_text (some (text s)) = if is_blank s then err value_error else ok s
  required_text _ = err value_error

module _ {F : Type 0} ⦃f : Float F⦄ where
  abbrev pub finite_only : F → Result (Option F)
  finite_only x = if f.is_finite x then ok (some x) else err value_error

  -- `_optional_number`
  unfoldable pub optional_number : Option (Json F) → Result (Option F)
  optional_number none = ok none
  optional_number (some null) = ok none
  optional_number (some (num x)) = finite_only x
  optional_number (some (int n)) = finite_only (f.of_ℕ n)
  optional_number (some _) = err value_error

  abbrev pub present : Option F → Result F
  present none = err value_error
  present (some x) = ok x

  -- `_number`
  unfoldable pub number_of : Option (Json F) → Result F
  unfolding optional_number
  number_of v = optional_number v >>= present

  unfoldable pub instrument_from_fields : Iso → Fields F → Result (InstrumentId F)
  unfolding kind_named instant_of number_of
  instrument_from_fields iso fs = do
    underlying ← text_of (lookup "underlying" fs)
    expiry ← instant_of iso (lookup "expiry" fs)
    strike ← number_of (lookup "strike" fs)
    kind ← text_of (lookup "kind" fs) >>= kind_named
    instrument_id
        (record { underlying = underlying; expiry = expiry; strike = strike; kind = kind })

  unfoldable pub observation_from_fields : Iso → Fields F → Result (QuoteObservation F)
  unfolding instant_of number_of optional_number
  observation_from_fields iso fs = do
    bid ← optional_number (lookup "bid" fs)
    ask ← optional_number (lookup "ask" fs)
    bid_size ← number_of (lookup "bid_size" fs)
    ask_size ← number_of (lookup "ask_size" fs)
    ts_exchange ← instant_of iso (lookup "ts_exchange" fs)
    ts_local ← instant_of iso (lookup "ts_local" fs)
    exchange_iv ← optional_number (lookup "exchange_iv" fs)
    quote_observation (record {
      bid = bid;
      ask = ask;
      bid_size = bid_size;
      ask_size = ask_size;
      ts_exchange = ts_exchange;
      ts_local = ts_local;
      exchange_iv = exchange_iv;
    })

  -- `isinstance(value, dict)`
  abbrev pub table : Option (Json F) → Result (Fields F)
  table (some (obj fs)) = ok fs
  table _ = err value_error

  -- `update_from_dict`
  unfoldable pub update_from_fields : Iso → Fields F → Result (QuoteUpdate F)
  unfolding instrument_from_fields observation_from_fields optional_number
  update_from_fields iso fs = do
    inner ← table (lookup "instrument" fs)
    instrument ← instrument_from_fields iso inner
    observation ← observation_from_fields iso fs
    price ← optional_number (lookup "underlying_price" fs)
    quote_update
        (record { instrument = instrument; observation = observation; underlying_price = price })

  -- `version != RECORDING_SCHEMA_VERSION`, refused: `1`, `1.0` and `True` compare equal
  unfoldable pub is_version : Option (Json F) → Bool
  is_version (some (int n)) = same_number n 1
  is_version (some (num x)) = f.eq x (f.of_ℕ 1)
  is_version (some (boolean b)) = b
  is_version _ = false

  unfoldable pub require_header : Fields F → Result (Unit {0})
  unfolding is_version
  require_header fs = do
    guard (is_kind "header" (lookup "kind" fs)) value_error
    guard (is_version (lookup "schema_version" fs)) value_error

  -- `_instruments`, of each entry and of the list
  abbrev pub instrument_entry : Iso → Json F → Result (InstrumentId F)
  instrument_entry iso (obj fs) = instrument_from_fields iso fs
  instrument_entry iso _ = err value_error

  unfoldable pub instruments_of : Iso → Option (Json F) → Result (List (InstrumentId F))
  instruments_of iso (some (arr vs)) = each (instrument_entry iso) vs
  instruments_of iso _ = err value_error

  module _ {L : Type 0} (codec : Codec F L) where
    -- `_lines`
    unfoldable pub lines_of : List L → List L
    lines_of [] = []
    lines_of (l ∷ ls) = if codec.blank l then lines_of ls else l ∷ lines_of ls

    abbrev pub object_only : Result (Json F) → Result (Fields F)
    object_only (ok (obj fs)) = ok fs
    object_only _ = err value_error

    -- `_decode`
    unfoldable pub decode : L → Result (Fields F)
    decode l = object_only (codec.loads l)

    -- One line of `_first_instant`. `_quote`'s wrapping of a `ValueError` is one too.
    abbrev pub started_with : Iso → Fields F → Bool → Result Instant → Result Instant
    started_with iso fs false later = later
    started_with iso fs true later = update_from_fields iso fs >>= λ u. ok u.observation.ts_local

    -- `_first_instant`
    unfoldable pub first_instant : Iso → List L → Result Instant
    unfolding decode update_from_fields
    first_instant iso [] = err value_error
    first_instant iso (l ∷ ls) = do
      let later = first_instant iso ls
      fs ← decode l
      started_with iso fs (is_kind "quote" (lookup "kind" fs)) later

    unfoldable pub open_lines : Iso → List L → Result (Recording F)
    unfolding decode require_header first_instant required_text instruments_of
    open_lines iso [] = err value_error
    open_lines iso (l ∷ ls) = do
      fs ← decode l
      require_header fs
      started_at ← first_instant iso ls
      market_id ← required_text (lookup "market_id" fs)
      underlying ← required_text (lookup "underlying" fs)
      instruments ← instruments_of iso (lookup "instruments" fs)
      ok (record {
        market_id = market_id;
        underlying = underlying;
        instruments = instruments;
        started_at = started_at;
      })

    -- `open_recording`, of the file's lines
    unfoldable pub open_recording : Iso → List L → Result (Recording F)
    unfolding lines_of open_lines
    open_recording iso file = open_lines iso (lines_of file)

-- What a replay yielded, and how it ended. The clock is set to each update's `ts_local` before it goes.
pub record Replayed (F : Type 0) : Type 0 where
  pub yielded : List (QuoteUpdate F)
  pub clock : List Instant
  pub ended : Result (Unit {0})

module _ {F L : Type 0} ⦃f : Float F⦄ (codec : Codec F L) where
  abbrev pub finished : Result (Unit {0}) → Replayed F
  finished r = record { yielded = []; clock = []; ended = r }

  -- an update goes out, unless its line is broken
  abbrev pub set_and_yielded : Result (QuoteUpdate F) → Replayed F → Replayed F
  set_and_yielded (err e) later = finished (err e)
  set_and_yielded (ok u) later = record {
    yielded = u ∷ later.yielded;
    clock = u.observation.ts_local ∷ later.clock;
    ended = later.ended;
  }

  -- A line that was decoded: a header is passed over, and a closed provider ends.
  abbrev pub replayed_line : Iso → Fields F → Bool → ℕ → Replayed F → (ℕ → Replayed F) → Replayed F
  replayed_line iso fs true left skipped later = skipped
  replayed_line iso fs false zero skipped later = finished (ok tt)
  replayed_line iso fs false (suc left) skipped later =
      set_and_yielded (update_from_fields iso fs) (later left)

  abbrev pub replayed_from :
      Iso → Result (Fields F) → ℕ → Replayed F → (ℕ → Replayed F) → Replayed F
  replayed_from iso (err e) left skipped later = finished (err e)
  replayed_from iso (ok fs) left skipped later =
      replayed_line iso fs (is_kind "header" (lookup "kind" fs)) left skipped later

  -- `RecordedProvider._stream`; the consumer closes the provider after so many updates.
  unfoldable pub replay_lines : Iso → List L → ℕ → Replayed F
  unfolding decode update_from_fields
  replay_lines iso [] left = finished (ok tt)
  replay_lines iso (l ∷ ls) left =
      let later = replay_lines iso ls in replayed_from iso (decode codec l) left (later left) later

  unfoldable pub replay : Iso → List L → ℕ → Replayed F
  unfolding lines_of replay_lines
  replay iso file left = replay_lines iso (lines_of codec file) left
