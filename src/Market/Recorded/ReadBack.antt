-- ===== src/Market/Recorded/ReadBack.antt =====
-- What a recording writes of an update is what its readers make of it.
use volengine.Base.{ℕ, zero, suc, ◌≡◌, refl, true, Option, none, some, List, [], ◌∷◌, All, arith}
use volengine.Base.Results.{ok}
use volengine.Base.Instants.{Instant, require_aware}
use volengine.Base.Floats.{Float}
use volengine.Base.Keys.{string_key}
use volengine.Contracts.Wire.{num, Iso, IsIso, items, Each, or_null, stamp}
use volengine.Market.Quotes.{
  OptionKindD, call, put, InstrumentId, QuoteUpdate, instrument_id, quote_observation, quote_update,
  absent_or_non_negative, absent_or_positive,
}
use volengine.Market.IngestStream.{kind_text}
use volengine.Market.Recorder.{
  is_finite_json, are_finite_items, are_finite_fields, instrument_to_fields, instrument_to_dict,
  quote_fields,
}
use volengine.Market.Recorded.{
  kind_named, instant_of, optional_number, number_of, instrument_from_fields,
  observation_from_fields, update_from_fields, instrument_entry,
}

abbrev pub take {ℓ} : {A : Type ℓ} → ℕ → List A → List A
take zero xs = []
take (suc n) [] = []
take (suc n) (x ∷ xs) = x ∷ take n xs

kind_named-kind_text : (kind : OptionKindD) → kind_named (kind_text kind) ≡ ok kind
unfolding kind_named kind_text
kind_named-kind_text call = refl
kind_named-kind_text put = refl

module _ {F : Type 0} ⦃f : Float F⦄ where
  -- The constructors accepted the update and what it holds.
  pub record IsMade (u : QuoteUpdate F) : Type 0 where
    pub named : instrument_id u.instrument ≡ ok u.instrument
    pub observed : quote_observation u.observation ≡ ok u.observation
    pub priced : quote_update u ≡ ok u

  instrument_facts :
      (i : InstrumentId F)
      → instrument_id i ≡ ok i
      → (i.expiry.aware ≡ true) × (f.is_finite i.strike ≡ true)
  unfolding instrument_id require_aware
  instrument_facts i made = ground (arith, made)

  -- An optional number that a constructor accepted is finite.
  abbrev HasNumber : Option F → Type 0
  HasNumber none = Unit {0}
  HasNumber (some x) = f.is_finite x ≡ true

  non_negative-HasNumber : (x : Option F) → absent_or_non_negative x ≡ true → HasNumber x
  unfolding absent_or_non_negative
  non_negative-HasNumber none h = tt
  non_negative-HasNumber (some x) h = ground (arith, h)

  positive-HasNumber : (x : Option F) → absent_or_positive x ≡ true → HasNumber x
  unfolding absent_or_positive
  positive-HasNumber none h = tt
  positive-HasNumber (some x) h = ground (arith, h)

  record Facts (u : QuoteUpdate F) : Type 0 where
    bid : HasNumber u.observation.bid
    ask : HasNumber u.observation.ask
    bid_size : f.is_finite u.observation.bid_size ≡ true
    ask_size : f.is_finite u.observation.ask_size ≡ true
    exchange_iv : HasNumber u.observation.exchange_iv
    price : HasNumber u.underlying_price
    at_venue : u.observation.ts_exchange.aware ≡ true
    at_home : u.observation.ts_local.aware ≡ true

  made-Facts : (u : QuoteUpdate F) → IsMade u → Facts u
  unfolding quote_observation quote_update require_aware
  made-Facts u h = record {
    bid = non_negative-HasNumber u.observation.bid (ground (arith, h.observed));
    ask = non_negative-HasNumber u.observation.ask (ground (arith, h.observed));
    bid_size = non_negative-HasNumber (some u.observation.bid_size) (ground (arith, h.observed));
    ask_size = non_negative-HasNumber (some u.observation.ask_size) (ground (arith, h.observed));
    exchange_iv = positive-HasNumber u.observation.exchange_iv (ground (arith, h.observed));
    price = positive-HasNumber u.underlying_price (ground (arith, h.priced));
    at_venue = ground (arith, h.observed);
    at_home = ground (arith, h.observed);
  }

  number_back : (x : Option F) → HasNumber x → optional_number (some (or_null num x)) ≡ ok x
  unfolding optional_number
  number_back none h = refl
  number_back (some x) h = rw h refl

  number_finite : (x : Option F) → HasNumber x → is_finite_json (or_null num x) ≡ true
  number_finite none h = refl
  number_finite (some x) h = h

instant_back :
    (F : Type 0) (iso : Iso)
    → IsIso iso
    → (t : Instant) → t.aware ≡ true
    → instant_of {F = F} iso (some (stamp iso t)) ≡ ok t
unfolding instant_of
instant_back F iso law t aware = rw (law.parse-format t, aware) refl

module _ {F : Type 0} ⦃f : Float F⦄ (iso : Iso) where
  instrument_finite :
      (i : InstrumentId F)
      → instrument_id i ≡ ok i
      → are_finite_fields (instrument_to_fields iso i) ≡ true
  unfolding instrument_to_fields
  instrument_finite i made = rw ((instrument_facts i made).1) refl

  pub instruments_finite :
      (is : List (InstrumentId F))
      → All (λ i. instrument_id i ≡ ok i) is
      → are_finite_items (items (instrument_to_dict iso) is) ≡ true
  unfolding instrument_to_dict
  instruments_finite [] h = refl
  instruments_finite (i ∷ is) h = rw (instrument_finite i h.0, instruments_finite is h.1) refl

  pub quote_finite : (u : QuoteUpdate F) → IsMade u → are_finite_fields (quote_fields iso u) ≡ true
  unfolding quote_fields instrument_to_dict
  quote_finite u h =
      let k = made-Facts u h in
      rw
        (
          instrument_finite u.instrument h.named,
          number_finite u.observation.bid k.bid,
          number_finite u.observation.ask k.ask,
          k.bid_size,
          k.ask_size,
          number_finite u.observation.exchange_iv k.exchange_iv,
          number_finite u.underlying_price k.price,
        )
        refl

  module _ (law : IsIso iso) where
    instrument_back :
        (i : InstrumentId F)
        → instrument_id i ≡ ok i
        → instrument_from_fields iso (instrument_to_fields iso i) ≡ ok i
    unfolding instrument_from_fields instrument_to_fields number_of optional_number
    instrument_back i made =
        let (aware, finite) = instrument_facts i made in
        rw (instant_back F iso law i.expiry aware, finite, kind_named-kind_text i.kind) made

    pub instruments_back :
        (is : List (InstrumentId F))
        → All (λ i. instrument_id i ≡ ok i) is
        → Each (instrument_to_dict iso) (instrument_entry iso) is
    unfolding instrument_to_dict
    instruments_back [] h = tt
    instruments_back (i ∷ is) h = (instrument_back i h.0, instruments_back is h.1)

    pub update_back :
        (u : QuoteUpdate F) → IsMade u → update_from_fields iso (quote_fields iso u) ≡ ok u
    unfolding update_from_fields quote_fields instrument_to_dict observation_from_fields number_of
    update_back u h =
        let k = made-Facts u h in
        rw
          (
            instrument_back u.instrument h.named,
            number_back u.observation.bid k.bid,
            number_back u.observation.ask k.ask,
            number_back (some u.observation.bid_size) k.bid_size,
            number_back (some u.observation.ask_size) k.ask_size,
            instant_back F iso law u.observation.ts_exchange k.at_venue,
            instant_back F iso law u.observation.ts_local k.at_home,
            number_back u.observation.exchange_iv k.exchange_iv,
            number_back u.underlying_price k.price,
            h.observed,
          )
          h.priced
