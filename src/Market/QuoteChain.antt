-- ===== src/Market/QuoteChain.antt =====
-- volengine/market_data/domain/quote_chain.py: the writes of `QuoteChain` and the move since the
-- baseline. Of the conventions a chain reads the underlying here; ChainSnapshot has its reads.
pub mod Inventory
pub mod Kept
use volengine.Base.{
  String, Bool, true, false, not, ◌&&◌, ◌||◌, Option, none, some, List, [], ◌∷◌, ◌++◌, map,
  if◌then◌else◌,
}
use volengine.Base.Results.{Result, ok, err, value_error}
use volengine.Base.Instants.{Instant}
use volengine.Base.Floats.{Float, IsComparable, fmax}
use volengine.Base.Keys.{◌==◌, string_key, instant_key}
use volengine.Base.Dict.{Dict, get, has, put, restrict, member}
use volengine.Contracts.Surface.{every}
use volengine.Market.Quotes.{InstrumentId, QuoteObservation, QuoteUpdate, mid, instrument_key}

pub record QuoteChain (F : Type 0) : Type 0 where
  pub underlying : String
  pub observations : Dict (InstrumentId F) (QuoteObservation F)
  pub live : List (InstrumentId F)
  pub forwards : Dict Instant F
  pub baseline_mids : Dict (InstrumentId F) F

abbrev pub new_chain : {F : Type 0} → String → QuoteChain F
new_chain underlying = record {
  underlying = underlying;
  observations = [];
  live = [];
  forwards = [];
  baseline_mids = [];
}

-- `if update.underlying_price is not None: self._forwards[expiry] = price`
unfoldable pub put_forward : {F : Type 0} → Dict Instant F → Instant → Option F → Dict Instant F
put_forward d expiry none = d
put_forward d expiry (some price) = put d expiry price

abbrev pub expiries : {F : Type 0} → List (InstrumentId F) → List Instant
expiries [] = []
expiries (i ∷ is) = i.expiry ∷ expiries is

module _ {F : Type 0} ⦃f : Float F⦄ where
  unfoldable pub usable_mid : QuoteObservation F → Option F
  usable_mid o = elim (mid o) [
    | none ↦ none
    | some m ↦ if not (f.is_finite m) || f.le m (f.of_ℕ 0) then none else some m
  ]

  -- The comprehension of `reset_move_baseline`.
  unfoldable pub mids_of : Dict (InstrumentId F) (QuoteObservation F) → Dict (InstrumentId F) F
  mids_of [] = []
  mids_of ((i, o) ∷ d) = elim (usable_mid o) [ none ↦ mids_of d | some m ↦ (i, m) ∷ mids_of d ]

module _ {F : Type 0} ⦃f : Float F⦄ ⦃c : IsComparable F⦄ where
  -- `self._live.add(instrument)`, on a set
  unfoldable pub add_live : List (InstrumentId F) → InstrumentId F → List (InstrumentId F)
  add_live live i = if member i live then live else i ∷ live

  -- `set(instruments)`
  unfoldable pub live_set : List (InstrumentId F) → List (InstrumentId F)
  unfolding add_live
  live_set [] = []
  live_set (i ∷ is) = add_live (live_set is) i

  unfoldable pub apply : QuoteUpdate F → QuoteChain F → Result (Unit {0}) × QuoteChain F
  unfolding add_live put_forward
  apply u q =
      if u.instrument.underlying == q.underlying
      then (
        ok tt,
        record q {
          observations = put q.observations u.instrument u.observation;
          live = add_live q.live u.instrument;
          forwards = put_forward q.forwards u.instrument.expiry u.underlying_price;
        },
      )
      else (err value_error, q)

  -- The instruments whose observation `set_live_instruments` deletes.
  unfoldable pub is_dead :
      Dict (InstrumentId F) (QuoteObservation F) → List (InstrumentId F) → InstrumentId F → Bool
  is_dead observations live i = has observations i && not (member i live)

  unfoldable pub set_live_instruments :
      List (InstrumentId F) → QuoteChain F → Result (Unit {0}) × QuoteChain F
  unfolding live_set is_dead
  set_live_instruments instruments q =
      let live = live_set instruments in
      if every (λ (i : InstrumentId F). i.underlying == q.underlying) live
      then (
        ok tt,
        record q {
          live = live;
          observations = restrict (λ i. member i live) q.observations;
          baseline_mids = restrict (λ i. not (is_dead q.observations live i)) q.baseline_mids;
          forwards = restrict (λ expiry. member expiry (expiries live)) q.forwards;
        },
      )
      else (err value_error, q)

  unfoldable pub reset_move_baseline : QuoteChain F → QuoteChain F
  reset_move_baseline q = record q { baseline_mids = mids_of q.observations }

  -- One instrument of the loop of `max_relative_move_since_baseline`.
  unfoldable pub moved : F → Option (QuoteObservation F) → F → F
  moved baseline none largest = largest
  moved baseline (some o) largest =
      if f.le baseline (f.of_ℕ 0) then largest else elim (usable_mid o) [
        | none ↦ largest
        | some current ↦ fmax largest (f.div (f.abs (f.sub current baseline)) baseline)
      ]

  unfoldable pub moves_from :
      F → Dict (InstrumentId F) (QuoteObservation F) → Dict (InstrumentId F) F → F
  moves_from largest observations [] = largest
  moves_from largest observations ((i, baseline) ∷ d) =
      moves_from (moved baseline (get observations i) largest) observations d

  unfoldable pub max_relative_move_since_baseline : QuoteChain F → F
  max_relative_move_since_baseline q = moves_from (f.of_ℕ 0) q.observations q.baseline_mids
