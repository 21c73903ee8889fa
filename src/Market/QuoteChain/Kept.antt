-- ===== src/Market/QuoteChain/Kept.antt =====
-- What a chain keeps is of live instruments, whatever updates and inventories reach it.
use volengine.Base.{
  ◌≡◌, true, not, ◌||◌, Option, none, some, List, [], ◌∷◌, String, arith, inl, inr, Bool-cases,
}
use volengine.Base.Instants.{Instant}
use volengine.Base.Floats.{Float, IsComparable}
use volengine.Base.Keys.{◌==◌, instant_key, string_key}
use volengine.Base.Dict.{Dict, get, has, member}
use volengine.Base.Dict.Laws.{Respects, member-Respects, get-congr}
use volengine.Market.Quotes.{
  InstrumentId, QuoteObservation, QuoteUpdate, instrument_key, same_instrument,
}
use volengine.Market.QuoteChain.{
  QuoteChain, new_chain, put_forward, expiries, add_live, live_set, apply, is_dead,
  set_live_instruments, mids_of, reset_move_baseline,
}
use volengine.Market.QuoteChain.Inventory.{
  has-put, has-restrict_eq, member-add_live, set_live, covers, set_live_covered, set_live_refused,
}

module _ {F : Type 0} ⦃f : Float F⦄ ⦃c : IsComparable F⦄ where
  -- Observations are of live instruments, a forward is of a live expiry, and the baseline is of
  -- instruments that have an observation.
  pub record IsKept (q : QuoteChain F) : Type 0 where
    pub observed : (i : InstrumentId F) → has q.observations i ≡ true → member i q.live ≡ true
    pub dated : (t : Instant) → has q.forwards t ≡ true → member t (expiries q.live) ≡ true
    pub based : (i : InstrumentId F) → has q.baseline_mids i ≡ true → has q.observations i ≡ true

  alive-Respects :
      (observations : Dict (InstrumentId F) (QuoteObservation F)) (live : List (InstrumentId F))
      → Respects (λ i. not (is_dead observations live i))
  unfolding is_dead has
  alive-Respects observations live a b h =
      ground (arith, get-congr observations a b h, member-Respects live a b h)

  set_live-IsKept :
      (live : List (InstrumentId F)) (q : QuoteChain F) → IsKept q → IsKept (set_live live q)
  unfolding is_dead
  set_live-IsKept live q h = record {
    observed = λ i k.
        ground
          (arith, has-restrict_eq (λ j. member j live) q.observations i (member-Respects live));
    dated = λ t k. ground (
      arith,
      has-restrict_eq (λ u. member u (expiries live)) q.forwards t
          (member-Respects (expiries live)),
    );
    based = λ i k. ground (
      arith,
      has-restrict_eq (λ j. member j live) q.observations i (member-Respects live),
      has-restrict_eq (λ j. not (is_dead q.observations live j)) q.baseline_mids i
          (alive-Respects q.observations live),
      h.based i,
    );
  }

  mids_of-kept :
      (d : Dict (InstrumentId F) (QuoteObservation F)) (i : InstrumentId F)
      → has (mids_of d) i ≡ true
      → has d i ≡ true
  unfolding mids_of has get
  mids_of-kept [] i h = h
  mids_of-kept ((j, o) ∷ d) i h = ground (arith, mids_of-kept d i)

  member-expiries :
      (live : List (InstrumentId F)) (i : InstrumentId F)
      → member i live ≡ true
      → member i.expiry (expiries live) ≡ true
  unfolding member same_instrument
  member-expiries [] i h = h
  member-expiries (j ∷ live) i h = ground (arith, member-expiries live i)

  member-expiries_add :
      (live : List (InstrumentId F)) (i : InstrumentId F) (t : Instant)
      → member t (expiries (add_live live i)) ≡ ((i.expiry == t) || member t (expiries live))
  unfolding add_live member
  member-expiries_add live i t =
      ground (arith, member-expiries live i, member-Respects (expiries live) i.expiry t)

  has-put_forward :
      (d : Dict Instant F) (expiry t : Instant) (price : Option F)
      → has (put_forward d expiry price) t ≡ true
      → ((expiry == t) || has d t) ≡ true
  unfolding put_forward
  has-put_forward d expiry t none h = ground arith
  has-put_forward d expiry t (some price) h = ground (arith, has-put d expiry price t)

  apply-IsKept : (u : QuoteUpdate F) (q : QuoteChain F) → IsKept q → IsKept (apply u q).1
  unfolding apply
  apply-IsKept u q h = elim (Bool-cases (u.instrument.underlying == q.underlying)) [
    | inr other ↦ rw other h
    | inl own ↦ rw own (record {
      observed = λ i k. ground (
        arith,
        has-put q.observations u.instrument u.observation i,
        member-add_live q.live u.instrument i,
        h.observed i,
      );
      dated = λ t k. ground (
        arith,
        has-put_forward q.forwards u.instrument.expiry t u.underlying_price,
        member-expiries_add q.live u.instrument t,
        h.dated t,
      );
      based = λ i k. ground (arith, has-put q.observations u.instrument u.observation i, h.based i);
    })
  ]

  set_live_instruments-IsKept :
      (is : List (InstrumentId F)) (q : QuoteChain F)
      → IsKept q
      → IsKept (set_live_instruments is q).1
  set_live_instruments-IsKept is q h = elim (Bool-cases (covers q (live_set is))) [
    | inr other ↦ rw (set_live_refused is q other) h
    | inl covered ↦ rw (set_live_covered is q covered) (set_live-IsKept (live_set is) q h)
  ]

  reset_move_baseline-IsKept : (q : QuoteChain F) → IsKept q → IsKept (reset_move_baseline q)
  unfolding reset_move_baseline
  reset_move_baseline-IsKept q h = record {
    observed = h.observed;
    dated = h.dated;
    based = mids_of-kept q.observations;
  }

-- What the contexts do with a chain.
pub data ChainOp (F : Type 0) : Type 0 where
  tick : QuoteUpdate F → ChainOp F
  inventory : List (InstrumentId F) → ChainOp F
  emitted : ChainOp F

module _ {F : Type 0} ⦃f : Float F⦄ ⦃c : IsComparable F⦄ where
  unfoldable pub chain_step : ChainOp F → QuoteChain F → QuoteChain F
  chain_step (tick u) q = (apply u q).1
  chain_step (inventory is) q = (set_live_instruments is q).1
  chain_step emitted q = reset_move_baseline q

  unfoldable pub chain_run : List (ChainOp F) → QuoteChain F → QuoteChain F
  chain_run [] q = q
  chain_run (op ∷ ops) q = chain_run ops (chain_step op q)

  chain_step-IsKept : (op : ChainOp F) (q : QuoteChain F) → IsKept q → IsKept (chain_step op q)
  unfolding chain_step
  chain_step-IsKept (tick u) q h = apply-IsKept u q h
  chain_step-IsKept (inventory is) q h = set_live_instruments-IsKept is q h
  chain_step-IsKept emitted q h = reset_move_baseline-IsKept q h

  chain_run-keeps :
      (ops : List (ChainOp F)) (q : QuoteChain F) → IsKept q → IsKept (chain_run ops q)
  unfolding chain_run
  chain_run-keeps [] q h = h
  chain_run-keeps (op ∷ ops) q h = chain_run-keeps ops (chain_step op q) (chain_step-IsKept op q h)

  -- After any sequence of updates, inventories and baseline resets on a new chain, refused ones
  -- included, every observation is of a live instrument, every forward of the expiry of a live
  -- instrument, and every baseline mid of an instrument that has an observation.
  pub chain_run-IsKept :
      (ops : List (ChainOp F)) (underlying : String) → IsKept (chain_run ops (new_chain underlying))
  unfolding has get
  chain_run-IsKept ops underlying =
      chain_run-keeps ops (new_chain underlying)
        (record { observed = λ i k. absurd (cc k); dated = λ t k. absurd (cc k); based = λ i k. k })
