-- ===== src/Market/ChainSnapshot/Counting.antt =====
-- The numbers of a snapshot: no more quotes than observations, no more observations than instruments.
use volengine.Base.{◌≤◌, ◌≡◌, refl, inl, inr, true, List, [], ◌∷◌, arith, length, All, Bool-cases}
use volengine.Base.Floats.{Float, IsComparable}
use volengine.Base.Keys.{◌==◌, instant_key, string_key}
use volengine.Base.Dict.{member, Distinct}
use volengine.Base.Dict.Laws.{put-Distinct, restrict-Distinct}
use volengine.Base.Dict.Counting.{
  AllKeys, AllKeys-map, AllKeys-put, AllKeys-restrict, length-le-of_members,
}
use text.Mathlib.TextPositions.{eq_refl}
use volengine.Market.Quotes.{
  OptionKindD, InstrumentId, QuoteUpdate, instrument_key, same_instrument, same_kind, call,
  put as put_kind,
}
use volengine.Market.QuoteChain.{
  QuoteChain, apply, add_live, live_set, set_live_instruments, reset_move_baseline,
}
use volengine.Market.QuoteChain.Inventory.{
  member-add_live, covers, set_live_covered, set_live_refused,
}
use volengine.Market.QuoteChain.Kept.{ChainOp, tick, inventory, emitted, chain_step, chain_run}

same_kind_refl : (kind : OptionKindD) → same_kind kind kind ≡ true
same_kind_refl call = refl
same_kind_refl put_kind = refl

module _ {F : Type 0} ⦃f : Float F⦄ ⦃c : IsComparable F⦄ where
  -- Observations have distinct instruments, all of them live.
  pub record IsCounted (q : QuoteChain F) : Type 0 where
    pub distinct : Distinct q.observations
    pub listed : AllKeys (λ i. member i q.live ≡ true) q.observations

  -- An update names an instrument with a finite strike, as the constructor of `InstrumentId` asks.
  abbrev pub HasStrike : ChainOp F → Type 0
  HasStrike (tick u) = f.is_finite u.instrument.strike ≡ true
  HasStrike (inventory is) = Unit {0}
  HasStrike emitted = Unit {0}

  same_instrument_refl :
      (i : InstrumentId F) → f.is_finite i.strike ≡ true → same_instrument i i ≡ true
  unfolding same_instrument
  same_instrument_refl i h =
      rw (eq_refl i.underlying, c.eq_refl i.strike h, same_kind_refl i.kind) (ground arith)

  apply-IsCounted :
      (u : QuoteUpdate F) (q : QuoteChain F)
      → f.is_finite u.instrument.strike ≡ true
      → IsCounted q
      → IsCounted (apply u q).1
  unfolding apply
  apply-IsCounted u q h n = elim (Bool-cases (u.instrument.underlying == q.underlying)) [
    | inr other ↦ rw other n
    | inl own ↦ rw own (record {
      distinct = put-Distinct q.observations u.instrument u.observation n.distinct;
      listed =
          AllKeys-put (λ i. member i (add_live q.live u.instrument) ≡ true) q.observations
            u.instrument u.observation
            (AllKeys-map (λ i. member i q.live ≡ true)
              (λ i. member i (add_live q.live u.instrument) ≡ true) q.observations
              (λ i k. ground (arith, member-add_live q.live u.instrument i)) n.listed)
            (ground (
              arith,
              member-add_live q.live u.instrument u.instrument,
              same_instrument_refl u.instrument h,
            ));
    })
  ]

  set_live_instruments-IsCounted :
      (is : List (InstrumentId F)) (q : QuoteChain F)
      → IsCounted q
      → IsCounted (set_live_instruments is q).1
  set_live_instruments-IsCounted is q n = elim (Bool-cases (covers q (live_set is))) [
    | inr other ↦ rw (set_live_refused is q other) n
    | inl covered ↦ rw (set_live_covered is q covered) (record {
      distinct = restrict-Distinct (λ i. member i (live_set is)) q.observations n.distinct;
      listed = AllKeys-restrict (λ i. member i (live_set is)) q.observations;
    })
  ]

  pub chain_run-IsCounted :
      (ops : List (ChainOp F)) (q : QuoteChain F)
      → All HasStrike ops
      → IsCounted q
      → IsCounted (chain_run ops q)
  unfolding chain_run chain_step reset_move_baseline
  chain_run-IsCounted [] q h n = n
  chain_run-IsCounted (tick u ∷ ops) q h n =
      chain_run-IsCounted ops (apply u q).1 h.1 (apply-IsCounted u q h.0 n)
  chain_run-IsCounted (inventory is ∷ ops) q h n =
      chain_run-IsCounted ops (set_live_instruments is q).1 h.1
        (set_live_instruments-IsCounted is q n)
  chain_run-IsCounted (emitted ∷ ops) q h n =
      chain_run-IsCounted ops (reset_move_baseline q) h.1
        (record { distinct = n.distinct; listed = n.listed })

  pub observations-le-live :
      (q : QuoteChain F) → IsCounted q → length q.observations ≤ length q.live
  observations-le-live q n = length-le-of_members q.observations q.live n.distinct n.listed
