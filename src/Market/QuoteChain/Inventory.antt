-- ===== src/Market/QuoteChain/Inventory.antt =====
-- What an inventory does to a chain.
use volengine.Base.{
  ◌≡◌, refl, ap, ◌∙◌, Bool, true, false, not, ◌&&◌, ◌||◌, List, [], ◌∷◌, arith, inl, inr,
  Bool-cases,
}
use volengine.Base.Results.{ok, err, value_error}
use volengine.Base.Floats.{Float, IsComparable}
use volengine.Base.Keys.{Key, ◌==◌, instant_key, string_key}
use volengine.Base.Dict.{Dict, has, put, restrict, member}
use volengine.Base.Dict.Laws.{Respects, member-Respects, get-put, get-restrict}
use volengine.Contracts.Surface.{every}
use volengine.Market.Quotes.{InstrumentId, QuoteObservation, instrument_key}
use volengine.Market.QuoteChain.{
  QuoteChain, expiries, add_live, live_set, is_dead, set_live_instruments,
}

module _ {K V : Type 0} ⦃e : Key K⦄ where
  restrict_all : (p : K → Bool) (d : Dict K V) → ((k : K) → p k ≡ true) → restrict p d ≡ d
  unfolding restrict
  restrict_all p [] h = refl
  restrict_all p ((k, v) ∷ d) h = ground (arith, h k, restrict_all p d h)

  restrict_twice : (p : K → Bool) (d : Dict K V) → restrict p (restrict p d) ≡ restrict p d
  unfolding restrict
  restrict_twice p [] = refl
  restrict_twice p ((k, v) ∷ d) = ground (arith, restrict_twice p d)

  pub has-put : (d : Dict K V) (k : K) (v : V) (j : K) → has (put d k v) j ≡ ((k == j) || has d j)
  unfolding has
  has-put d k v j = ground (arith, get-put d k v j)

  pub has-restrict_eq :
      (p : K → Bool) (d : Dict K V) (j : K) → Respects p → has (restrict p d) j ≡ (p j && has d j)
  unfolding has
  has-restrict_eq p d j r = ground (arith, get-restrict p d j r)

module _ {F : Type 0} ⦃f : Float F⦄ ⦃c : IsComparable F⦄ where
  pub member-add_live :
      (live : List (InstrumentId F)) (i j : InstrumentId F)
      → member j (add_live live i) ≡ ((i == j) || member j live)
  unfolding add_live member
  member-add_live live i j = ground (arith, member-Respects live i j)

  -- The chain after an inventory whose instruments are all of its underlying.
  abbrev pub set_live : List (InstrumentId F) → QuoteChain F → QuoteChain F
  set_live live q = record q {
    live = live;
    observations = restrict (λ i. member i live) q.observations;
    baseline_mids = restrict (λ i. not (is_dead q.observations live i)) q.baseline_mids;
    forwards = restrict (λ expiry. member expiry (expiries live)) q.forwards;
  }

  abbrev pub covers : QuoteChain F → List (InstrumentId F) → Bool
  covers q live = every (λ (i : InstrumentId F). i.underlying == q.underlying) live

  pub set_live_covered :
      (instruments : List (InstrumentId F)) (q : QuoteChain F)
      → covers q (live_set instruments) ≡ true
      → set_live_instruments instruments q ≡ (ok tt, set_live (live_set instruments) q)
  unfolding set_live_instruments
  set_live_covered instruments q h = rw h

  pub set_live_refused :
      (instruments : List (InstrumentId F)) (q : QuoteChain F)
      → covers q (live_set instruments) ≡ false
      → set_live_instruments instruments q ≡ (err value_error, q)
  unfolding set_live_instruments
  set_live_refused instruments q h = rw h

  none_dead :
      (observations : Dict (InstrumentId F) (QuoteObservation F)) (live : List (InstrumentId F))
      (i : InstrumentId F)
      → not (is_dead (restrict (λ j. member j live) observations) live i) ≡ true
  unfolding is_dead
  none_dead observations live i =
      ground (arith, has-restrict_eq (λ j. member j live) observations i (member-Respects live))

  set_live_again :
      (live : List (InstrumentId F)) (q : QuoteChain F)
      → set_live live (set_live live q) ≡ set_live live q
  set_live_again live q = rw (
    restrict_twice (λ i. member i live) q.observations,
    restrict_twice (λ t. member t (expiries live)) q.forwards,
    restrict_all (λ i. not (is_dead (restrict (λ j. member j live) q.observations) live i))
        (restrict (λ i. not (is_dead q.observations live i)) q.baseline_mids)
        (none_dead q.observations live),
  )

  -- An inventory sets the chain's state once and for all: sent again it changes nothing, and raises
  -- again if it did.
  pub set_live_instruments_twice :
      (instruments : List (InstrumentId F)) (q : QuoteChain F)
      → set_live_instruments instruments (set_live_instruments instruments q).1
        ≡ set_live_instruments instruments q
  set_live_instruments_twice instruments q = elim (Bool-cases (covers q (live_set instruments))) [
    | inr other ↦ rw (set_live_refused instruments q other, set_live_refused instruments q other)
    | inl covered ↦
        let live = live_set instruments in
        rw (set_live_covered instruments q covered) (
          set_live_covered instruments (set_live live q) covered
          ∙ ap (λ (r : QuoteChain F). (ok tt, r)) (set_live_again live q))
  ]
