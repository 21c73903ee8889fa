-- ===== src/Market/Admissibility/Loosening.antt =====
-- Looser thresholds raise fewer flags.
use volengine.Base.{
  ◌≡◌, inl, inr, refl, Bool, true, false, ◌||◌, Option, none, some, List, arith, In,
}
use volengine.Base.Instants.{Instant, elapsed}
use volengine.Base.Floats.{Float, IsOrdered, fmin, le_lt_trans, lt_le_trans}
use volengine.Market.Quotes.{QuoteObservation, spread_rel}
use volengine.Market.Admissibility.{
  QuoteFlagD, AdmissibilityThresholds, flag_if, is_wide, diverges, quote_flags,
}

-- A rule that fires less often adds its flag less often.
flag_if_mono :
    (loose tight : Bool) (flag : QuoteFlagD) (xs ys : List QuoteFlagD)
    → (loose ≡ true → tight ≡ true)
    → ((flag' : QuoteFlagD) → In flag' xs → In flag' ys)
    → (flag' : QuoteFlagD) → In flag' (flag_if loose flag xs)
    → In flag' (flag_if tight flag ys)
flag_if_mono true true flag xs ys fires rest flag' (inl e) = inl e
flag_if_mono true true flag xs ys fires rest flag' (inr h) = inr (rest flag' h)
flag_if_mono true false flag xs ys fires rest flag' h = absurd (cc (fires refl))
flag_if_mono false true flag xs ys fires rest flag' h = inr (rest flag' h)
flag_if_mono false false flag xs ys fires rest flag' h = rest flag' h

module _ {F : Type 0} ⦃f : Float F⦄ where
  -- Every limit of the second thresholds lies at least as far out as the first one's.
  pub record IsLooser (tight loose : AdmissibilityThresholds F) : Type 0 where
    pub spread : f.le tight.max_spread_rel loose.max_spread_rel ≡ true
    pub age : f.le tight.max_age_seconds loose.max_age_seconds ≡ true
    pub lo : f.le loose.moneyness_lo tight.moneyness_lo ≡ true
    pub hi : f.le tight.moneyness_hi loose.moneyness_hi ≡ true
    pub divergence : f.le tight.max_iv_divergence_bp loose.max_iv_divergence_bp ≡ true
    pub size : f.le loose.min_size tight.min_size ≡ true

  module _ (laws : IsOrdered F) where
    wide_mono :
        (spread : Option F) (tight loose : F)
        → f.le tight loose ≡ true
        → is_wide spread loose ≡ true
        → is_wide spread tight ≡ true
    unfolding is_wide
    wide_mono none tight loose h k = k
    wide_mono (some spread) tight loose h k = le_lt_trans laws tight loose spread h k

    diverges_mono :
        (own exchange : Option F) (tight loose : F)
        → f.le tight loose ≡ true
        → diverges own exchange loose ≡ true
        → diverges own exchange tight ≡ true
    unfolding diverges
    diverges_mono none exchange tight loose h k = k
    diverges_mono (some own) none tight loose h k = k
    diverges_mono (some own) (some exchange) tight loose h k =
        ground (
          arith,
          le_lt_trans laws tight loose (f.mul (f.abs (f.sub own exchange)) (f.of_ℕ 10_000)) h,
        )

    outside_mono :
        (k lo hi lo' hi' : F)
        → f.le lo' lo ≡ true
        → f.le hi hi' ≡ true
        → (f.lt k lo' || f.lt hi' k) ≡ true
        → (f.lt k lo || f.lt hi k) ≡ true
    outside_mono k lo hi lo' hi' a b h =
        ground (arith, lt_le_trans laws k lo' lo, le_lt_trans laws hi hi' k b)

    -- Loosening the thresholds of a market never adds a flag: whatever `flag_quote` raises on a quote
    -- under the looser limits, it raises under the tighter ones.
    pub quote_flags_mono :
        (o : QuoteObservation F) (strike forward : F) (own_iv : Option F)
        (tight loose : AdmissibilityThresholds F) (now : Instant) (flag : QuoteFlagD)
        → IsLooser tight loose
        → In flag (quote_flags o strike forward own_iv loose now)
        → In flag (quote_flags o strike forward own_iv tight now)
    unfolding quote_flags
    quote_flags_mono o strike forward own_iv tight loose now flag h =
        let k = f.ln (f.div strike forward) in
        let age = f.seconds (elapsed now o.ts_exchange) in
        flag_if_mono _ _ _ _ _ (λ e. e)
          (flag_if_mono _ _ _ _ _
            (wide_mono (spread_rel o) tight.max_spread_rel loose.max_spread_rel h.spread)
            (flag_if_mono _ _ _ _ _
              (le_lt_trans laws tight.max_age_seconds loose.max_age_seconds age h.age)
              (flag_if_mono _ _ _ _ _
                (λ e.
                  lt_le_trans laws (fmin o.bid_size o.ask_size) loose.min_size tight.min_size e
                    h.size)
                (flag_if_mono _ _ _ _ _
                  (outside_mono k tight.moneyness_lo tight.moneyness_hi loose.moneyness_lo
                    loose.moneyness_hi h.lo h.hi)
                  (flag_if_mono _ _ _ _ _
                    (diverges_mono own_iv o.exchange_iv tight.max_iv_divergence_bp
                      loose.max_iv_divergence_bp h.divergence)
                    (λ flag' e. e))))))
          flag
