-- ===== src/Market/ChainSnapshot/Stats.antt =====
-- The constructor of `ChainStats` accepts what a chain counts.
use volengine.Base.{
  ℕ, zero, suc, ◌+◌, ◌≤◌, ◌≡◌, refl, ap, String, Bool, true, Option, none, some, List, [], ◌∷◌,
  arith, length, length-append, All, if◌then◌else◌,
}
use volengine.Base.Results.{Result, ok, ◌>>=◌}
use volengine.Base.Instants.{Instant, require_aware}
use volengine.Base.Floats.{Float, IsOrdered, IsComparable, fmax, le-not_lt}
use volengine.Base.Keys.{instant_key, string_key}
use volengine.Base.Dict.{Dict, get}
use volengine.Base.Sorting.{insert_by, sort_by, length-sort_by}
use volengine.Market.SnapshotPolicy.{ChainStats, chain_stats}
use volengine.Market.Quotes.{instrument_key, spread_rel}
use volengine.Market.Conventions.{MarketConventions, is_expired}
use volengine.Market.Admissibility.{AdmissibilityThresholds}
use volengine.Market.QuoteChain.{QuoteChain, new_chain, usable_mid}
use volengine.Market.QuoteChain.Kept.{ChainOp, chain_run}
use volengine.Market.ChainSnapshot.{
  ChainQuote, ChainSlice, Entry, judged, assembled, add_entry, group, by_date, entry_before,
  quote_of, quotes_in_order, quotes_for, slice_of, slice_round, slices_in_order, build_slices,
  published, admissible, oldest_age, max_age, age_of, coverage, stats_from, chain_slice,
}
use volengine.Base.Results.{>>=-eq-ok, attach-eq-ok}
use volengine.Market.ChainSnapshot.Counting.{
  HasStrike, IsCounted, chain_run-IsCounted, observations-le-live,
}

module _ {F : Type 0} where
  -- The entries of all groups.
  grouped : List (Instant × List (Entry F)) → ℕ
  grouped [] = 0
  grouped ((t, es) ∷ d) = length es + grouped d

  grouped-add_entry :
      (t : Instant) (e : Entry F) (d : Dict Instant (List (Entry F)))
      → grouped (add_entry t e d) ≡ suc (grouped d)
  unfolding grouped add_entry
  grouped-add_entry t e [] = refl
  grouped-add_entry t e ((u, es) ∷ d) =
      ground (arith, grouped-add_entry t e d, length-append es (e ∷ []))

  group_bound :
      (entries : List (Entry F)) (now : Instant) (d d' : Dict Instant (List (Entry F)))
      → group entries now d ≡ ok d'
      → grouped d' ≤ grouped d + length entries
  unfolding group
  group_bound [] now d d' h = ground arith
  group_bound ((i, o) ∷ entries) now d d' h =
      let (expired, told, rest) = >>=-eq-ok (is_expired i.expiry now) _ h in
      ground (
        arith,
        group_bound entries now (if expired then d else add_entry i.expiry (i, o) d) d' rest,
        grouped-add_entry i.expiry (i, o) d,
      )

  grouped-insert_by :
      (lt : Instant × List (Entry F) → Instant × List (Entry F) → Bool)
      (x : Instant × List (Entry F)) (d : List (Instant × List (Entry F)))
      → grouped (insert_by lt x d) ≡ length x.1 + grouped d
  unfolding grouped insert_by
  grouped-insert_by lt x [] = refl
  grouped-insert_by lt x (y ∷ d) = ground (arith, grouped-insert_by lt x d)

  grouped-sort_by :
      (lt : Instant × List (Entry F) → Instant × List (Entry F) → Bool)
      (d : List (Instant × List (Entry F)))
      → grouped (sort_by lt d) ≡ grouped d
  unfolding grouped sort_by
  grouped-sort_by lt [] = refl
  grouped-sort_by lt (x ∷ d) =
      omega (arith, grouped-insert_by lt x (sort_by lt d), grouped-sort_by lt d)

module _ {F : Type 0} ⦃f : Float F⦄ where
  quote_of_bound :
      (t : AdmissibilityThresholds F) (forward : F) (now : Instant) (e : Entry F)
      (m spread : Option F) (later : Result (List (ChainQuote F))) (qs : List (ChainQuote F))
      (n : ℕ)
      → quote_of t forward now e m spread later ≡ ok qs
      → ((rest : List (ChainQuote F)) → later ≡ ok rest → length rest ≤ n)
      → length qs ≤ suc n
  unfolding quote_of
  quote_of_bound t forward now e none spread later qs n h k = omega (arith, k qs h)
  quote_of_bound t forward now e (some m) none later qs n h k = omega (arith, k qs h)
  quote_of_bound t forward now (i, o) (some m) (some spread) later qs n h k =
      let (q, rest, made, after, whole) =
        attach-eq-ok (judged t forward now (i, o) m spread) later h in
      ground (arith, k rest after, ap length whole)

  quotes_bound :
      (t : AdmissibilityThresholds F) (forward : F) (now : Instant) (entries : List (Entry F))
      (qs : List (ChainQuote F))
      → quotes_in_order t forward now entries ≡ ok qs
      → length qs ≤ length entries
  unfolding quotes_in_order
  quotes_bound t forward now [] qs h = ground arith
  quotes_bound t forward now (e ∷ entries) qs h =
      quote_of_bound t forward now e (usable_mid e.1) (spread_rel e.1)
        (quotes_in_order t forward now entries) qs (length entries) h
        (λ rest k. quotes_bound t forward now entries rest k)

  quotes_for_bound :
      (t : AdmissibilityThresholds F) (forward : F) (now : Instant) (entries : List (Entry F))
      (qs : List (ChainQuote F))
      → quotes_for t forward now entries ≡ ok qs
      → length qs ≤ length entries
  unfolding quotes_for
  quotes_for_bound t forward now entries qs h = omega (
    arith,
    length-sort_by entry_before entries,
    quotes_bound t forward now (sort_by entry_before entries) qs h,
  )

  length-published :
      (s : ChainSlice F) (slices : List (ChainSlice F))
      → length (published (s ∷ slices)) ≡ length s.quotes + length (published slices)
  unfolding published
  length-published s slices = length-append s.quotes (published slices)

  published_none :
      (slices : List (ChainSlice F)) → ok [] ≡ ok slices → length (published slices) ≡ 0
  unfolding published
  published_none [] h = refl
  published_none (s ∷ slices) h = cc

  assembled_quotes :
      (c : MarketConventions) (t : AdmissibilityThresholds F) (now expiry : Instant) (forward : F)
      (quotes : List (ChainQuote F)) (s : ChainSlice F)
      → assembled c t now expiry forward quotes ≡ ok s
      → s.quotes ≡ quotes
  unfolding assembled chain_slice
  assembled_quotes c t now expiry forward quotes s h = ground arith

  slice_of_bound :
      (c : MarketConventions) (t : AdmissibilityThresholds F) (now expiry : Instant) (forward : F)
      (quotes : List (ChainQuote F)) (later : Result (List (ChainSlice F)))
      (slices : List (ChainSlice F)) (n : ℕ)
      → slice_of c t now expiry forward quotes later ≡ ok slices
      → ((rest : List (ChainSlice F)) → later ≡ ok rest → length (published rest) ≤ n)
      → length (published slices) ≤ length quotes + n
  unfolding slice_of
  slice_of_bound c t now expiry forward [] later slices n h k = omega (arith, k slices h)
  slice_of_bound c t now expiry forward (q ∷ quotes) later slices n h k =
      let (s, rest, made, after, whole) =
        attach-eq-ok (assembled c t now expiry forward (q ∷ quotes)) later h in
      omega (
        arith,
        k rest after,
        ap (λ (parts : List (ChainSlice F)). length (published parts)) whole,
        length-published s rest,
        ap length (assembled_quotes c t now expiry forward (q ∷ quotes) s made),
      )

  slice_round_bound :
      (c : MarketConventions) (t : AdmissibilityThresholds F) (now expiry : Instant)
      (entries : List (Entry F)) (forward : Option F) (later : Result (List (ChainSlice F)))
      (slices : List (ChainSlice F)) (n : ℕ)
      → slice_round c t now expiry entries forward later ≡ ok slices
      → ((rest : List (ChainSlice F)) → later ≡ ok rest → length (published rest) ≤ n)
      → length (published slices) ≤ length entries + n
  unfolding slice_round
  slice_round_bound c t now expiry entries none later slices n h k = omega (arith, k slices h)
  slice_round_bound c t now expiry entries (some forward) later slices n h k =
      let (quotes, quoted, made) =
        >>=-eq-ok (quotes_for t forward now entries)
          (λ quotes. slice_of c t now expiry forward quotes later) h in
      omega (
        arith,
        quotes_for_bound t forward now entries quotes quoted,
        slice_of_bound c t now expiry forward quotes later slices n made k,
      )

  slices_bound :
      (c : MarketConventions) (t : AdmissibilityThresholds F) (now : Instant)
      (forwards : Dict Instant F) (d : Dict Instant (List (Entry F))) (slices : List (ChainSlice F))
      → slices_in_order c t now forwards d ≡ ok slices
      → length (published slices) ≤ grouped d
  unfolding slices_in_order grouped
  slices_bound c t now forwards [] slices h = omega (arith, published_none slices h)
  slices_bound c t now forwards ((expiry, entries) ∷ d) slices h =
      slice_round_bound c t now expiry entries (get forwards expiry)
        (slices_in_order c t now forwards d) slices (grouped d) h
        (λ rest k. slices_bound c t now forwards d rest k)

  admissible_bound : (quotes : List (ChainQuote F)) → admissible quotes ≤ length quotes
  unfolding admissible
  admissible_bound [] = omega arith
  admissible_bound (q ∷ quotes) = ground (arith, admissible_bound quotes)

  published_bound :
      (c : MarketConventions) (t : AdmissibilityThresholds F) (q : QuoteChain F) (now : Instant)
      (slices : List (ChainSlice F))
      → build_slices c t q now ≡ ok slices
      → length (published slices) ≤ length q.observations
  unfolding build_slices grouped
  published_bound c t q now slices h =
      let (aware, _, made) =
        >>=-eq-ok (require_aware now)
          (λ _. group q.observations now [] >>= λ by_expiry.
            slices_in_order c t now q.forwards (sort_by by_date by_expiry))
          h in
      let (by_expiry, gathered, built) =
        >>=-eq-ok (group q.observations now [])
          (λ by_expiry. slices_in_order c t now q.forwards (sort_by by_date by_expiry)) made in
      omega (
        arith,
        slices_bound c t now q.forwards (sort_by by_date by_expiry) slices built,
        grouped-sort_by by_date by_expiry,
        group_bound q.observations now [] by_expiry gathered,
      )

  module _ (laws : IsOrdered F) where
    open laws use {le_trans, lt_le, of_ℕ_mono, ratio_bounds}

    zero_le_zero : f.le (f.of_ℕ 0) (f.of_ℕ 0) ≡ true
    zero_le_zero = of_ℕ_mono 0 0 (omega arith)

    max_nonneg : (a b : F) → f.le (f.of_ℕ 0) a ≡ true → f.le (f.of_ℕ 0) (fmax a b) ≡ true
    max_nonneg a b h = ground (arith, lt_le a b, le_trans (f.of_ℕ 0) a b h)

    oldest_age_nonneg :
        (best : F) (now : Instant) (entries : List (Entry F))
        → f.le (f.of_ℕ 0) best ≡ true
        → f.le (f.of_ℕ 0) (oldest_age best now entries) ≡ true
    unfolding oldest_age
    oldest_age_nonneg best now [] h = h
    oldest_age_nonneg best now ((i, o) ∷ entries) h =
        oldest_age_nonneg (fmax best (age_of o now)) now entries (max_nonneg best (age_of o now) h)

    max_age_nonneg :
        (now : Instant) (entries : List (Entry F)) → f.le (f.of_ℕ 0) (max_age now entries) ≡ true
    unfolding max_age age_of
    max_age_nonneg now [] = zero_le_zero
    max_age_nonneg now ((i, o) ∷ entries) =
        oldest_age_nonneg (age_of o now) now entries (max_nonneg (f.of_ℕ 0) _ zero_le_zero)

    coverage_bounds :
        (m n : ℕ)
        → m ≤ n
        → (f.le (f.of_ℕ 0) (coverage m n) ≡ true) × (f.le (coverage m n) (f.of_ℕ 1) ≡ true)
    unfolding coverage
    coverage_bounds m zero h = (zero_le_zero, of_ℕ_mono 0 1 (omega arith))
    coverage_bounds m (suc n) h = ground (arith, ratio_bounds m (suc n) h (omega arith))

    chain_stats_accepts :
        (s : ChainStats F)
        → f.le (f.of_ℕ 0) s.coverage_ratio ≡ true
        → f.le s.coverage_ratio (f.of_ℕ 1) ≡ true
        → f.le (f.of_ℕ 0) s.max_age_seconds ≡ true
        → s.n_quotes_admissible ≤ s.n_quotes_total
        → s.n_quotes_total ≤ s.n_instruments_known
        → chain_stats s ≡ ok s
    unfolding chain_stats
    chain_stats_accepts s lo hi age a b =
        ground (arith, le-not_lt laws (f.of_ℕ 0) s.max_age_seconds age)

module _ {F : Type 0} ⦃f : Float F⦄ ⦃c : IsComparable F⦄ (laws : IsOrdered F) where
  -- After any session of a new chain, whose updates name instruments with a finite strike, counting
  -- never fails: the slices of any instant give statistics that the constructor of `ChainStats`
  -- accepts, with no more admissible quotes than observations, no more observations than known
  -- instruments, and a coverage between zero and one.
  pub stats_from_total :
      (conventions : MarketConventions) (t : AdmissibilityThresholds F) (ops : List (ChainOp F))
      (underlying : String) (now : Instant) (slices : List (ChainSlice F))
      → All HasStrike ops
      → let q = chain_run ops (new_chain underlying) in
        build_slices conventions t q now ≡ ok slices
        → (s : ChainStats F) × (stats_from slices q.observations q.live now ≡ ok s)
          × (s.n_quotes_admissible ≤ s.n_quotes_total)
          × (s.n_quotes_total ≤ s.n_instruments_known)
          × (f.le (f.of_ℕ 0) s.coverage_ratio ≡ true)
          × (f.le s.coverage_ratio (f.of_ℕ 1) ≡ true)
  unfolding stats_from
  stats_from_total conventions t ops underlying now slices valid built =
      let q = chain_run ops (new_chain underlying) in
      let fresh : IsCounted (new_chain underlying) = record { distinct = tt; listed = tt } in
      let counted = chain_run-IsCounted ops (new_chain underlying) valid fresh in
      let known = observations-le-live q counted in
      let quoted = published_bound conventions t q now slices built in
      let good = admissible_bound (published slices) in
      let (lo, hi) =
        coverage_bounds laws (length (published slices)) (length q.live) (omega arith) in
      (
        _,
        chain_stats_accepts laws _ lo hi (max_age_nonneg laws now q.observations) (omega arith)
            known,
        (let le : admissible (published slices) ≤ length q.observations = omega arith in le),
        known,
        lo,
        hi,
      )
