-- ===== src/Risk/Comparison/Reported.antt =====
-- A comparison of two producers raises what its arithmetic raises, and nothing else.
use volengine.Base.{
  arith, ◌≡◌, refl, subst, inl, inr, String, true, false, none, some, List, [], ◌∷◌, Bool-cases,
}
use volengine.Base.Results.{Result, ok, err}
use volengine.Base.Instants.{Instant}
use volengine.Base.Floats.{Float}
use volengine.Base.Keys.{string_key}
use volengine.Platform.Metrics.{Measurement, Tags}
use volengine.Kernel.Elementary.{Elementary}
use volengine.Risk.SurfaceView.{SurfaceView}
use volengine.Risk.ComputeReport.{RiskReport, Wiring, compute}
use volengine.Risk.SurfaceCache.{Cache, for_producer, latest_pinned}
use volengine.Risk.Valuation.{BumpSpec, position_risk}
use volengine.Risk.Valuation.Expiry.{position_risk-Raises}
use volengine.Risk.Refusals.{
  IsNumeric, bind-IsNumeric, attach-IsNumeric, math_sqrt-IsNumeric, implied_vol-IsNumeric,
}
use volengine.Risk.Comparison.{
  ComparativeReport, is_reject, comparable, comparative_report, pair_lines, common_points, gap_at,
  gaps_at, distance_of, surface_distance, filled, reported, after_comparison, after_reports,
  after_baseline, compare,
}
use volengine.Risk.Comparison.Parts.{
  Raises, comparative_report-same, comparative_report-IsNumeric, compute-IsNumeric, compute_held,
  common_points-IsNumeric, surface_distance_made-IsNumeric, pair_lines-IsNumeric,
}

module _ {F : Type 0} ⦃f : Float F⦄ (e : Elementary F) where
  gap_at-IsNumeric : (b c : SurfaceView F) (p : F × F) → IsNumeric (gap_at e b c p)
  unfolding gap_at
  gap_at-IsNumeric b c (k, tenor) =
      bind-IsNumeric _ _ (implied_vol-IsNumeric e c k tenor)
        (λ i. bind-IsNumeric _ _ (implied_vol-IsNumeric e b k tenor) (λ j. tt))

  gaps_at-IsNumeric : (b c : SurfaceView F) (ps : List (F × F)) → IsNumeric (gaps_at e b c ps)
  unfolding gaps_at
  gaps_at-IsNumeric b c [] = tt
  gaps_at-IsNumeric b c (p ∷ ps) =
      attach-IsNumeric _ _ (gap_at-IsNumeric b c p) (gaps_at-IsNumeric b c ps)

  distance_of-IsNumeric : (gaps : List F) → IsNumeric (distance_of e gaps)
  distance_of-IsNumeric [] = tt
  distance_of-IsNumeric (gap ∷ gaps) =
      bind-IsNumeric _ _ (math_sqrt-IsNumeric e _)
        (λ rms. bind-IsNumeric _ _ (surface_distance_made-IsNumeric _) (λ d. tt))

  surface_distance-IsNumeric : (b c : SurfaceView F) → IsNumeric (surface_distance e b c)
  unfolding surface_distance
  surface_distance-IsNumeric b c =
      bind-IsNumeric (common_points b c) _ (common_points-IsNumeric b c)
        (λ ps. bind-IsNumeric (gaps_at e b c ps) _ (gaps_at-IsNumeric b c ps) distance_of-IsNumeric)

  filled-IsNumeric : (c : ComparativeReport F) (v w : SurfaceView F) → IsNumeric (filled e c v w)
  unfolding filled
  filled-IsNumeric c v w =
      bind-IsNumeric (surface_distance e v w) _ (surface_distance-IsNumeric v w) (λ d.
        bind-IsNumeric (pair_lines c.baseline.positions c.challenger.positions) _
          (pair_lines-IsNumeric c.baseline.positions c.challenger.positions)
          (λ ls. comparative_report-IsNumeric (record c { lines = ls; distance = d })))

  reported-IsNumeric :
      (tags : Tags) (log : List (Measurement F)) (r : Result (ComparativeReport F))
      → IsNumeric r
      → IsNumeric (reported e tags log r).0
  reported-IsNumeric tags log (err x) h = h
  reported-IsNumeric tags log (ok c) h = tt

  accepted_both :
      (c : ComparativeReport F)
      → comparable c ≡ true
      → (is_reject c.baseline.freshness ≡ false) × (is_reject c.challenger.freshness ≡ false)
  unfolding comparable
  accepted_both c h = ground (arith, h)

  -- The cache holds the surface that a report was computed off.
  abbrev HoldsFor : Cache F → String → String → RiskReport F → Type 0
  HoldsFor cache market_id producer r =
      is_reject r.freshness ≡ false
      → (v : SurfaceView F) × (for_producer cache market_id producer ≡ some v)

  after_comparison-IsNumeric :
      (cache : Cache F) (market_id b_id c_id : String) (log : List (Measurement F))
      (c : ComparativeReport F) (r : Result (ComparativeReport F))
      → comparative_report c ≡ r
      → HoldsFor cache market_id b_id c.baseline
      → HoldsFor cache market_id c_id c.challenger
      → IsNumeric (after_comparison e cache market_id b_id c_id log r).0
  unfolding after_comparison
  after_comparison-IsNumeric cache market_id b_id c_id log c (err x) made holds_b holds_c =
      subst IsNumeric made (comparative_report-IsNumeric c)
  after_comparison-IsNumeric cache market_id b_id c_id log c (ok c') made holds_b holds_c =
      subst (λ c'. IsNumeric (after_comparison e cache market_id b_id c_id log (ok c')).0)
        (comparative_report-same c c' made)
        (elim (Bool-cases (comparable c)) [
          | inr incomparable ↦ rw incomparable tt
          | inl both ↦
              let (accepted, accepted') = accepted_both c both in
              let (v, held) = holds_b accepted in
              let (w, held') = holds_c accepted' in
              rw (both, held, held')
                (reported-IsNumeric _ log (filled e c v w) (filled-IsNumeric c v w))
        ])

  after_reports-IsNumeric :
      (cache : Cache F) (market_id b_id c_id : String) (rb rc : Result (RiskReport F))
      (log : List (Measurement F))
      → IsNumeric rb
      → IsNumeric rc
      → ((r : RiskReport F) → rb ≡ ok r → HoldsFor cache market_id b_id r)
      → ((r : RiskReport F) → rc ≡ ok r → HoldsFor cache market_id c_id r)
      → IsNumeric (after_reports e cache market_id b_id c_id rb rc log).0
  unfolding after_reports
  after_reports-IsNumeric cache market_id b_id c_id (err x) rc log h h' holds_b holds_c = h
  after_reports-IsNumeric cache market_id b_id c_id (ok b) (err x) log h h' holds_b holds_c = h'
  after_reports-IsNumeric cache market_id b_id c_id (ok b) (ok c) log h h' holds_b holds_c =
      after_comparison-IsNumeric cache market_id b_id c_id log
        (record {
          market_id = market_id;
          baseline = b;
          challenger = c;
          lines = [];
          distance = none;
        })
        _ refl (holds_b b refl) (holds_c c refl)

  -- A report, as far as the comparison relies on it.
  computed :
      (k : Wiring F)
      → Raises k.value_of
      → (cache : Cache F) (market_id producer : String) (now : Instant) (log : List (Measurement F))
      → let out = compute k market_id now (latest_pinned producer cache market_id) log in
        IsNumeric out.0 × ((r : RiskReport F) → out.0 ≡ ok r → HoldsFor cache market_id producer r)
  unfolding latest_pinned
  computed k raises cache market_id producer now log = (
    compute-IsNumeric k raises market_id now (for_producer cache market_id producer) log,
    λ r made accepted.
        compute_held k market_id now (for_producer cache market_id producer) log r made accepted,
  )

  after_baseline-IsNumeric :
      (k : Wiring F)
      → Raises k.value_of
      → (cache : Cache F) (market_id : String) (later : Instant) (b_id c_id : String)
        (out : Result (RiskReport F) × List (Measurement F))
      → IsNumeric out.0
      → ((r : RiskReport F) → out.0 ≡ ok r → HoldsFor cache market_id b_id r)
      → IsNumeric (after_baseline e k cache market_id later b_id c_id out).0
  unfolding after_baseline
  after_baseline-IsNumeric k raises cache market_id later b_id c_id (err x, log) h holds = h
  after_baseline-IsNumeric k raises cache market_id later b_id c_id (ok b, log) h holds =
      let k' : Wiring F = record k { expected_producer_id = c_id } in
      let (h', holds') = computed k' raises cache market_id c_id later log in
      after_reports-IsNumeric cache market_id b_id c_id (ok b) _ _ h h' holds holds'

  -- Whatever the cache holds and whatever the clock reads, a comparison of two producers whose book is
  -- valued by `position_risk` raises a `ValueError` or an exception of indices or arithmetic, if any:
  -- no `ExpiredPositionError` leaves it, and the `RuntimeError` for a comparable report off a surface
  -- that is no longer held is never reached.
  pub compare-IsNumeric :
      (k : Wiring F) (bumps : BumpSpec F) (discount : F) (cache : Cache F) (market_id : String)
      (now later : Instant) (b_id c_id : String) (log : List (Measurement F))
      → IsNumeric
          (compare e
            (record k { value_of = position_risk e bumps discount })
            cache
            market_id
            now
            later
            b_id
            c_id
            log).0
  unfolding compare
  compare-IsNumeric k bumps discount cache market_id now later b_id c_id log =
      let k' : Wiring F = record k {
        value_of = position_risk e bumps discount;
        expected_producer_id = b_id;
      } in
      let raises : Raises (position_risk e bumps discount) =
        position_risk-Raises e bumps discount in
      let (h, holds) = computed k' raises cache market_id b_id now log in
      after_baseline-IsNumeric (record k { value_of = position_risk e bumps discount }) raises cache
        market_id later b_id c_id _ h holds
