-- ===== src/Risk/Comparison/Parts.antt =====
-- The parts of a comparison, its reports, points and pairs, raise what their arithmetic raises.
use volengine.Base.{
  ◌-◌, ◌≡◌, refl, ap, ◌⊎◌, inl, inr, String, false, not, ◌&&◌, ◌||◌, Option, none, some, List, [],
  ◌∷◌, length, ◌==◌ as same_number,
}
use volengine.Base.Results.{
  Result, ok, err, value_error, expired_position, guard, ◌>>◌, ok-injective,
}
use volengine.Base.Instants.{Instant, before, require_aware}
use volengine.Base.Floats.{Float}
use volengine.Base.Keys.{◌==◌, string_key}
use volengine.Platform.Metrics.{Measurement}
use Prim.Native.String.{◌++◌ as followed_by}
use volengine.Risk.Freshness.{FreshnessDecision, normal, degraded, reject, evaluate}
use volengine.Risk.SurfaceView.{SurfaceView}
use volengine.Risk.ComputeReport.{
  Position, PositionRisk, RiskReport, Wiring, says_nothing, snapshot_checked, content_checked,
  risk_report, valued, value_book, rejected, too_old, all_expired, note, after_valuing,
  valued_report, after_decision, after_evaluation, compute,
}
use volengine.Risk.Refusals.{
  IsNumeric, bind-IsNumeric, guard-IsNumeric, checked-IsNumeric, attach-IsNumeric, nth_then,
}
use volengine.Risk.Comparison.{
  PositionComparison, ComparativeReport, SurfaceDistance, is_reject, is_empty, is_none, comparable,
  comparative_report, position_comparison, first_match, pair_lines, paired_with, same_position,
  covers, grid_points, covered, common_points, surface_distance_made,
}

-- What follows checks that passed.
done_then {ℓ} :
    {A : Type ℓ} (m : Result (Unit {0})) (r : Result A) {a : A} → m >> r ≡ ok a → r ≡ ok a
done_then (err x) r h = cc
done_then (ok tt) r h = h

snapshot_checked-IsNumeric : (t : Instant) (s : Option Instant) → IsNumeric (snapshot_checked t s)
unfolding snapshot_checked require_aware
snapshot_checked-IsNumeric t none = tt
snapshot_checked-IsNumeric t (some s) =
    guard-IsNumeric s.aware (guard (not (before t s)) value_error)
      (checked-IsNumeric (not (before t s)))

module _ {F : Type 0} where
  content_checked-IsNumeric :
      (d : FreshnessDecision) (lines : List (PositionRisk F)) (m : Option String)
      → IsNumeric (content_checked d lines m)
  unfolding content_checked
  content_checked-IsNumeric reject lines m =
      guard-IsNumeric (same_number (length lines) 0) (guard (not (says_nothing m)) value_error)
        (checked-IsNumeric (not (says_nothing m)))
  content_checked-IsNumeric normal lines m = checked-IsNumeric (not (same_number (length lines) 0))
  content_checked-IsNumeric degraded lines m =
      checked-IsNumeric (not (same_number (length lines) 0))

  risk_report-IsNumeric : (r : RiskReport F) → IsNumeric (risk_report r)
  unfolding risk_report require_aware
  risk_report-IsNumeric r = guard-IsNumeric (not (r.market_id == "")) _ (
      guard-IsNumeric (not (r.producer_id == "")) _ (
        guard-IsNumeric r.ts_report.aware _ (
          bind-IsNumeric _ _ (snapshot_checked-IsNumeric r.ts_report r.ts_snapshot) (λ i.
            bind-IsNumeric _ _ (content_checked-IsNumeric r.freshness r.positions r.message)
              (λ j. tt)))))

  -- A valuation that raises what its arithmetic raises, or says that the position has expired.
  abbrev pub Raises : (SurfaceView F → Position F → Result (PositionRisk F)) → Type 0
  Raises value_of =
      (v : SurfaceView F) (p : Position F)
      → IsNumeric (value_of v p) ⊎ (value_of v p ≡ err expired_position)

  valued-IsNumeric :
      (v : SurfaceView F) (r : Result (PositionRisk F))
      (rest : Result (List (PositionRisk F)) × List (Measurement F))
      → IsNumeric r ⊎ (r ≡ err expired_position)
      → IsNumeric rest.0
      → IsNumeric (valued v r rest).0
  unfolding valued
  valued-IsNumeric v (ok line) (rest, log) h k = bind-IsNumeric rest _ k (λ lines. tt)
  valued-IsNumeric v (err expired_position) (rest, log) h k = k
  valued-IsNumeric v (err x) (rest, log) (inl h) k = h
  valued-IsNumeric v (err x) (rest, log) (inr h) k = cc

  value_book-IsNumeric :
      (value_of : SurfaceView F → Position F → Result (PositionRisk F))
      → Raises value_of
      → (v : SurfaceView F) (book : List (Position F)) → IsNumeric (value_book value_of v book).0
  unfolding value_book
  value_book-IsNumeric value_of raises v [] = tt
  value_book-IsNumeric value_of raises v (p ∷ book) =
      valued-IsNumeric v (value_of v p) (value_book value_of v book) (raises v p)
        (value_book-IsNumeric value_of raises v book)

  rejected-IsNumeric :
      (v : SurfaceView F) (stamped : Instant) (message : String) (log : List (Measurement F))
      → IsNumeric (rejected v stamped message log).0
  unfolding rejected
  rejected-IsNumeric v stamped message log = risk_report-IsNumeric (record {
    market_id = v.market_id;
    producer_id = v.producer_id;
    ts_snapshot = some v.ts_snapshot;
    ts_report = stamped;
    freshness = reject;
    positions = [];
    message = some message;
  })

  after_valuing-IsNumeric :
      (k : Wiring F) (v : SurfaceView F) (age : F) (stamped : Instant) (d : FreshnessDecision)
      (log : List (Measurement F)) (r : Result (List (PositionRisk F)))
      → IsNumeric r
      → IsNumeric (after_valuing k v age stamped d log r).0
  unfolding after_valuing
  after_valuing-IsNumeric k v age stamped d log (err x) h = h
  after_valuing-IsNumeric k v age stamped d log (ok []) h =
      rejected-IsNumeric v stamped (all_expired k v) log
  after_valuing-IsNumeric k v age stamped d log (ok (line ∷ lines)) h =
      risk_report-IsNumeric (record {
        market_id = v.market_id;
        producer_id = v.producer_id;
        ts_snapshot = some v.ts_snapshot;
        ts_report = stamped;
        freshness = d;
        positions = line ∷ lines;
        message = note k age d;
      })

  after_decision-IsNumeric :
      (k : Wiring F)
      → Raises k.value_of
      → (market_id : String) (v : SurfaceView F) (age : F) (stamped : Instant)
        (log : List (Measurement F)) (d : FreshnessDecision)
      → IsNumeric (after_decision k market_id v age stamped log d).0
  unfolding after_decision valued_report
  after_decision-IsNumeric k raises market_id v age stamped log reject =
      rejected-IsNumeric v stamped (too_old k market_id age) log
  after_decision-IsNumeric k raises market_id v age stamped log normal =
      after_valuing-IsNumeric k v age stamped normal _ _
        (value_book-IsNumeric k.value_of raises v k.book)
  after_decision-IsNumeric k raises market_id v age stamped log degraded =
      after_valuing-IsNumeric k v age stamped degraded _ _
        (value_book-IsNumeric k.value_of raises v k.book)

  after_evaluation-IsNumeric :
      (k : Wiring F)
      → Raises k.value_of
      → (market_id : String) (v : SurfaceView F) (age : F) (stamped : Instant)
        (log : List (Measurement F)) (d : Result FreshnessDecision)
      → IsNumeric d
      → IsNumeric (after_evaluation k market_id v age stamped log d).0
  unfolding after_evaluation
  after_evaluation-IsNumeric k raises market_id v age stamped log (err x) h = h
  after_evaluation-IsNumeric k raises market_id v age stamped log (ok d) h =
      after_decision-IsNumeric k raises market_id v age stamped _ d

  -- What `RiskReport` and `ComparativeReport` make is what they were given.
  risk_report-same : (r r' : RiskReport F) → risk_report r ≡ ok r' → r ≡ r'
  unfolding risk_report
  risk_report-same r r' made = ok-injective (
      done_then (content_checked r.freshness r.positions r.message) (ok r) (
        done_then (snapshot_checked r.ts_report r.ts_snapshot) _ (
          done_then (require_aware r.ts_report) _ (
            done_then (guard (not (r.producer_id == "")) value_error) _
              (done_then (guard (not (r.market_id == "")) value_error) _ made)))))

  pub comparative_report-same : (c c' : ComparativeReport F) → comparative_report c ≡ ok c' → c ≡ c'
  unfolding comparative_report
  comparative_report-same c c' made = ok-injective (
      done_then (guard (comparable c || (is_empty c.lines && is_none c.distance)) value_error)
        (ok c)
        (done_then (guard (not (c.baseline.producer_id == c.challenger.producer_id)) value_error) _
          (done_then
            (guard (c.baseline.market_id == c.market_id && c.challenger.market_id == c.market_id)
              value_error)
            _ (done_then (guard (not (c.market_id == "")) value_error) _ made))))

  pub comparative_report-IsNumeric : (c : ComparativeReport F) → IsNumeric (comparative_report c)
  unfolding comparative_report
  comparative_report-IsNumeric c = guard-IsNumeric (not (c.market_id == "")) _ (
      guard-IsNumeric (c.baseline.market_id == c.market_id && c.challenger.market_id == c.market_id)
        _
        (guard-IsNumeric (not (c.baseline.producer_id == c.challenger.producer_id)) _
          (guard-IsNumeric (comparable c || (is_empty c.lines && is_none c.distance)) _ tt)))

module _ {F : Type 0} ⦃f : Float F⦄ where
  evaluate-IsNumeric : (k : Wiring F) (t now : Instant) → IsNumeric (evaluate k.policy t now)
  unfolding evaluate require_aware
  evaluate-IsNumeric k t now = guard-IsNumeric t.aware _ (guard-IsNumeric now.aware _ tt)

  -- The report that stands in for a surface which was never published.
  abbrev unpublished : Wiring F → String → Instant → RiskReport F
  unpublished k market_id now = record {
    market_id = market_id;
    producer_id = k.expected_producer_id;
    ts_snapshot = none;
    ts_report = now;
    freshness = reject;
    positions = [];
    message = some (followed_by "no surface has been published for " market_id);
  }

  pub compute-IsNumeric :
      (k : Wiring F)
      → Raises k.value_of
      → (market_id : String) (now : Instant) (v : Option (SurfaceView F))
        (log : List (Measurement F))
      → IsNumeric (compute k market_id now v log).0
  unfolding compute
  compute-IsNumeric k raises market_id now none log =
      risk_report-IsNumeric (unpublished k market_id now)
  compute-IsNumeric k raises market_id now (some v) log =
      after_evaluation-IsNumeric k raises market_id v _ _ log _
        (evaluate-IsNumeric k v.ts_snapshot now)

  -- A report that is not a rejection was computed off a surface.
  pub compute_held :
      (k : Wiring F) (market_id : String) (now : Instant) (v : Option (SurfaceView F))
      (log : List (Measurement F)) (r : RiskReport F)
      → (compute k market_id now v log).0 ≡ ok r
      → is_reject r.freshness ≡ false
      → (held : SurfaceView F) × (v ≡ some held)
  unfolding compute is_reject
  compute_held k market_id now (some v) log r made accepted = (v, refl)
  compute_held k market_id now none log r made accepted = absurd (
      cc (
        ap (λ r. is_reject r.freshness) (risk_report-same (unpublished k market_id now) r made),
        accepted,
      ))

  covers-IsNumeric : (v : SurfaceView F) (p : F × F) → IsNumeric (covers v p)
  unfolding covers
  covers-IsNumeric v (k, tenor) = nth_then v.log_moneyness 0 _ (λ a.
      nth_then v.log_moneyness (length v.log_moneyness - 1) _
        (λ b. nth_then v.tenors 0 _ (λ c. nth_then v.tenors (length v.tenors - 1) _ (λ d. tt))))

  covered-IsNumeric : (v : SurfaceView F) (ps : List (F × F)) → IsNumeric (covered v ps)
  unfolding covered
  covered-IsNumeric v [] = tt
  covered-IsNumeric v (p ∷ ps) =
      bind-IsNumeric (covers v p) _ (covers-IsNumeric v p)
        (λ inside. bind-IsNumeric (covered v ps) _ (covered-IsNumeric v ps) (λ later. tt))

  pub common_points-IsNumeric : (b c : SurfaceView F) → IsNumeric (common_points b c)
  unfolding common_points
  common_points-IsNumeric b c =
      bind-IsNumeric (covered c (grid_points b.tenors b.log_moneyness)) _ (covered-IsNumeric c _)
        (λ i.
          bind-IsNumeric (covered b (grid_points c.tenors c.log_moneyness)) _
            (covered-IsNumeric b _) (λ j. tt))

  pub surface_distance_made-IsNumeric :
      (d : SurfaceDistance F) → IsNumeric (surface_distance_made d)
  unfolding surface_distance_made
  surface_distance_made-IsNumeric d =
      guard-IsNumeric (f.is_finite d.rms_vol_bp && not (f.lt d.rms_vol_bp (f.of_ℕ 0))) _ (
        guard-IsNumeric (f.is_finite d.max_vol_bp && not (f.lt d.max_vol_bp d.rms_vol_bp)) _
          (guard-IsNumeric (not (same_number d.n_points 0)) _ tt))

  position_comparison-IsNumeric : (a b : PositionRisk F) → IsNumeric (position_comparison a b)
  unfolding position_comparison
  position_comparison-IsNumeric a b = guard-IsNumeric (same_position a.position b.position) _ tt

  paired_with-IsNumeric :
      (line : PositionRisk F) (remaining : List (PositionRisk F))
      (m : Option (PositionRisk F × List (PositionRisk F)))
      (later : List (PositionRisk F) → Result (List (PositionComparison F)))
      → ((rs : List (PositionRisk F)) → IsNumeric (later rs))
      → IsNumeric (paired_with line remaining m later)
  paired_with-IsNumeric line remaining none later h = h remaining
  paired_with-IsNumeric line remaining (some (other, after)) later h =
      attach-IsNumeric _ _ (position_comparison-IsNumeric line other) (h after)

  pub pair_lines-IsNumeric : (ls rs : List (PositionRisk F)) → IsNumeric (pair_lines ls rs)
  unfolding pair_lines
  pair_lines-IsNumeric [] rs = tt
  pair_lines-IsNumeric (l ∷ ls) rs =
      paired_with-IsNumeric l rs (first_match l rs) (pair_lines ls) (pair_lines-IsNumeric ls)
