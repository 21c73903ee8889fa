-- ===== src/Risk/Comparison.antt =====
-- volengine/risk/domain/comparison.py and volengine/risk/application/compare_producers.py: two producers'
-- reports side by side.
pub mod Pairing
mod Parts
pub mod Reported
use volengine.Base.{
  ℕ, zero, suc, ◌-◌, String, Bool, true, false, not, ◌&&◌, ◌||◌, Option, none, some, List, [], ◌∷◌,
  ◌++◌, length, map, ◌==◌ as same_number, if◌then◌else◌,
}
use volengine.Base.Results.{Result, ok, err, value_error, runtime_error, guard, ◌>>=◌, ◌>>◌, attach}
use volengine.Base.Instants.{Instant, same_instant}
use volengine.Base.Floats.{Float, fmax}
use volengine.Base.Keys.{◌==◌, string_key}
use volengine.Platform.Metrics.{Measurement, Tags, counter, gauge}
use volengine.Kernel.Elementary.{Elementary}
use volengine.Risk.Freshness.{FreshnessDecision, normal, degraded, reject}
use volengine.Risk.SurfaceView.{SurfaceView}
use volengine.Risk.Interpolation.{nth, implied_vol, math_sqrt}
use volengine.Risk.ComputeReport.{
  OptionKindR, call, put, Position, PositionRisk, RiskReport, Wiring, compute,
}
use volengine.Risk.SurfaceCache.{Cache, for_producer, latest_pinned}

pub record PositionComparison (F : Type 0) : Type 0 where
  pub baseline : PositionRisk F
  pub challenger : PositionRisk F

pub record SurfaceDistance (F : Type 0) : Type 0 where
  pub rms_vol_bp : F
  pub max_vol_bp : F
  pub n_points : ℕ

pub record ComparativeReport (F : Type 0) : Type 0 where
  pub market_id : String
  pub baseline : RiskReport F
  pub challenger : RiskReport F
  pub lines : List (PositionComparison F)
  pub distance : Option (SurfaceDistance F)

-- `==` of kinds, and of instants, of which a naive one equals no aware one
unfoldable pub same_kind : OptionKindR → OptionKindR → Bool
same_kind call call = true
same_kind put put = true
same_kind _ _ = false

unfoldable pub same_moment : Instant → Instant → Bool
same_moment a b = (if a.aware then b.aware else not b.aware) && same_instant a b

unfoldable pub is_reject : FreshnessDecision → Bool
is_reject reject = true
is_reject _ = false

abbrev pub is_empty {ℓ} : {A : Type ℓ} → List A → Bool
is_empty [] = true
is_empty (x ∷ xs) = false

abbrev pub is_none {ℓ} : {A : Type ℓ} → Option A → Bool
is_none none = true
is_none (some x) = false

module _ {F : Type 0} where
  -- `ComparativeReport.comparable`
  unfoldable pub comparable : ComparativeReport F → Bool
  unfolding is_reject
  comparable c = not (is_reject c.baseline.freshness) && not (is_reject c.challenger.freshness)

  -- `ComparativeReport(...)`
  unfoldable pub comparative_report : ComparativeReport F → Result (ComparativeReport F)
  unfolding comparable
  comparative_report c = do
    guard (not (c.market_id == "")) value_error
    guard (c.baseline.market_id == c.market_id && c.challenger.market_id == c.market_id) value_error
    guard (not (c.baseline.producer_id == c.challenger.producer_id)) value_error
    guard (comparable c || (is_empty c.lines && is_none c.distance)) value_error
    ok c

module _ {F : Type 0} ⦃f : Float F⦄ where
  -- `==` of positions
  unfoldable pub same_position : Position F → Position F → Bool
  unfolding same_kind same_moment
  same_position p q =
      p.underlying == q.underlying
      && (same_moment p.expiry q.expiry
          && (f.eq p.strike q.strike && (same_kind p.kind q.kind && f.eq p.quantity q.quantity)))

  -- `PositionComparison(...)`
  unfoldable pub position_comparison :
      PositionRisk F → PositionRisk F → Result (PositionComparison F)
  unfolding same_position
  position_comparison baseline challenger = do
    guard (same_position baseline.position challenger.position) value_error
    ok (record { baseline = baseline; challenger = challenger })

  -- The first of the remaining lines on the same position, and what stands after it.
  unfoldable pub first_match :
      PositionRisk F → List (PositionRisk F) → Option (PositionRisk F × List (PositionRisk F))
  unfolding same_position
  first_match line [] = none
  first_match line (other ∷ remaining) =
      let later = first_match line remaining in
      if same_position other.position line.position then some (other, remaining) else later

  abbrev pub paired_with :
      PositionRisk F
      → List (PositionRisk F)
      → Option (PositionRisk F × List (PositionRisk F))
      → (List (PositionRisk F) → Result (List (PositionComparison F)))
      → Result (List (PositionComparison F))
  paired_with line remaining none later = later remaining
  paired_with line remaining (some (other, after)) later =
      attach (position_comparison line other) (later after)

  -- `pair_lines`, over the baseline's lines
  unfoldable pub pair_lines :
      List (PositionRisk F) → List (PositionRisk F) → Result (List (PositionComparison F))
  unfolding position_comparison first_match
  pair_lines [] remaining = ok []
  pair_lines (line ∷ lines) remaining =
      let later = pair_lines lines in paired_with line remaining (first_match line remaining) later

  -- `_covers`
  unfoldable pub covers : SurfaceView F → F × F → Result Bool
  unfolding nth
  covers v (k, tenor) = do
    k_first ← nth v.log_moneyness 0
    k_final ← nth v.log_moneyness (length v.log_moneyness - 1)
    tenor_first ← nth v.tenors 0
    tenor_final ← nth v.tenors (length v.tenors - 1)
    ok ((f.le k_first k && f.le k k_final) && (f.le tenor_first tenor && f.le tenor tenor_final))

  -- `product(view.tenors, view.log_moneyness)`, each pair turned round
  unfoldable pub grid_points : List F → List F → List (F × F)
  grid_points [] ks = []
  grid_points (tenor ∷ tenors) ks = map (λ k. (k, tenor)) ks ++ grid_points tenors ks

  abbrev pub kept_point : F × F → Bool → List (F × F) → List (F × F)
  kept_point p true rest = p ∷ rest
  kept_point p false rest = rest

  unfoldable pub covered : SurfaceView F → List (F × F) → Result (List (F × F))
  unfolding covers
  covered other [] = ok []
  covered other (p ∷ points) =
      let rest = covered other points in
      covers other p >>= λ inside. rest >>= λ later. ok (kept_point p inside later)

  -- `==` and `<` of pairs
  unfoldable pub same_point : F × F → F × F → Bool
  same_point (k, tenor) (j, other) = f.eq k j && f.eq tenor other

  unfoldable pub point_before : F × F → F × F → Bool
  point_before (k, tenor) (j, other) = if f.eq k j then f.lt tenor other else f.lt k j

  -- `sorted({...})`: the set keeps the first of equal points.
  unfoldable pub insert_point : F × F → List (F × F) → List (F × F)
  unfolding same_point point_before
  insert_point p [] = p ∷ []
  insert_point p (q ∷ points) =
      let rest = insert_point p points in
      if same_point p q then q ∷ points else if point_before p q then p ∷ q ∷ points else q ∷ rest

  unfoldable pub sorted_points : List (F × F) → List (F × F) → List (F × F)
  unfolding insert_point
  sorted_points held [] = held
  sorted_points held (p ∷ points) = sorted_points (insert_point p held) points

  unfoldable pub common_points : SurfaceView F → SurfaceView F → Result (List (F × F))
  unfolding covered grid_points sorted_points
  common_points baseline challenger = do
    of_baseline ← covered challenger (grid_points baseline.tenors baseline.log_moneyness)
    of_challenger ← covered baseline (grid_points challenger.tenors challenger.log_moneyness)
    ok (sorted_points [] (of_baseline ++ of_challenger))

  -- `max(gaps)`
  abbrev pub largest : F → List F → F
  largest best [] = best
  largest best (x ∷ xs) = largest (fmax best x) xs

  -- `SurfaceDistance(...)`
  unfoldable pub surface_distance_made : SurfaceDistance F → Result (SurfaceDistance F)
  surface_distance_made d = do
    guard (f.is_finite d.rms_vol_bp && not (f.lt d.rms_vol_bp (f.of_ℕ 0))) value_error
    guard (f.is_finite d.max_vol_bp && not (f.lt d.max_vol_bp d.rms_vol_bp)) value_error
    guard (not (same_number d.n_points 0)) value_error
    ok d

  module _ (e : Elementary F) where
    unfoldable pub gap_at : SurfaceView F → SurfaceView F → F × F → Result F
    gap_at baseline challenger (k, tenor) = do
      theirs ← implied_vol e challenger k tenor
      ours ← implied_vol e baseline k tenor
      ok (f.mul (f.abs (f.sub theirs ours)) (f.of_ℕ 10_000))

    unfoldable pub gaps_at : SurfaceView F → SurfaceView F → List (F × F) → Result (List F)
    unfolding gap_at
    gaps_at baseline challenger [] = ok []
    gaps_at baseline challenger (p ∷ points) =
        let rest = gaps_at baseline challenger points in attach (gap_at baseline challenger p) rest

    abbrev pub distance_of : List F → Result (Option (SurfaceDistance F))
    distance_of [] = ok none
    distance_of (gap ∷ gaps) = do
      rms ←
          math_sqrt e
            (f.div (e.fsum (map (λ g. f.mul g g) (gap ∷ gaps))) (f.of_ℕ (length (gap ∷ gaps))))
      distance ← surface_distance_made (record {
        rms_vol_bp = rms;
        max_vol_bp = largest gap gaps;
        n_points = length (gap ∷ gaps);
      })
      ok (some distance)

    unfoldable pub surface_distance :
        SurfaceView F → SurfaceView F → Result (Option (SurfaceDistance F))
    unfolding common_points gaps_at surface_distance_made math_sqrt
    surface_distance baseline challenger = common_points baseline challenger >>= λ points.
        gaps_at baseline challenger points >>= distance_of

    -- `total_value_diff`
    unfoldable pub total_value_diff : ComparativeReport F → F
    total_value_diff c =
        e.fsum (map (λ line. f.sub line.challenger.value line.baseline.value) c.lines)

-- What a comparison is wired to: a report for each of two producers.
unfoldable pub compare_producers_use_case : String → String → Result (Unit {0})
compare_producers_use_case baseline_id challenger_id =
    guard (not (baseline_id == challenger_id)) value_error

module _ {F : Type 0} ⦃f : Float F⦄ (e : Elementary F) where
  abbrev tags_of : String → String → String → Tags
  tags_of market_id baseline_id challenger_id =
      ("market", market_id) ∷ ("baseline", baseline_id) ∷ ("challenger", challenger_id) ∷ []

  -- the gauges of the distance, or that there is none
  unfoldable pub observe_distance : Tags → Option (SurfaceDistance F) → List (Measurement F)
  observe_distance tags none = counter "risk.comparison.no_overlap" 1 tags ∷ []
  observe_distance tags (some d) =
      gauge "risk.comparison.distance_rms_vol_bp" d.rms_vol_bp tags
      ∷ gauge "risk.comparison.distance_max_vol_bp" d.max_vol_bp tags
      ∷ []

  -- The comparison of two reports off the views that they were computed of.
  unfoldable pub filled :
      ComparativeReport F → SurfaceView F → SurfaceView F → Result (ComparativeReport F)
  unfolding surface_distance pair_lines comparative_report
  filled c baseline_view challenger_view = do
    distance ← surface_distance e baseline_view challenger_view
    lines ← pair_lines c.baseline.positions c.challenger.positions
    comparative_report (record c { lines = lines; distance = distance })

  abbrev pub reported :
      Tags
      → List (Measurement F)
      → Result (ComparativeReport F)
      → Result (ComparativeReport F) × List (Measurement F)
  reported tags log (err x) = (err x, log)
  reported tags log (ok c) = (
    ok c,
    log
        ++ gauge "risk.comparison.value_diff" (total_value_diff e c) tags
          ∷ observe_distance tags c.distance,
  )

  abbrev pub with_views :
      Tags
      → List (Measurement F)
      → ComparativeReport F
      → Option (SurfaceView F)
      → Option (SurfaceView F)
      → Result (ComparativeReport F) × List (Measurement F)
  with_views tags log c (some baseline_view) (some challenger_view) =
      reported tags log (filled c baseline_view challenger_view)
  with_views tags log c _ _ = (err runtime_error, log)

  -- The rest of `compute`, once both reports stand side by side.
  unfoldable pub after_comparison :
      Cache F
      → String
      → String
      → String
      → List (Measurement F)
      → Result (ComparativeReport F)
      → Result (ComparativeReport F) × List (Measurement F)
  unfolding comparable filled total_value_diff observe_distance
  after_comparison cache market_id baseline_id challenger_id log (err x) = (err x, log)
  after_comparison cache market_id baseline_id challenger_id log (ok c) =
      let tags = tags_of market_id baseline_id challenger_id in
      if not (comparable c)
      then (ok c, log ++ counter "risk.comparison.incomparable" 1 tags ∷ [])
      else with_views tags log c (for_producer cache market_id baseline_id)
          (for_producer cache market_id challenger_id)

  unfoldable pub after_reports :
      Cache F
      → String
      → String
      → String
      → Result (RiskReport F)
      → Result (RiskReport F)
      → List (Measurement F)
      → Result (ComparativeReport F) × List (Measurement F)
  unfolding after_comparison comparative_report
  after_reports cache market_id baseline_id challenger_id (err x) challenger log = (err x, log)
  after_reports cache market_id baseline_id challenger_id (ok baseline) (err x) log = (err x, log)
  after_reports cache market_id baseline_id challenger_id (ok baseline) (ok challenger) log =
      after_comparison cache market_id baseline_id challenger_id log (
        comparative_report (record {
          market_id = market_id;
          baseline = baseline;
          challenger = challenger;
          lines = [];
          distance = none;
        }))

  -- The challenger's report, unless the baseline's raised.
  unfoldable pub after_baseline :
      Wiring F
      → Cache F
      → String
      → Instant
      → String
      → String
      → Result (RiskReport F) × List (Measurement F)
      → Result (ComparativeReport F) × List (Measurement F)
  unfolding after_reports
  after_baseline k cache market_id now baseline_id challenger_id (err x, log) = (err x, log)
  after_baseline k cache market_id now baseline_id challenger_id (ok baseline, log) =
      let (challenger, log') =
        compute (record k { expected_producer_id = challenger_id }) market_id now
          (latest_pinned challenger_id cache market_id) log in
      after_reports cache market_id baseline_id challenger_id (ok baseline) challenger log'

  -- `CompareProducersUseCase.compute`: the clock is read once for each report.
  unfoldable pub compare :
      Wiring F
      → Cache F
      → String
      → Instant
      → Instant
      → String
      → String
      → List (Measurement F)
      → Result (ComparativeReport F) × List (Measurement F)
  unfolding after_baseline
  compare k cache market_id now later baseline_id challenger_id log =
      after_baseline k cache market_id later baseline_id challenger_id (
        compute (record k { expected_producer_id = baseline_id }) market_id now
          (latest_pinned baseline_id cache market_id) log)
