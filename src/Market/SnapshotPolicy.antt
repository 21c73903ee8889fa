-- ===== src/Market/SnapshotPolicy.antt =====
-- volengine/market_data/domain/snapshot_policy.py, with `ChainStats` of quote_chain.py, which it reads.
pub mod Emission
use volengine.Base.{
  ℕ, Bool, true, false, not, ◌&&◌, ◌||◌, Option, none, some, List, [], ◌∷◌, ltb, leb, if◌then◌else◌,
}
use volengine.Base.Results.{Result, ok, err, value_error, guard, ◌>>=◌, ◌>>◌}
use volengine.Base.Instants.{Instant, elapsed, require_aware}
use volengine.Base.Floats.{Float}

pub record ChainStats (F : Type 0) : Type 0 where
  pub n_instruments_known : ℕ
  pub n_quotes_total : ℕ
  pub n_quotes_admissible : ℕ
  pub max_age_seconds : F
  pub coverage_ratio : F

pub record SnapshotPolicyConfig (F : Type 0) : Type 0 where
  pub cadence_seconds : F
  pub material_move_threshold : F
  pub min_coverage_ratio : F
  pub max_quiet_seconds : Option F

pub data DegradationReason : Type 0 where
  low_coverage : DegradationReason

-- `QualityAssessment`, with `degraded` derived from the reasons.
pub record QualityAssessment : Type 0 where
  pub reasons : List DegradationReason

unfoldable pub is_degraded : QualityAssessment → Bool
is_degraded q = elim q.reasons [ [] ↦ false | _ ∷ _ ↦ true ]

module _ {F : Type 0} ⦃f : Float F⦄ where
  -- `ChainStats(...)` with its `__post_init__`.
  unfoldable pub chain_stats : ChainStats F → Result (ChainStats F)
  chain_stats s = do
    guard (f.le (f.of_ℕ 0) s.coverage_ratio && f.le s.coverage_ratio (f.of_ℕ 1)) value_error
    guard (not (f.lt s.max_age_seconds (f.of_ℕ 0))) value_error
    guard (not (ltb s.n_quotes_total s.n_quotes_admissible)) value_error
    guard (not (ltb s.n_instruments_known s.n_quotes_total)) value_error
    ok s

  -- `not math.isfinite(x) or x <= 0` and `not math.isfinite(x) or x < 0`, refused
  unfoldable pub positive : F → Bool
  positive x = not (not (f.is_finite x) || f.le x (f.of_ℕ 0))

  unfoldable pub non_negative : F → Bool
  non_negative x = not (not (f.is_finite x) || f.lt x (f.of_ℕ 0))

  -- the check of `max_quiet_seconds` against the cadence
  unfoldable pub check_quiet : F → Option F → Result (Unit {0})
  check_quiet cadence none = ok tt
  check_quiet cadence (some quiet) = do
    guard (positive quiet) value_error
    guard (not (f.lt quiet cadence)) value_error

  -- `SnapshotPolicyConfig(...)` with its `__post_init__`.
  unfoldable pub snapshot_policy_config : SnapshotPolicyConfig F → Result (SnapshotPolicyConfig F)
  unfolding positive non_negative check_quiet
  snapshot_policy_config c = do
    guard (positive c.cadence_seconds) value_error
    guard (non_negative c.material_move_threshold) value_error
    guard (f.le (f.of_ℕ 0) c.min_coverage_ratio && f.le c.min_coverage_ratio (f.of_ℕ 1)) value_error
    check_quiet c.cadence_seconds c.max_quiet_seconds
    ok c

  unfoldable pub cadence_elapsed : SnapshotPolicyConfig F → Option Instant → Instant → Result Bool
  unfolding require_aware
  cadence_elapsed c none now = do require_aware now; ok true
  cadence_elapsed c (some last) now = do
    require_aware now
    require_aware last
    ok (f.le c.cadence_seconds (f.seconds (elapsed now last)))

  -- The heartbeat test of `is_due`.
  unfoldable pub heartbeat : Option F → F → Bool
  heartbeat none age = false
  heartbeat (some quiet) age = f.le quiet age

  -- `is_due` after the cadence test has answered.
  unfoldable pub due_after : SnapshotPolicyConfig F → F → Option Instant → Instant → Bool → Bool
  unfolding heartbeat
  due_after c move last now false = false
  due_after c move none now true = true
  due_after c move (some last) now true =
      if heartbeat c.max_quiet_seconds (f.seconds (elapsed now last))
      then true
      else f.le c.material_move_threshold move

  unfoldable pub is_due : SnapshotPolicyConfig F → F → Option Instant → Instant → Result Bool
  unfolding cadence_elapsed due_after
  is_due c move last now = do
    elapsed_enough ← cadence_elapsed c last now
    ok (due_after c move last now elapsed_enough)

  unfoldable pub should_emit :
      SnapshotPolicyConfig F → ChainStats F → F → Option Instant → Instant → Result Bool
  unfolding is_due cadence_elapsed
  should_emit c stats move last now =
      if f.le stats.coverage_ratio (f.of_ℕ 0)
      then cadence_elapsed c last now >>= (λ _. ok false)
      else is_due c move last now

  unfoldable pub assess_quality : SnapshotPolicyConfig F → ChainStats F → QualityAssessment
  assess_quality c stats =
      if leb stats.n_instruments_known 0
      then record { reasons = low_coverage ∷ [] }
      else if f.lt (f.ratio stats.n_quotes_admissible stats.n_instruments_known)
          c.min_coverage_ratio
      then record { reasons = low_coverage ∷ [] }
      else record { reasons = [] }
