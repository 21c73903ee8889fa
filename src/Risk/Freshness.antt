-- ===== src/Risk/Freshness.antt =====
-- volengine/risk/domain/freshness_policy.py.
pub mod Verdicts
use volengine.Base.{Bool, true, false, not, ◌||◌, if◌then◌else◌}
use volengine.Base.Results.{Result, ok, err, value_error, guard, ◌>>=◌, ◌>>◌}
use volengine.Base.Instants.{Instant, elapsed, require_aware}
use volengine.Base.Floats.{Float}

pub data FreshnessDecision : Type 0 where
  normal degraded reject : FreshnessDecision

pub record FreshnessPolicy (F : Type 0) : Type 0 where
  pub warn_seconds : F
  pub reject_seconds : F

module _ {F : Type 0} ⦃f : Float F⦄ where
  -- `FreshnessPolicy(warn, reject)` with its `__post_init__`.
  unfoldable pub freshness_policy : F → F → Result (FreshnessPolicy F)
  freshness_policy warn limit = do
    guard (not (not (f.is_finite warn) || f.le warn (f.of_ℕ 0))) value_error
    guard (f.is_finite limit) value_error
    guard (not (f.le limit warn)) value_error
    ok (record { warn_seconds = warn; reject_seconds = limit })

  unfoldable pub judge_age : FreshnessPolicy F → F → FreshnessDecision
  judge_age policy age =
      if f.lt age policy.warn_seconds
      then normal
      else if f.le age policy.reject_seconds
      then degraded
      else reject

  unfoldable pub evaluate : FreshnessPolicy F → Instant → Instant → Result FreshnessDecision
  unfolding require_aware judge_age
  evaluate policy ts_snapshot now = do
    require_aware ts_snapshot
    require_aware now
    ok (judge_age policy (f.seconds (elapsed now ts_snapshot)))
