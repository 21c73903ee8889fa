-- ===== src/Market/SnapshotPolicy/Emission.antt =====
-- When the policy emits: the plain conjunction of coverage, cadence, and heartbeat or movement.
use volengine.Base.{
  ◌≡◌, refl, ◌↔◌, ◌⊎◌, inl, Bool, true, false, not, ◌&&◌, Option, none, some, arith, if◌then◌else◌,
}
use volengine.Base.Results.{Result, ok, err, ◌>>=◌}
use volengine.Base.Instants.{Instant, elapsed}
use volengine.Base.Floats.{Float, IsOrdered, not_lt-le}
use volengine.Market.SnapshotPolicy.{
  ChainStats, SnapshotPolicyConfig, snapshot_policy_config, positive, check_quiet, cadence_elapsed,
  heartbeat, due_after, is_due, should_emit,
}

-- A test after a chain of calls, put as a conjunction.
conjunction :
    (m : Result Bool) (g : Bool → Bool) (z : Bool)
    → (if z then (m >>= λ _. ok false) else (m >>= λ b. ok (g b)))
      ≡ (m >>= (λ b. ok (g b)) >>= λ due. ok (due && not z))
conjunction (ok b) g true = ground arith
conjunction (ok b) g false = ground arith
conjunction (err e) g true = refl
conjunction (err e) g false = refl

module _ {F : Type 0} ⦃f : Float F⦄ where
  -- `should_emit` is the conjunction of the timing half and the coverage test: on every input, the
  -- naive instants that raise included, it is `is_due` and then the sign of the coverage.
  pub should_emit-eq-is_due :
      (c : SnapshotPolicyConfig F) (stats : ChainStats F) (move : F) (last : Option Instant)
      (now : Instant)
      → should_emit c stats move last now
        ≡ (is_due c move last now >>= λ due. ok (due && not (f.le stats.coverage_ratio (f.of_ℕ 0))))
  unfolding should_emit is_due
  should_emit-eq-is_due c stats move last now =
      conjunction (cadence_elapsed c last now) (due_after c move last now)
        (f.le stats.coverage_ratio (f.of_ℕ 0))

  -- With an earlier emission and aware instants, the policy emits exactly when the chain has coverage,
  -- the cadence has elapsed, and the heartbeat has run out or the move reaches the threshold.
  should_emit_iff :
      (c : SnapshotPolicyConfig F) (stats : ChainStats F) (move : F) (last now : Instant)
      → last.aware ≡ true
      → now.aware ≡ true
      → let age = f.seconds (elapsed now last) in
        (should_emit c stats move (some last) now ≡ ok true) ↔ (
          (f.le stats.coverage_ratio (f.of_ℕ 0) ≡ false)
          × (f.le c.cadence_seconds age ≡ true)
          × ((heartbeat c.max_quiet_seconds age ≡ true)
              ⊎ (f.le c.material_move_threshold move ≡ true)))
  unfolding should_emit is_due cadence_elapsed due_after
  should_emit_iff c stats move last now a b = ground arith

  -- With coverage and an aware clock, the first emission needs neither cadence nor movement.
  pub should_emit_first :
      (c : SnapshotPolicyConfig F) (stats : ChainStats F) (move : F) (now : Instant)
      → now.aware ≡ true
      → f.le stats.coverage_ratio (f.of_ℕ 0) ≡ false
      → should_emit c stats move none now ≡ ok true
  unfolding should_emit is_due cadence_elapsed due_after
  should_emit_first c stats move now a h = ground arith

  module _ (laws : IsOrdered F) where
    open laws use {finite_refl, le_trans}

    quiet-ge-cadence :
        (c : SnapshotPolicyConfig F) (quiet : F)
        → snapshot_policy_config c ≡ ok c
        → c.max_quiet_seconds ≡ some quiet
        → f.le c.cadence_seconds quiet ≡ true
    unfolding snapshot_policy_config positive check_quiet
    quiet-ge-cadence c quiet made q = ground (
      arith,
      finite_refl c.cadence_seconds,
      finite_refl quiet,
      not_lt-le laws quiet c.cadence_seconds,
    )

    -- The heartbeat guarantees emission: under a configuration that its constructor accepts, once the
    -- quiet limit has passed since the last emission, a chain with coverage is emitted whatever its
    -- move, a NaN move included.
    pub should_emit_heartbeat :
        (c : SnapshotPolicyConfig F) (stats : ChainStats F) (move quiet : F) (last now : Instant)
        → snapshot_policy_config c ≡ ok c
        → c.max_quiet_seconds ≡ some quiet
        → last.aware ≡ true
        → now.aware ≡ true
        → f.le quiet (f.seconds (elapsed now last)) ≡ true
        → f.le stats.coverage_ratio (f.of_ℕ 0) ≡ false
        → should_emit c stats move (some last) now ≡ ok true
    unfolding heartbeat
    should_emit_heartbeat c stats move quiet last now made q a b waited covered =
        let age = f.seconds (elapsed now last) in
        let paced = le_trans _ _ _ (quiet-ge-cadence c quiet made q) waited in
        (should_emit_iff c stats move last now a b).1 (covered, paced, inl (ground arith))
