-- ===== src/Risk/Freshness/Verdicts.antt =====
-- What the three verdicts mean, for a policy that its constructor accepted.
use volengine.Base.{ℕ, ◌≤◌, ◌≡◌, ◌↔◌, inl, inr, ap, subst, true, false, arith, Bool-cases}
use volengine.Base.Results.{ok, ok-injective}
use volengine.Base.Instants.{Instant, elapsed}
use volengine.Base.Floats.{
  Float, IsOrdered, lt-not_le, le-not_lt, not_le-lt, le_lt_trans, lt_le_trans,
}
use volengine.Risk.Freshness.{
  FreshnessPolicy, FreshnessDecision, normal, degraded, reject, freshness_policy, judge_age,
  evaluate,
}

-- How bad a verdict is.
abbrev pub severity : FreshnessDecision → ℕ
severity normal = 0
severity degraded = 1
severity reject = 2

module _ {F : Type 0} ⦃f : Float F⦄ (laws : IsOrdered F) where
  open laws use {
    finite_refl, lt_le, le_trans, lt-eq-not-le, of_ℕ_mono, seconds_mono, seconds_nonpos,
  }

  -- What the constructor guarantees: both limits are numbers, and the warning band is not empty.
  pub policy_limits :
      (warn limit : F) (p : FreshnessPolicy F)
      → freshness_policy warn limit ≡ ok p
      → (f.le p.warn_seconds p.warn_seconds ≡ true)
        × (f.le p.reject_seconds p.reject_seconds ≡ true)
        × (f.lt p.warn_seconds p.reject_seconds ≡ true)
  unfolding freshness_policy
  policy_limits warn limit p h =
      ground (arith, finite_refl warn, finite_refl limit, lt-eq-not-le warn limit)

  warn_positive :
      (warn limit : F) (p : FreshnessPolicy F)
      → freshness_policy warn limit ≡ ok p
      → f.le p.warn_seconds (f.of_ℕ 0) ≡ false
  unfolding freshness_policy
  warn_positive warn limit p h = ground arith

  -- The order of a number and a limit, from both tests.
  abbrev pub Bands : FreshnessPolicy F → F → FreshnessDecision → Type 0
  Bands p age normal = f.lt age p.warn_seconds ≡ true
  Bands p age degraded = (f.le p.warn_seconds age ≡ true) × (f.le age p.reject_seconds ≡ true)
  Bands p age reject = f.lt p.reject_seconds age ≡ true

  judge_age-Bands :
      (p : FreshnessPolicy F) (age : F)
      → f.le age age ≡ true
      → f.le p.warn_seconds p.warn_seconds ≡ true
      → f.le p.reject_seconds p.reject_seconds ≡ true
      → Bands p age (judge_age p age)
  unfolding judge_age
  judge_age-Bands p age a w r = elim (Bool-cases (f.lt age p.warn_seconds)) [
    | inl early ↦ rw early early
    | inr late ↦ elim (Bool-cases (f.le age p.reject_seconds)) [
      | inl inside ↦ rw (late, inside) (ground (arith, lt-eq-not-le age p.warn_seconds))
      | inr beyond ↦ rw (late, beyond) (ground (arith, lt-eq-not-le p.reject_seconds age))
    ]
  ]

  Bands-judge_age :
      (p : FreshnessPolicy F) (age : F) (v : FreshnessDecision)
      → f.lt p.warn_seconds p.reject_seconds ≡ true
      → Bands p age v
      → judge_age p age ≡ v
  unfolding judge_age
  Bands-judge_age p age normal sep b = rw b
  Bands-judge_age p age degraded sep b = rw (le-not_lt laws p.warn_seconds age b.0, b.1)
  Bands-judge_age p age reject sep b =
      let above = lt_le_trans laws p.warn_seconds p.reject_seconds age sep (lt_le _ _ b) in
      rw (le-not_lt laws p.warn_seconds age (lt_le _ _ above), lt-not_le laws _ _ b)

  judge_age_mono :
      (p : FreshnessPolicy F) (a b : F)
      → f.le a b ≡ true
      → severity (judge_age p a) ≤ severity (judge_age p b)
  unfolding judge_age
  judge_age_mono p a b h =
      ground (arith, le_lt_trans laws a b p.warn_seconds h, le_trans a b p.reject_seconds h)

  evaluate-judge_age :
      (p : FreshnessPolicy F) (ts now : Instant) (v : FreshnessDecision)
      → evaluate p ts now ≡ ok v
      → judge_age p (f.seconds (elapsed now ts)) ≡ v
  unfolding evaluate
  evaluate-judge_age p ts now v e = ground arith

  module _ (warn limit : F) (p : FreshnessPolicy F)
      (made : freshness_policy warn limit ≡ ok p) where
    -- For a policy that its constructor accepted and two aware instants, the verdict is NORMAL exactly
    -- when the age is below the warning, REJECT exactly when it is above the rejection limit, and
    -- DEGRADED exactly when it lies between the two, both limits included.
    pub evaluate-Bands :
        (ts now : Instant) (v : FreshnessDecision)
        → ts.aware ≡ true
        → now.aware ≡ true
        → (evaluate p ts now ≡ ok v) ↔ Bands p (f.seconds (elapsed now ts)) v
    unfolding evaluate
    evaluate-Bands ts now v a b =
        let age = f.seconds (elapsed now ts) in
        let (w, r, sep) = policy_limits warn limit p made in
        let number = seconds_mono (elapsed now ts) (elapsed now ts) (omega arith) in
        rw (a, b)
          (
            λ e. subst (Bands p age) (ok-injective e) (judge_age-Bands p age number w r),
            λ h. ap ok (Bands-judge_age p age v sep h),
          )

    -- For a policy that its constructor accepted, the verdict on one surface never improves from one
    -- reading of the clock to a later one.
    pub evaluate_worsens :
        (ts now later : Instant) (v w : FreshnessDecision)
        → now.micros ≤ later.micros
        → evaluate p ts now ≡ ok v
        → evaluate p ts later ≡ ok w
        → severity v ≤ severity w
    evaluate_worsens ts now later v w order e e' =
        let older = seconds_mono (elapsed now ts) (elapsed later ts) (ground arith) in
        subst (λ (u : FreshnessDecision). severity u ≤ severity w) (evaluate-judge_age p ts now v e)
          (subst
            (λ (u : FreshnessDecision).
              severity (judge_age p (f.seconds (elapsed now ts))) ≤ severity u)
            (evaluate-judge_age p ts later w e') (judge_age_mono p _ _ older))

    -- For a policy that its constructor accepted and two aware instants, a surface stamped at or after
    -- the present instant is NORMAL.
    pub evaluate_future :
        (ts now : Instant)
        → ts.aware ≡ true
        → now.aware ≡ true
        → now.micros ≤ ts.micros
        → evaluate p ts now ≡ ok normal
    evaluate_future ts now a b order = (evaluate-Bands ts now normal a b).1 (
        le_lt_trans laws _ (f.of_ℕ 0) p.warn_seconds (seconds_nonpos _ (ground arith)) (
          not_le-lt laws p.warn_seconds (f.of_ℕ 0) (policy_limits warn limit p made).0
            (of_ℕ_mono 0 0 (omega arith)) (warn_positive warn limit p made)))
