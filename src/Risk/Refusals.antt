-- ===== src/Risk/Refusals.antt =====
-- Which exceptions the valuation of a book raises: those of its arithmetic, and the one for an expired
-- position, which `compute` of volengine/risk/application/compute_report.py catches.
use volengine.Base.{
  ℕ, zero, suc, ◌-◌, ◌≡◌, refl, subst, Bool, true, false, not, ◌||◌, List, [], ◌∷◌, length,
  if◌then◌else◌,
}
use volengine.Base.Results.{
  Result, Error, ok, err, value_error, index_error, overflow_error, zero_division, guard, ◌>>=◌,
  ◌>>◌, attach,
}
use volengine.Base.Floats.{Float}
use volengine.Kernel.Elementary.{Elementary}
use volengine.Kernel.Black76.{math_log}
use volengine.Risk.SurfaceView.{SurfaceView}
use volengine.Risk.Interpolation.{
  nth, bisect_right, between_nodes, bracket, require_positive, bilinear_total_variance, math_sqrt,
  math_exp, implied_vol, forward_between, forward_at,
}
use volengine.Risk.ComputeReport.{PositionRisk, position_risk_made}
use volengine.Risk.Valuation.{quotient}

-- `ValueError` and the exceptions of indices and of arithmetic.
abbrev pub is_numeric : Error → Bool
is_numeric value_error = true
is_numeric index_error = true
is_numeric overflow_error = true
is_numeric zero_division = true
is_numeric _ = false

-- A call raises nothing else.
abbrev pub IsNumeric {ℓ} : {A : Type ℓ} → Result A → Type 0
IsNumeric (ok a) = Unit {0}
IsNumeric (err x) = is_numeric x ≡ true

pub raised-is_numeric {ℓ} :
    {A : Type ℓ} {r : Result A} {x : Error} → IsNumeric r → r ≡ err x → is_numeric x ≡ true
raised-is_numeric h raised = subst IsNumeric raised h

pub bind-IsNumeric {ℓ ℓ'} :
    {A : Type ℓ} {B : Type ℓ'} (m : Result A) (next : A → Result B)
    → IsNumeric m
    → ((a : A) → IsNumeric (next a))
    → IsNumeric (m >>= next)
bind-IsNumeric (err x) next h k = h
bind-IsNumeric (ok a) next h k = k a

pub guard-IsNumeric {ℓ} :
    {A : Type ℓ} (b : Bool) (next : Result A)
    → IsNumeric next
    → IsNumeric (guard b value_error >> next)
guard-IsNumeric false next h = refl
guard-IsNumeric true next h = h

pub checked-IsNumeric : (b : Bool) → IsNumeric (guard b value_error)
checked-IsNumeric true = tt
checked-IsNumeric false = refl

pub if-IsNumeric {ℓ} :
    {A : Type ℓ} (b : Bool) (m n : Result A)
    → IsNumeric m
    → IsNumeric n
    → IsNumeric (if b then m else n)
if-IsNumeric true m n h k = h
if-IsNumeric false m n h k = k

pub attach-IsNumeric {ℓ} :
    {A : Type ℓ} (m : Result A) (later : Result (List A))
    → IsNumeric m
    → IsNumeric later
    → IsNumeric (attach m later)
attach-IsNumeric (err x) later h k = h
attach-IsNumeric (ok a) (err x) h k = k
attach-IsNumeric (ok a) (ok rest) h k = tt

pub nth-IsNumeric {ℓ} : {A : Type ℓ} (xs : List A) (i : ℕ) → IsNumeric (nth xs i)
unfolding nth
nth-IsNumeric [] i = refl
nth-IsNumeric (x ∷ xs) zero = tt
nth-IsNumeric (x ∷ xs) (suc i) = nth-IsNumeric xs i

-- An item, and what is done with it.
pub nth_then {ℓ ℓ'} :
    {A : Type ℓ} {B : Type ℓ'} (xs : List A) (i : ℕ) (next : A → Result B)
    → ((a : A) → IsNumeric (next a))
    → IsNumeric (nth xs i >>= next)
nth_then xs i next = bind-IsNumeric (nth xs i) next (nth-IsNumeric xs i)

module _ {F : Type 0} ⦃f : Float F⦄ where
  between_nodes-IsNumeric :
      (axis : List F) (x : F) (upper : ℕ) → IsNumeric (between_nodes axis x upper)
  unfolding between_nodes
  between_nodes-IsNumeric axis x upper =
      nth_then axis (upper - 1) _ (λ a. nth_then axis upper _ (λ b. tt))

  bracket-IsNumeric : (axis : List F) (x : F) → IsNumeric (bracket axis x)
  unfolding bracket
  bracket-IsNumeric axis x = nth_then axis 0 _ (λ a. nth_then axis (length axis - 1) _ (λ b.
      if-IsNumeric (f.le x a) _ _ tt (
        if-IsNumeric (f.le b x) _ _ tt
          (between_nodes-IsNumeric axis x (bisect_right f.lt axis x)))))

  pub require_positive-IsNumeric : (x : F) → IsNumeric (require_positive x)
  unfolding require_positive
  require_positive-IsNumeric x = checked-IsNumeric (not (not (f.is_finite x) || f.le x (f.of_ℕ 0)))

  bilinear_total_variance-IsNumeric :
      (v : SurfaceView F) (k tenor_years : F) → IsNumeric (bilinear_total_variance v k tenor_years)
  unfolding bilinear_total_variance
  bilinear_total_variance-IsNumeric v k tenor_years = guard-IsNumeric (f.is_finite k) _ (
      bind-IsNumeric (require_positive tenor_years) _ (require_positive-IsNumeric tenor_years)
        (λ done.
          bind-IsNumeric (bracket v.tenors tenor_years) _ (bracket-IsNumeric v.tenors tenor_years)
            (λ t.
              bind-IsNumeric (bracket v.log_moneyness k) _ (bracket-IsNumeric v.log_moneyness k)
                (λ n. nth_then v.total_variance t.0 _ (λ near.
                  nth_then v.total_variance t.1 _ (λ far. nth_then near n.0 _ (λ a.
                    nth_then near n.1 _
                      (λ b. nth_then far n.0 _ (λ c. nth_then far n.1 _ (λ d. tt))))))))))

  pub quotient-IsNumeric : (a b : F) → IsNumeric (quotient a b)
  unfolding quotient
  quotient-IsNumeric a b = if-IsNumeric (f.eq b (f.of_ℕ 0)) _ _ refl tt

  pub position_risk_made-IsNumeric : (r : PositionRisk F) → IsNumeric (position_risk_made r)
  unfolding position_risk_made
  position_risk_made-IsNumeric r =
      guard-IsNumeric (not (not (f.is_finite r.vol) || f.le r.vol (f.of_ℕ 0))) _ (
        guard-IsNumeric (f.is_finite r.value) _ (
          guard-IsNumeric (f.is_finite r.delta) _
            (guard-IsNumeric (f.is_finite r.gamma) _ (guard-IsNumeric (f.is_finite r.vega) _ tt))))

module _ {F : Type 0} ⦃f : Float F⦄ (e : Elementary F) where
  pub math_sqrt-IsNumeric : (x : F) → IsNumeric (math_sqrt e x)
  unfolding math_sqrt
  math_sqrt-IsNumeric x = if-IsNumeric (f.lt x (f.of_ℕ 0)) _ _ refl tt

  math_exp-IsNumeric : (x : F) → IsNumeric (math_exp e x)
  unfolding math_exp
  math_exp-IsNumeric x = if-IsNumeric (e.exp_overflows x) _ _ refl tt

  pub math_log-IsNumeric : (x : F) → IsNumeric (math_log e x)
  unfolding math_log
  math_log-IsNumeric x = if-IsNumeric (f.le x (f.of_ℕ 0)) _ _ refl tt

  pub implied_vol-IsNumeric :
      (v : SurfaceView F) (k tenor_years : F) → IsNumeric (implied_vol e v k tenor_years)
  unfolding implied_vol
  implied_vol-IsNumeric v k tenor_years =
      bind-IsNumeric (bilinear_total_variance v k tenor_years) _
        (bilinear_total_variance-IsNumeric v k tenor_years)
        (λ w. bind-IsNumeric (math_sqrt e (f.div w tenor_years)) _ (math_sqrt-IsNumeric _) (λ vol.
          bind-IsNumeric (require_positive vol) _ (require_positive-IsNumeric vol) (λ done. tt)))

  forward_between-IsNumeric :
      (v : SurfaceView F) (tenor_years : F) (index : ℕ)
      → IsNumeric (forward_between e v tenor_years index)
  unfolding forward_between
  forward_between-IsNumeric v tenor_years index = nth_then v.forwards (index - 1) _ (λ a.
      nth_then v.forwards index _ (λ b. nth_then v.tenors (index - 1) _ (λ c.
        nth_then v.tenors index _ (λ d.
          bind-IsNumeric (math_log e (f.div b a)) _ (math_log-IsNumeric _) (λ r.
            bind-IsNumeric (math_exp e (f.mul (f.div r (f.sub d c)) (f.sub tenor_years c))) _
              (math_exp-IsNumeric _) (λ g. tt))))))

  pub forward_at-IsNumeric :
      (v : SurfaceView F) (tenor_years : F) → IsNumeric (forward_at e v tenor_years)
  unfolding forward_at
  forward_at-IsNumeric v tenor_years =
      bind-IsNumeric (require_positive tenor_years) _ (require_positive-IsNumeric tenor_years)
        (λ done. nth_then v.tenors 0 _ (λ a. nth_then v.tenors (length v.tenors - 1) _ (λ b.
          if-IsNumeric (f.le tenor_years a) _ _ (nth-IsNumeric v.forwards 0) (
            if-IsNumeric (f.le b tenor_years) _ _ (nth-IsNumeric v.forwards (length v.forwards - 1))
              (forward_between-IsNumeric v tenor_years (bisect_right f.lt v.tenors tenor_years))))))
