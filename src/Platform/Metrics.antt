-- ===== src/Platform/Metrics.antt =====
-- volengine/platform/metrics.py: the metrics port. A sink is the list of what was sent to it, in order.
use volengine.Base.{ℕ, ◌+◌, String, ◌≡◌, List, [], ◌∷◌, ◌++◌, arith}
use volengine.Base.Keys.{◌==◌, string_key}
use volengine.Base.{if◌then◌else◌}

abbrev pub Tags : Type 0
Tags = List (String × String)

-- One call of the sink: `counter(name, value, **tags)`, `gauge` and `timing`.
pub data Measurement (F : Type 0) : Type 0 where
  counter : String → ℕ → Tags → Measurement F
  gauge : String → F → Tags → Measurement F
  timing : String → F → Tags → Measurement F

module _ {F : Type 0} where
  -- What the calls of `counter` under one name add up to.
  unfoldable pub total : String → List (Measurement F) → ℕ
  total name [] = 0
  total name (counter n v tags ∷ log) = (if n == name then v else 0) + total name log
  total name (_ ∷ log) = total name log

  pub total-append :
      (name : String) (a b : List (Measurement F))
      → total name (a ++ b) ≡ total name a + total name b
  unfolding total
  total-append name [] b = omega arith
  total-append name (counter n v tags ∷ a) b = omega (arith, total-append name a b)
  total-append name (_ ∷ a) b = total-append name a b
