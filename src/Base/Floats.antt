-- ===== src/Base/Floats.antt =====
-- Python's `float` and what the engine does with it. antt has no floats: the type and its operations
-- are a parameter, and the theorems name the laws of IEEE comparison that they rely on.
use Prim.Native.Nat.{ℕ, ◌≤◌, ◌<◌}
use mathlib.Core.Path.{◌≡◌}
use mathlib.Core.Bool.{Bool, true, false, not}
use mathlib.Core.Logic.{inl, inr}
use native.Mathlib.Omega.{arith}
use volengine.Base.Tests.{if◌then◌else◌, Bool-cases}
use volengine.Base.Int.{ℤ, pos, ◌≤ℤ◌}

pub record Float (F : Type 0) : Type 0 where
  -- `float(n)`, and the literals
  pub of_ℕ : ℕ → F
  -- `m / n` of two `int`s, where the code has excluded n == 0
  pub ratio : ℕ → ℕ → F
  -- `timedelta.total_seconds()`, of microseconds
  pub seconds : ℤ → F
  pub add : F → F → F
  pub sub : F → F → F
  pub mul : F → F → F
  -- `a / b`, where the code has excluded b == 0
  pub div : F → F → F
  pub abs : F → F
  -- `math.log`
  pub ln : F → F
  pub is_finite : F → Bool
  -- `a < b`, `a <= b`, `a == b`; `a > b` is `b < a`
  pub lt : F → F → Bool
  pub le : F → F → Bool
  pub eq : F → F → Bool

module _ {F : Type 0} ⦃f : Float F⦄ where
  -- `max(a, b)` and `min(a, b)` keep the first argument unless the second is strictly beyond it.
  abbrev pub fmax : F → F → F
  fmax a b = if f.lt a b then b else a

  abbrev pub fmin : F → F → F
  fmin a b = if f.lt b a then b else a

-- Documented behaviour of IEEE comparison. A NaN is a value that is not `<=` itself, and every
-- comparison with it is false.
pub record IsOrdered (F : Type 0) ⦃f : Float F⦄ : Type 0 where
  pub finite_refl : (x : F) → f.is_finite x ≡ true → f.le x x ≡ true
  pub lt_left : (x y : F) → f.lt x y ≡ true → f.le x x ≡ true
  pub lt_right : (x y : F) → f.lt x y ≡ true → f.le y y ≡ true
  pub le_left : (x y : F) → f.le x y ≡ true → f.le x x ≡ true
  pub le_right : (x y : F) → f.le x y ≡ true → f.le y y ≡ true
  pub lt_le : (x y : F) → f.lt x y ≡ true → f.le x y ≡ true
  pub le_trans : (x y z : F) → f.le x y ≡ true → f.le y z ≡ true → f.le x z ≡ true
  pub lt-eq-not-le : (x y : F) → f.le x x ≡ true → f.le y y ≡ true → f.lt x y ≡ not (f.le y x)
  pub ratio_bounds :
      (m n : ℕ)
      → m ≤ n
      → 0 < n
      → (f.le (f.of_ℕ 0) (f.ratio m n) ≡ true) × (f.le (f.ratio m n) (f.of_ℕ 1) ≡ true)
  pub of_ℕ_mono : (m n : ℕ) → m ≤ n → f.le (f.of_ℕ m) (f.of_ℕ n) ≡ true
  pub seconds_nonpos : (a : ℤ) → a ≤ℤ pos 0 → f.le (f.seconds a) (f.of_ℕ 0) ≡ true
  pub seconds_mono : (a b : ℤ) → a ≤ℤ b → f.le (f.seconds a) (f.seconds b) ≡ true

module _ {F : Type 0} ⦃f : Float F⦄ (laws : IsOrdered F) where
  open laws use {lt_left, lt_right, lt_le, le_left, le_right, le_trans, lt-eq-not-le}

  pub lt-not_le : (x y : F) → f.lt x y ≡ true → f.le y x ≡ false
  lt-not_le x y h = ground (arith, lt_left x y h, lt_right x y h, lt-eq-not-le x y)

  pub le-not_lt : (x y : F) → f.le x y ≡ true → f.lt y x ≡ false
  le-not_lt x y h = ground (arith, le_left x y h, le_right x y h, lt-eq-not-le y x)

  -- Of two numbers, one is below the other or not above it.
  pub not_lt-le : (x y : F) → f.le x x ≡ true → f.le y y ≡ true → f.lt x y ≡ false → f.le y x ≡ true
  not_lt-le x y a b h = ground (arith, lt-eq-not-le x y)

  pub not_le-lt : (x y : F) → f.le x x ≡ true → f.le y y ≡ true → f.le x y ≡ false → f.lt y x ≡ true
  not_le-lt x y a b h = ground (arith, lt-eq-not-le y x)

  pub le_lt_trans : (x y z : F) → f.le x y ≡ true → f.lt y z ≡ true → f.lt x z ≡ true
  le_lt_trans x y z h k = elim (Bool-cases (f.le z x)) [
    | inl back ↦ absurd (cc (le_trans z x y back h, lt-not_le y z k))
    | inr ahead ↦ not_le-lt z x (lt_right y z k) (le_left x y h) ahead
  ]

  pub lt_le_trans : (x y z : F) → f.lt x y ≡ true → f.le y z ≡ true → f.lt x z ≡ true
  lt_le_trans x y z h k = elim (Bool-cases (f.le z x)) [
    | inl back ↦ absurd (cc (le_trans y z x k back, lt-not_le x y h))
    | inr ahead ↦ not_le-lt z x (le_right y z k) (lt_left x y h) ahead
  ]

-- `==` of floats: symmetric, equal numbers compare alike, and a finite number equals itself.
pub record IsComparable (F : Type 0) ⦃f : Float F⦄ : Type 0 where
  pub eq_sym : (x y : F) → f.eq x y ≡ f.eq y x
  pub eq_congr : (x y z : F) → f.eq x y ≡ true → f.eq x z ≡ f.eq y z
  pub eq_refl : (x : F) → f.is_finite x ≡ true → f.eq x x ≡ true
