-- ===== src/Base/Fixed.antt =====
-- A concrete `Float` for tests and examples: millionths, with `none` for NaN and no infinities. The
-- laws of `Floats` hold of it. `ln` is its tangent at one, which no example depends on.
use Prim.Native.Nat.{ℕ, suc, ◌+◌, ◌*◌, ◌/◌, ◌≤◌, ◌<◌}
use mathlib.Core.Bool.{Bool, false}
use mathlib.Core.Option.{Option, none, some}
use native.Mathlib.Omega.{arith}
use volengine.Base.Tests.{is_some}
use volengine.Base.Int.{ℤ, pos, negsuc, pos_part, neg_part, sub_ℕ, ◌+ℤ◌, ◌-ℤ◌, leb_ℤ, ltb_ℤ, eqb_ℤ}
use volengine.Base.Floats.{Float, IsOrdered, IsComparable}

abbrev pub Fixed : Type 0
Fixed = Option ℤ

abbrev pub lift₂ : (ℤ → ℤ → ℤ) → Fixed → Fixed → Fixed
lift₂ g (some a) (some b) = some (g a b)
lift₂ g _ _ = none

abbrev pub test₂ : (ℤ → ℤ → Bool) → Fixed → Fixed → Bool
test₂ g (some a) (some b) = g a b
test₂ g _ _ = false

abbrev pub mul_millionths : ℤ → ℤ → ℤ
mul_millionths a b =
    sub_ℕ ((pos_part a * pos_part b + neg_part a * neg_part b) / 1_000_000)
      ((pos_part a * neg_part b + neg_part a * pos_part b) / 1_000_000)

abbrev pub div_millionths : ℤ → ℤ → ℤ
div_millionths a b =
    sub_ℕ (pos_part a * 1_000_000 / pos_part b) (neg_part a * 1_000_000 / pos_part b)

abbrev pub abs_ℤ : ℤ → ℤ
abs_ℤ (pos n) = pos n
abs_ℤ (negsuc n) = pos (suc n)

abbrev pub on_number : (ℤ → ℤ) → Fixed → Fixed
on_number g (some a) = some (g a)
on_number g none = none

instance abbrev pub fixed_float : Float Fixed
fixed_float = record {
  of_ℕ = λ n. some (pos (n * 1_000_000));
  ratio = λ m n. some (pos (m * 1_000_000 / n));
  seconds = λ z. some z;
  add = lift₂ ◌+ℤ◌;
  sub = lift₂ ◌-ℤ◌;
  mul = lift₂ mul_millionths;
  div = lift₂ div_millionths;
  abs = on_number abs_ℤ;
  ln = on_number (λ z. ◌-ℤ◌ z (pos 1_000_000));
  is_finite = is_some;
  lt = test₂ ltb_ℤ;
  le = test₂ leb_ℤ;
  eq = test₂ eqb_ℤ;
}

scaled-le : (m n : ℕ) → m ≤ n → 0 < n → m * 1_000_000 / n ≤ 1_000_000
scaled-le m n h p = grind arith

pub Fixed-IsOrdered : IsOrdered Fixed
Fixed-IsOrdered = record {
  finite_refl = ground arith;
  lt_left = ground arith;
  lt_right = ground arith;
  le_left = ground arith;
  le_right = ground arith;
  lt_le = ground arith;
  le_trans = ground arith;
  lt-eq-not-le = ground arith;
  ratio_bounds = λ m n h p. ground (arith, scaled-le m n h p);
  of_ℕ_mono = ground arith;
  seconds_nonpos = ground arith;
  seconds_mono = ground arith;
}

pub Fixed-IsComparable : IsComparable Fixed
Fixed-IsComparable = ground arith

-- Whole seconds and parts, for examples.
abbrev pub millionths : ℕ → Fixed
millionths n = some (pos n)
