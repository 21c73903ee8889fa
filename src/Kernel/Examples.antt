-- ===== src/Kernel/Examples.antt =====
-- The solver at a concrete arithmetic of billionths, fine enough for its tolerance.
use volengine.Base.{ℕ, refl, true, false, some, none, foldl, arith, ◌+◌, ◌*◌, ◌/◌, ◌≤◌, ◌<◌}
use volengine.Base.Int.{ℤ, pos, pos_part, neg_part, sub_ℕ}
use volengine.Base.Floats.{Float, IsOrdered}
use volengine.Base.Fixed.{Fixed, fixed_float, lift₂}
use volengine.Kernel.Elementary.{Elementary}
use volengine.Kernel.Black76.{
  price, vega, first_guess, implied_vol, highest, midpoint, require_contract,
  require_positive_finite, intrinsic, ceiling,
}
use volengine.Kernel.Black76.Search.{IsBisecting, Found}
use volengine.Kernel.Black76.Solver.{implied_vol-Found}

abbrev mul_billionths : ℤ → ℤ → ℤ
mul_billionths a b =
    sub_ℕ ((pos_part a * pos_part b + neg_part a * neg_part b) / 1_000_000_000)
      ((pos_part a * neg_part b + neg_part a * pos_part b) / 1_000_000_000)

abbrev div_billionths : ℤ → ℤ → ℤ
div_billionths a b =
    sub_ℕ (pos_part a * 1_000_000_000 / pos_part b) (neg_part a * 1_000_000_000 / pos_part b)

abbrev billionths : Float Fixed
billionths = record fixed_float {
  of_ℕ = λ n. some (pos (n * 1_000_000_000));
  ratio = λ m n. some (pos (m * 1_000_000_000 / n));
  mul = lift₂ mul_billionths;
  div = lift₂ div_billionths;
}

-- Tangents at one and at zero stand for the functions.
abbrev pub tangents : Elementary Fixed
tangents = record {
  neg = λ x. fixed_float.sub (some (pos 0)) x;
  sqrt = λ x. x;
  exp = λ x. fixed_float.add x (some (pos 1_000_000_000));
  exp_overflows = λ x. false;
  erfc = λ x. fixed_float.sub (some (pos 1_000_000_000)) x;
  fsum = λ xs. foldl fixed_float.add (some (pos 0)) xs;
  pi = some (pos 3_141_592_653);
  infinity = none;
}

scaled-le : (m n : ℕ) → m ≤ n → 0 < n → m * 1_000_000_000 / n ≤ 1_000_000_000
scaled-le m n h p = grind arith

billionths-IsOrdered : IsOrdered Fixed ⦃f = billionths⦄
billionths-IsOrdered = record {
  finite_refl = ground arith;
  lt_left = ground arith;
  lt_right = ground arith;
  le_left = ground arith;
  le_right = ground arith;
  lt_le = ground arith;
  le_trans = ground arith;
  lt-eq-not-le = ground arith;
  ratio_bounds = λ m n h p. ground (arith, scaled-le m n h p);
  of_ℕ_mono = ground arith;
  seconds_nonpos = ground arith;
  seconds_mono = ground arith;
}

billionths-IsBisecting : IsBisecting ⦃f = billionths⦄ tangents
unfolding midpoint
billionths-IsBisecting = record {
  mid_bounds = ground arith;
  mid_positive = ground arith;
  doubles = ground arith;
  beyond = λ x. refl;
}

abbrev one : Fixed
one = some (pos 1_000_000_000)

abbrev tenth : Fixed
tenth = some (pos 100_000_000)

implied_vol-Found_example :
    Found ⦃f = billionths⦄ tangents
      (λ vol. price ⦃f = billionths⦄ tangents one one one vol true one)
      (λ vol. vega ⦃f = billionths⦄ tangents one one one vol one)
      tenth
      (highest ⦃f = billionths⦄ tangents one)
      (first_guess ⦃f = billionths⦄ tangents tenth one one one)
      (implied_vol ⦃f = billionths⦄ tangents tenth one one one true one)
unfolding require_contract require_positive_finite intrinsic ceiling highest
implied_vol-Found_example =
    implied_vol-Found ⦃f = billionths⦄ tangents billionths-IsOrdered billionths-IsBisecting tenth
      one one one true one refl refl refl refl refl refl refl refl
