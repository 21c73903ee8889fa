-- ===== src/Kernel/Elementary.antt =====
-- The functions of Python's `math` that the pricing formulas call. Their values are a parameter.
use mathlib.Core.Bool.{Bool}
use mathlib.Core.List.{List}

pub record Elementary (F : Type 0) : Type 0 where
  pub neg : F → F
  pub sqrt : F → F
  pub exp : F → F
  -- `math.exp` raises `OverflowError` here.
  pub exp_overflows : F → Bool
  pub erfc : F → F
  -- `math.fsum`
  pub fsum : List F → F
  pub pi : F
  pub infinity : F
