-- ===== src/Market/Forward.antt =====
-- volengine/market_data/domain/forward.py: the two routes to the forward, and their cross-check.
use volengine.Base.{
  ℕ, ◌-◌, ◌/◌, ◌%◌, Bool, not, ◌||◌, none, some, List, [], ◌∷◌, length, get_elem?, ◌==◌,
  if◌then◌else◌,
}
use volengine.Base.Results.{Result, ok, value_error, guard, ◌>>=◌, ◌>>◌}
use volengine.Base.Floats.{Float}
use volengine.Base.Sorting.{sort_by}

module _ {F : Type 0} ⦃f : Float F⦄ where
  -- `not math.isfinite(x) or x <= 0` refused
  unfoldable pub positive_number : F → Bool
  positive_number x = not (not (f.is_finite x) || f.le x (f.of_ℕ 0))

  unfoldable pub forward_from_provider : F → Result F
  forward_from_provider price = do guard (positive_number price) value_error; ok price

  -- `statistics.median` of a list with a first item
  abbrev pub nth : List F → ℕ → F
  nth xs i = elim (get_elem? xs i) [ none ↦ f.of_ℕ 0 | some x ↦ x ]

  unfoldable pub median_sorted : List F → F
  median_sorted xs =
      if (length xs % 2) == 1
      then nth xs (length xs / 2)
      else f.div (f.add (nth xs (length xs / 2 - 1)) (nth xs (length xs / 2))) (f.of_ℕ 2)

  unfoldable pub median : List F → F
  unfolding median_sorted
  median xs = median_sorted (sort_by f.lt xs)

  unfoldable pub implied_forwards : F → List (F × F × F) → Result (List F)
  implied_forwards discount [] = ok []
  implied_forwards discount ((strike, call_mid, put_mid) ∷ pairs) = do
    guard (positive_number strike) value_error
    guard (not (not (f.is_finite call_mid) || not (f.is_finite put_mid))) value_error
    rest ← implied_forwards discount pairs
    ok (f.add strike (f.div (f.sub call_mid put_mid) discount) ∷ rest)

  unfoldable pub forward_from_parity : List (F × F × F) → F → Result F
  unfolding median
  forward_from_parity pairs discount = do
    guard (not (length pairs == 0)) value_error
    guard (positive_number discount) value_error
    implied ← implied_forwards discount pairs
    guard (positive_number (median implied)) value_error
    ok (median implied)

  unfoldable pub crosscheck_error : F → F → Result F
  crosscheck_error primary secondary = do
    guard (positive_number primary) value_error
    guard (f.is_finite secondary) value_error
    ok (f.div (f.abs (f.sub primary secondary)) primary)
