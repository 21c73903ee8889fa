-- ===== src/Neural/Stratification.antt =====
-- volengine/neural_surface/domain/replay_buffer.py: the cells of the (k, T) plane.
pub mod Bands
use volengine.Base.{
  ℕ, zero, suc, ◌+◌, ◌-◌, ◌*◌, ◌≡◌, Bool, true, false, not, ◌&&◌, ◌||◌, List, [], ◌∷◌, arith, ltb,
  length, if◌then◌else◌, ◌==◌,
}
use Prim.Native.Nat.{min, max}
use volengine.Base.Results.{Result, ok, err, value_error, guard, ◌>>=◌, ◌>>◌}
use volengine.Base.Floats.{Float}
use volengine.Base.Keys.{Key, nat_sym, nat_congr}
use volengine.Contracts.Surface.{every, increasing}
use volengine.Neural.Training.{TrainingSample}

-- `CellIndex`, with the equality of tuples
pub record CellIndex : Type 0 where
  pub moneyness : ℕ
  pub tenor : ℕ

abbrev pub same_cell : CellIndex → CellIndex → Bool
same_cell a b = (a.moneyness == b.moneyness) && (a.tenor == b.tenor)

pub cell_sym : (a b : CellIndex) → same_cell a b ≡ same_cell b a
cell_sym a b = ground (arith, nat_sym a.moneyness b.moneyness, nat_sym a.tenor b.tenor)

pub cell_congr : (a b c : CellIndex) → same_cell a b ≡ true → same_cell a c ≡ same_cell b c
cell_congr a b c h = ground arith

instance abbrev pub cell_key : Key CellIndex
cell_key = record { beq = same_cell; beq_sym = cell_sym; beq_congr = cell_congr }

pub record StratificationSpec (F : Type 0) : Type 0 where
  pub moneyness_edges : List F
  pub tenor_edges : List F
  pub capacity_per_cell : ℕ
  pub max_age_seconds : F

module _ {F : Type 0} ⦃f : Float F⦄ where
  -- `_require_edges`: the length, then each edge, then the order.
  unfoldable pub require_edges : List F → Bool → Result (Unit {0})
  require_edges edges positive = do
    guard (not (ltb (length edges) 2)) value_error
    guard (every (λ edge. f.is_finite edge && not (positive && f.le edge (f.of_ℕ 0))) edges)
        value_error
    guard (increasing (λ lower upper. not (f.le upper lower)) edges) value_error

  unfoldable pub stratification_spec : StratificationSpec F → Result (StratificationSpec F)
  unfolding require_edges
  stratification_spec s = do
    require_edges s.moneyness_edges false
    require_edges s.tenor_edges true
    guard (not (ltb s.capacity_per_cell 1)) value_error
    guard (not (not (f.is_finite s.max_age_seconds) || f.le s.max_age_seconds (f.of_ℕ 0)))
        value_error
    ok s

  unfoldable pub n_cells : StratificationSpec F → ℕ
  n_cells s = (length s.moneyness_edges - 1) * (length s.tenor_edges - 1)

  -- `bisect_right` of a sorted list: how many of its items stand at or below the value.
  unfoldable pub bisect_right : List F → F → ℕ
  bisect_right [] value = 0
  bisect_right (e ∷ edges) value = if f.lt value e then 0 else suc (bisect_right edges value)

  -- `max(0, min(len(edges) - 2, bisect_right(edges, value) - 1))`; the subtraction stops at the zero to
  -- which `max` would bring a negative difference.
  unfoldable pub band_of : List F → F → ℕ
  unfolding bisect_right
  band_of edges value = max 0 (min (length edges - 2) (bisect_right edges value - 1))

  unfoldable pub cell_of : StratificationSpec F → TrainingSample F → CellIndex
  cell_of s sample = record {
    moneyness = band_of s.moneyness_edges sample.log_moneyness;
    tenor = band_of s.tenor_edges sample.tenor_years;
  }
