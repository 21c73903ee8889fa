-- ===== src/Neural/Examples.antt =====
-- The theorems of the replay buffer and of the training state at concrete samples.
use Prim.Native.Nat.{min}
use volengine.Base.{
  ℕ, ◌+◌, ◌≤◌, ◌<◌, ◌≡◌, ◌⊎◌, refl, true, false, none, some, List, [], ◌∷◌, ◌++◌, length, keep,
  if◌then◌else◌, arith, suc, zero,
}
use volengine.Base.Results.{ok, err, value_error}
use volengine.Base.Instants.{at}
use volengine.Base.Fixed.{Fixed, fixed_float, millionths}
use volengine.Neural.Training.{TrainingSample, untrained, restarted, is_restart_due}
use volengine.Neural.Training.Restarts.{run_cycles, is_restart_due_lem}
use volengine.Neural.Stratification.{
  CellIndex, same_cell, StratificationSpec, cell_of, band_of, bisect_right, cell_key,
}
use volengine.Neural.Stratification.Bands.{band_of_lem}
use volengine.Neural.Buffer.{
  ReplayBuffer, add, prune, held_at, total_held, is_fresh, ran_backwards, make_room,
}
use volengine.Neural.Buffer.Eviction.{DropsOldest, make_room_lem, held_at-add}
use volengine.Neural.Buffer.Validity.{IsValid, add-IsValid}
use volengine.Neural.Buffer.Retention.{prune_lem}
use volengine.Neural.Buffer.Draw.{Generator, deepest, sample}
use volengine.Neural.Buffer.Draw.Rounds.{take, layers, total, pools_of, sample_lem}

abbrev spec : StratificationSpec Fixed
spec = record {
  moneyness_edges = millionths 0 ∷ millionths 500_000 ∷ millionths 1_000_000 ∷ [];
  tenor_edges = millionths 100_000 ∷ millionths 1_000_000 ∷ [];
  capacity_per_cell = 1;
  max_age_seconds = millionths 10_000_000;
}

abbrev observed : ℕ → ℕ → TrainingSample Fixed
observed k t = record {
  log_moneyness = millionths k;
  tenor_years = millionths 200_000;
  implied_vol = millionths 600_000;
  weight = millionths 1_000_000;
  ts_observed = at t;
}

abbrev start : ReplayBuffer Fixed
start = record { spec = spec; cells = []; last_prune = none }

start-IsValid : IsValid start
start-IsValid = record { distinct = tt; cells_valid = tt }

abbrev one_sample : ReplayBuffer Fixed
one_sample = add (observed 200_000 5) start

add-IsValid_example : IsValid one_sample
add-IsValid_example = add-IsValid (observed 200_000 5) start (omega arith) start-IsValid

one_sample-IsValid : IsValid one_sample
one_sample-IsValid = add-IsValid (observed 200_000 5) start (omega arith) start-IsValid

held_at-add_example :
    held_at (add (observed 300_000 6) one_sample).cells (cell_of spec (observed 300_000 6)) ≡ (
      if same_cell
        (cell_of one_sample.spec (observed 300_000 6))
        (cell_of spec (observed 300_000 6))
      then make_room one_sample.spec.capacity_per_cell
          (held_at one_sample.cells (cell_of one_sample.spec (observed 300_000 6)))
        ++ observed 300_000 6 ∷ []
      else held_at one_sample.cells (cell_of spec (observed 300_000 6)))
held_at-add_example =
    held_at-add (observed 300_000 6) one_sample (cell_of spec (observed 300_000 6))

abbrev full_cell : List (TrainingSample Fixed)
full_cell = observed 200_000 8 ∷ observed 300_000 5 ∷ []

make_room_lem_example :
    ((length full_cell < 2) × (make_room 2 full_cell ≡ full_cell))
    ⊎ ((2 ≤ length full_cell) × DropsOldest full_cell (make_room 2 full_cell))
make_room_lem_example = make_room_lem 2 full_cell (omega arith)

abbrev pruned : ReplayBuffer Fixed
pruned = (prune (at 20_000_000) one_sample).1

prune_lem_example :
    (((true ≡ false) ⊎ (ran_backwards one_sample.last_prune (at 20_000_000) ≡ true))
      × ((prune (at 20_000_000) one_sample).0 ≡ err value_error)
      × (pruned ≡ one_sample))
    ⊎ ((n : ℕ) × ((prune (at 20_000_000) one_sample).0 ≡ ok n)
        × (n + total_held pruned.cells ≡ total_held one_sample.cells)
        × ((c : CellIndex)
            → held_at pruned.cells c
              ≡ keep
                  (is_fresh one_sample.spec.max_age_seconds (at 20_000_000))
                  (held_at one_sample.cells c))
        × (pruned.last_prune ≡ some (at 20_000_000))
        × IsValid pruned)
prune_lem_example = prune_lem (at 20_000_000) one_sample one_sample-IsValid

band_of_lem_example :
    (band_of spec.moneyness_edges (millionths 600_000) + 2 ≤ 3)
    × ((band_of spec.moneyness_edges (millionths 600_000) ≡ 0)
        ⊎ (fixed_float.lt (millionths 600_000) (millionths 500_000) ≡ false))
    × ((band_of spec.moneyness_edges (millionths 600_000) + 2 ≡ 3)
        ⊎ ((fixed_float.lt (millionths 600_000) (millionths 1_000_000) ≡ true)
            ⊎ ((band_of spec.moneyness_edges (millionths 600_000) ≡ 0)
                × (fixed_float.lt (millionths 600_000) (millionths 500_000) ≡ true))))
unfolding band_of bisect_right
band_of_lem_example =
    band_of_lem spec.moneyness_edges (millionths 600_000) (millionths 500_000)
      (millionths 1_000_000) (omega arith) refl refl

-- A generator that changes no order.
abbrev upwards : ℕ → ℕ → List ℕ
upwards i zero = []
upwards i (suc n) = i ∷ upwards (suc i) n

abbrev in_order : Generator ℕ
in_order = record { permutation = λ n r. (upwards 0 n, r) }

abbrev two_cells : ReplayBuffer Fixed
two_cells = record start {
  cells =
      (record { moneyness = 0; tenor = 0 }, observed 100_000 1 ∷ observed 200_000 2 ∷ [])
      ∷ (record { moneyness = 1; tenor = 0 }, observed 700_000 3 ∷ [])
      ∷ [];
}

abbrev drawn_from : List (List (TrainingSample Fixed))
drawn_from = pools_of in_order two_cells 0

sample_lem_example :
    ((sample in_order 2 0 two_cells).0 ≡ ok (take 2 (layers (deepest drawn_from) 0 drawn_from)))
    × (length (take 2 (layers (deepest drawn_from) 0 drawn_from)) ≡ min 2 (total drawn_from))
sample_lem_example = sample_lem in_order 2 0 two_cells (omega arith) (omega arith)

is_restart_due_lem_example :
    (is_restart_due
        (run_cycles ((7, at 50) ∷ []) (restarted (at 10) (untrained {F = Fixed} {L = ℕ})))
        (at 90)
        (some (millionths 60))
      ≡ true)
    × (is_restart_due
          (run_cycles ((6, at 10) ∷ (7, at 50) ∷ []) (untrained {F = Fixed} {L = ℕ}))
          (at 90)
          (some (millionths 60))
        ≡ true)
is_restart_due_lem_example =
    is_restart_due_lem ((7, at 50) ∷ []) 6 untrained (at 90) (at 10) (millionths 60)
