-- ===== src/Neural/Buffer.antt =====
-- volengine/neural_surface/domain/replay_buffer.py: `ReplayBuffer`, its writes and its plain reads. The
-- draw is in `Buffer.Draw`.
pub mod Eviction
pub mod Validity
pub mod Retention
pub mod Draw
use volengine.Base.{
  ℕ, zero, suc, ◌+◌, ◌-◌, Bool, true, false, not, Option, none, some, List, [], ◌∷◌, ◌++◌, leb, ltb,
  length, keep, if◌then◌else◌, foldl, ◌==◌, ◌&&◌, ◌||◌,
}
use volengine.Base.Results.{Result, ok, err, value_error}
use volengine.Base.Instants.{Instant, elapsed, before}
use volengine.Base.Floats.{Float}
use volengine.Base.Dict.{Dict, get, put}
use volengine.Neural.Training.{TrainingSample}
use volengine.Neural.Stratification.{CellIndex, cell_key, StratificationSpec, n_cells, cell_of}

abbrev pub Cells : Type 0 → Type 0
Cells F = Dict CellIndex (List (TrainingSample F))

pub record ReplayBuffer (F : Type 0) : Type 0 where
  pub spec : StratificationSpec F
  pub cells : Cells F
  pub last_prune : Option Instant

-- The order of `sorted(self._cells)`: tuples compare by their first item, then by the second.
unfoldable pub cell_before : CellIndex → CellIndex → Bool
cell_before a b =
    ltb a.moneyness b.moneyness || ((a.moneyness == b.moneyness) && ltb a.tenor b.tenor)

-- `now < self._last_prune`
unfoldable pub ran_backwards : Option Instant → Instant → Bool
ran_backwards none now = false
ran_backwards (some last) now = before now last

module _ {F : Type 0} where
  -- `min(range(len(held)), key=ts_observed)`: the first of the oldest, from the best so far.
  unfoldable pub oldest_from : ℕ → Instant → ℕ → List (TrainingSample F) → ℕ
  oldest_from best ts i [] = best
  oldest_from best ts i (s ∷ held) =
      if before s.ts_observed ts
      then oldest_from i s.ts_observed (suc i) held
      else oldest_from best ts (suc i) held

  unfoldable pub oldest : List (TrainingSample F) → ℕ
  oldest [] = 0
  oldest (s ∷ held) = oldest_from 0 s.ts_observed 1 held

  -- `del held[i]`
  unfoldable pub delete_at : ℕ → List (TrainingSample F) → List (TrainingSample F)
  delete_at i [] = []
  delete_at zero (s ∷ held) = held
  delete_at (suc i) (s ∷ held) = s ∷ delete_at i held

  -- the eviction of `add`
  unfoldable pub make_room : ℕ → List (TrainingSample F) → List (TrainingSample F)
  make_room capacity held =
      if leb capacity (length held) then delete_at (oldest held) held else held

  -- `self._cells.setdefault(cell, [])`
  unfoldable pub held_at : Cells F → CellIndex → List (TrainingSample F)
  held_at cells c = elim (get cells c) [ none ↦ [] | some held ↦ held ]

  -- `__len__`, `occupancy`
  unfoldable pub total_held : Cells F → ℕ
  total_held [] = 0
  total_held ((c, held) ∷ cells) = length held + total_held cells

  unfoldable pub occupancy : Cells F → Dict CellIndex ℕ
  occupancy [] = []
  occupancy ((c, held) ∷ cells) = (c, length held) ∷ occupancy cells

  -- `snapshot`: the cells in the order of their indices.
  unfoldable pub insert_cell : CellIndex → List (TrainingSample F) → Cells F → Cells F
  insert_cell c held [] = (c, held) ∷ []
  insert_cell c held ((d, other) ∷ cells) =
      if cell_before d c
      then (d, other) ∷ insert_cell c held cells
      else (c, held) ∷ (d, other) ∷ cells

  unfoldable pub sort_cells : Cells F → Cells F
  sort_cells [] = []
  sort_cells ((c, held) ∷ cells) = insert_cell c held (sort_cells cells)

  unfoldable pub contents : Cells F → List (TrainingSample F)
  contents [] = []
  contents ((c, held) ∷ cells) = held ++ contents cells

  unfoldable pub snapshot : ReplayBuffer F → List (TrainingSample F)
  snapshot b = contents (sort_cells b.cells)

module _ {F : Type 0} ⦃f : Float F⦄ where
  unfoldable pub replay_buffer : StratificationSpec F → ReplayBuffer F
  replay_buffer spec = record { spec = spec; cells = []; last_prune = none }

  unfoldable pub add : TrainingSample F → ReplayBuffer F → ReplayBuffer F
  add sample b =
      let cell = cell_of b.spec sample in
      let held = held_at b.cells cell in
      record b { cells = put b.cells cell (make_room b.spec.capacity_per_cell held ++ sample ∷ []) }

  unfoldable pub extend : List (TrainingSample F) → ReplayBuffer F → ReplayBuffer F
  extend [] b = b
  extend (sample ∷ samples) b = extend samples (add sample b)

  unfoldable pub is_fresh : F → Instant → TrainingSample F → Bool
  is_fresh horizon now s = f.le (f.seconds (elapsed now s.ts_observed)) horizon

  -- The loop of `prune`: what is kept, without the cells that it empties, and how many went.
  unfoldable pub prune_cells : F → Instant → Cells F → Cells F × ℕ
  prune_cells horizon now [] = ([], 0)
  prune_cells horizon now ((c, held) ∷ cells) =
      let (rest, dropped) = prune_cells horizon now cells in
      let kept = keep (is_fresh horizon now) held in
      (elim kept [ [] ↦ rest | k ∷ ks ↦ (c, k ∷ ks) ∷ rest ], length held - length kept + dropped)

  unfoldable pub prune : Instant → ReplayBuffer F → Result ℕ × ReplayBuffer F
  prune now b =
      if not now.aware
      then (err value_error, b)
      else if ran_backwards b.last_prune now
      then (err value_error, b)
      else let (cells, dropped) = prune_cells b.spec.max_age_seconds now b.cells in
        (ok dropped, record b { cells = cells; last_prune = some now })

  unfoldable pub cell_coverage : ReplayBuffer F → F
  cell_coverage b = f.ratio (length b.cells) (n_cells b.spec)
