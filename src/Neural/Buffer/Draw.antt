-- ===== src/Neural/Buffer/Draw.antt =====
-- volengine/neural_surface/domain/replay_buffer.py: `ReplayBuffer.sample`, the stratified draw. NumPy's
-- `Generator.permutation` is a parameter: from the generator's state it gives the positions below a
-- number in some order, and the next state.
pub mod Rounds
use volengine.Base.{
  ℕ, zero, suc, ◌+◌, ◌<◌, ◌≡◌, Bool, true, false, Option, none, some, List, [], ◌∷◌, ◌++◌, leb, ltb,
  length, get_elem?, if◌then◌else◌, ◌==◌, All,
}
use Prim.Native.Nat.{max}
use volengine.Base.Results.{Result, ok, err, value_error, empty_buffer}
use volengine.Neural.Training.{TrainingSample}
use volengine.Neural.Stratification.{CellIndex}
use volengine.Neural.Buffer.{ReplayBuffer, Cells}

pub record Generator (R : Type 0) : Type 0 where
  pub permutation : ℕ → R → List ℕ × R

-- Documented behaviour of `permutation(n)`: `n` positions, each below `n`.
pub record IsPermuting {R : Type 0} (g : Generator R) : Type 0 where
  pub size : (n : ℕ) (r : R) → length (g.permutation n r).0 ≡ n
  pub inside : (n : ℕ) (r : R) → All (λ i. i < n) (g.permutation n r).0

-- `[xs[int(position)] for position in positions]`
unfoldable pub pick : {A : Type 0} → List ℕ → List A → List A
pick [] xs = []
pick (i ∷ is) xs = elim (get_elem? xs i) [ none ↦ pick is xs | some x ↦ x ∷ pick is xs ]

-- One round: the sample at this depth of every pool that is deep enough, until the batch is full.
unfoldable pub walk : {A : Type 0} → ℕ → ℕ → List (List A) → List A → Bool × List A
walk size depth [] drawn = (false, drawn)
walk size depth (pool ∷ pools) drawn = elim (get_elem? pool depth) [
  | none ↦ walk size depth pools drawn
  | some x ↦
      let drawn' = drawn ++ x ∷ [] in
      if length drawn' == size then (true, drawn') else walk size depth pools drawn'
]

-- The loop over the depths, with the rounds that are left.
unfoldable pub rounds : {A : Type 0} → ℕ → ℕ → ℕ → List (List A) → List A → List A
rounds size zero depth pools drawn = drawn
rounds size (suc left) depth pools drawn =
    let (full, drawn') = walk size depth pools drawn in
    elim full [ true ↦ drawn' | false ↦ rounds size left (suc depth) pools drawn' ]

-- `max(len(pool) for pool in pools)`
unfoldable pub deepest : {A : Type 0} → List (List A) → ℕ
deepest [] = 0
deepest (pool ∷ pools) = max (length pool) (deepest pools)

module _ {F R : Type 0} (g : Generator R) where
  -- The pools: the cells in the shuffled order, and the samples of each one shuffled.
  unfoldable pub shuffled : Cells F → R → List (List (TrainingSample F)) × R
  shuffled [] r = ([], r)
  shuffled ((c, held) ∷ cells) r =
      let (positions, r') = g.permutation (length held) r in
      let (pools, r'') = shuffled cells r' in (pick positions held ∷ pools, r'')

  unfoldable pub sample : ℕ → R → ReplayBuffer F → Result (List (TrainingSample F)) × R
  sample size r b =
      if ltb size 1
      then (err value_error, r)
      else if length b.cells == 0
      then (err empty_buffer, r)
      else let (positions, r') = g.permutation (length b.cells) r in
        let (pools, r'') = shuffled (pick positions b.cells) r' in
        (ok (rounds size (deepest pools) 0 pools []), r'')
