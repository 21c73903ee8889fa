-- ===== src/Neural/Buffer/Draw/Rounds.antt =====
-- The draw is round-robin: one sample of every cell before a second one of any.
use volengine.Base.{
  ℕ, zero, suc, ◌+◌, ◌-◌, ◌≤◌, ◌<◌, ◌≡◌, refl, sym, ap, ◌∙◌, inl, inr, Bool, true, false, none,
  some, List, [], ◌∷◌, ◌++◌, arith, length, length-append, get_elem?, ◌==◌, ==_iff, Bool-cases,
  Option-cases,
}
use mathlib.Core.List.{append-nil, append_assoc}
use Prim.Native.Nat.{min}
use volengine.Base.Results.{ok}
use volengine.Neural.Training.{TrainingSample}
use volengine.Neural.Buffer.{ReplayBuffer}
use volengine.Neural.Buffer.Draw.{walk, rounds, deepest, pick, Generator, shuffled, sample}

module _ {A : Type 0} where
  abbrev pub take : ℕ → List A → List A
  take zero xs = []
  take (suc n) [] = []
  take (suc n) (x ∷ xs) = x ∷ take n xs

  take_all : (n : ℕ) (xs : List A) → length xs ≤ n → take n xs ≡ xs
  take_all zero [] h = refl
  take_all zero (x ∷ xs) h = absurd (omega arith)
  take_all (suc n) [] h = refl
  take_all (suc n) (x ∷ xs) h = ap (λ (r : List A). x ∷ r) (take_all n xs (omega arith))

  take-append_full : (xs ys : List A) → take (length xs) (xs ++ ys) ≡ xs
  take-append_full [] ys = refl
  take-append_full (x ∷ xs) ys = ap (λ (r : List A). x ∷ r) (take-append_full xs ys)

  length-take : (n : ℕ) (xs : List A) → length (take n xs) ≡ min n (length xs)
  length-take zero xs = omega arith
  length-take (suc n) [] = omega arith
  length-take (suc n) (x ∷ xs) = omega (arith, length-take n xs)

  -- The samples at one depth, pool by pool, and those from a depth on, round by round.
  unfoldable pub layer : ℕ → List (List A) → List A
  layer depth [] = []
  layer depth (pool ∷ pools) = elim (get_elem? pool depth) [
    | none ↦ layer depth pools
    | some x ↦ x ∷ layer depth pools
  ]

  unfoldable pub layers : ℕ → ℕ → List (List A) → List A
  layers zero depth pools = []
  layers (suc left) depth pools = layer depth pools ++ layers left (suc depth) pools

  -- How a round ends: with a full batch, or with all of its layer taken.
  abbrev Walked : ℕ → List A → List A → Bool × List A → Type 0
  Walked size drawn round (true, out) =
      (length out ≡ size) × ((rest : List A) × (drawn ++ round ≡ out ++ rest))
  Walked size drawn round (false, out) = (out ≡ drawn ++ round) × (length out < size)

  Walked-regroup :
      (size : ℕ) (drawn : List A) (x : A) (round : List A) (r : Bool × List A)
      → Walked size (drawn ++ x ∷ []) round r
      → Walked size drawn (x ∷ round) r
  Walked-regroup size drawn x round (true, out) (full, (rest, e)) =
      (full, (rest, sym (append_assoc drawn (x ∷ []) round) ∙ e))
  Walked-regroup size drawn x round (false, out) (e, h) = (e ∙ append_assoc drawn (x ∷ []) round, h)

  not_full_yet :
      (size : ℕ) (drawn : List A) (x : A)
      → length drawn < size
      → (length (drawn ++ x ∷ []) == size) ≡ false
      → length (drawn ++ x ∷ []) < size
  not_full_yet size drawn x h ne =
      ground (arith, length-append drawn (x ∷ []), ==_iff (length (drawn ++ x ∷ [])) size)

  walk-Walked :
      (size depth : ℕ) (pools : List (List A)) (drawn : List A)
      → length drawn < size
      → Walked size drawn (layer depth pools) (walk size depth pools drawn)
  unfolding walk layer
  walk-Walked size depth [] drawn h = (sym (append-nil drawn), h)
  walk-Walked size depth (pool ∷ pools) drawn h = elim (Option-cases (get_elem? pool depth)) [
    | inl shallow ↦ rw (shallow, walk, layer) (walk-Walked size depth pools drawn h)
    | inr (x, deep) ↦ elim (Bool-cases (length (drawn ++ x ∷ []) == size)) [
      | inl full ↦
          rw (deep, walk, layer, full)
            (
              (==_iff (length (drawn ++ x ∷ [])) size).0 full,
              (layer depth pools, sym (append_assoc drawn (x ∷ []) (layer depth pools))),
            )
      | inr not_full ↦
          rw (deep, walk, layer, not_full)
            (Walked-regroup size drawn x (layer depth pools)
              (walk size depth pools (drawn ++ x ∷ []))
              (walk-Walked size depth pools (drawn ++ x ∷ [])
                (not_full_yet size drawn x h not_full)))
    ]
  ]

  -- The rounds draw, of the layers that are left, the samples that the batch still needs.
  rounds-take :
      (size left depth : ℕ) (pools : List (List A)) (drawn : List A)
      → length drawn < size
      → rounds size left depth pools drawn ≡ take size (drawn ++ layers left depth pools)
  unfolding rounds layers
  rounds-take size zero depth pools drawn h =
      sym (ap (take size) (append-nil drawn) ∙ take_all size drawn (omega arith))
  rounds-take size (suc left) depth pools drawn h =
      finish (walk size depth pools drawn) (walk-Walked size depth pools drawn h)
        (λ out k. rounds-take size left (suc depth) pools out k)
    where
      finish :
          (r : Bool × List A)
          → Walked size drawn (layer depth pools) r
          → ((out : List A)
              → length out < size
              → rounds size left (suc depth) pools out
                ≡ take size (out ++ layers left (suc depth) pools))
          → elim r.0 [ true ↦ r.1 | false ↦ rounds size left (suc depth) pools r.1 ]
            ≡ take size (drawn ++ (layer depth pools ++ layers left (suc depth) pools))
      finish (true, out) (full, (rest, e)) ih = sym (
          ap (take size) (
            sym (append_assoc drawn (layer depth pools) (layers left (suc depth) pools))
            ∙ (ap (λ (front : List A). front ++ layers left (suc depth) pools) e
                ∙ append_assoc out rest (layers left (suc depth) pools)))
          ∙ (ap (λ n. take n (out ++ (rest ++ layers left (suc depth) pools))) (sym full)
              ∙ take-append_full out (rest ++ layers left (suc depth) pools)))
      finish (false, out) (e, k) ih =
          ih out k
          ∙ ap (take size) (
              ap (λ (front : List A). front ++ layers left (suc depth) pools) e
              ∙ append_assoc drawn (layer depth pools) (layers left (suc depth) pools))

  reach :
      (pool : List A) (depth : ℕ) (rest : List A)
      → length (elim (get_elem? pool depth) [ none ↦ rest | some x ↦ x ∷ rest ])
        ≡ min 1 (length pool - depth) + length rest
  reach [] depth rest = omega arith
  reach (x ∷ xs) zero rest = omega arith
  reach (x ∷ xs) (suc depth) rest = omega (arith, reach xs depth rest)

  length-layers :
      (left depth : ℕ) (pool : List A) (pools : List (List A))
      → length (layers left depth (pool ∷ pools))
        ≡ min left (length pool - depth) + length (layers left depth pools)
  unfolding layers layer
  length-layers zero depth pool pools = omega arith
  length-layers (suc left) depth pool pools = omega (
    arith,
    length-append (layer depth (pool ∷ pools)) (layers left (suc depth) (pool ∷ pools)),
    length-append (layer depth pools) (layers left (suc depth) pools),
    reach pool depth (layer depth pools),
    length-layers left (suc depth) pool pools,
  )

  -- The samples of all pools.
  unfoldable pub total : List (List A) → ℕ
  total [] = 0
  total (pool ∷ pools) = length pool + total pools

  layers_none : (left depth : ℕ) → layers left depth [] ≡ []
  unfolding layers layer
  layers_none zero depth = refl
  layers_none (suc left) depth = layers_none left (suc depth)

  length-layers_all :
      (left : ℕ) (pools : List (List A))
      → deepest pools ≤ left
      → length (layers left 0 pools) ≡ total pools
  unfolding total deepest
  length-layers_all left [] h = ap length (layers_none left 0)
  length-layers_all left (pool ∷ pools) h =
      omega
        (arith, length-layers left 0 pool pools, length-layers_all left pools (omega (arith, h)))

  -- A draw from pools is their samples layer by layer, cut off at the batch's size; as many rounds as
  -- the deepest pool has samples are enough for `min(size, total)` samples.
  pub rounds_lem :
      (size : ℕ) (pools : List (List A))
      → 1 ≤ size
      → (rounds size (deepest pools) 0 pools [] ≡ take size (layers (deepest pools) 0 pools))
        × (length (rounds size (deepest pools) 0 pools []) ≡ min size (total pools))
  rounds_lem size pools h = (
    drawn,
    ap length drawn
        ∙ (length-take size (layers (deepest pools) 0 pools)
            ∙ ap (min size) (length-layers_all (deepest pools) pools (omega arith))),
  )
    where
      drawn : rounds size (deepest pools) 0 pools [] ≡ take size (layers (deepest pools) 0 pools)
      drawn = rounds-take size (deepest pools) 0 pools [] h

module _ {F R : Type 0} (g : Generator R) where
  -- The pools of a draw: the cells in the order of the generator, each shuffled by it.
  abbrev pub pools_of : ReplayBuffer F → R → List (List (TrainingSample F))
  pools_of b r =
      let (positions, r') = g.permutation (length b.cells) r in
      (shuffled g (pick positions b.cells) r').0

  -- A draw of at least one sample from a buffer that holds a cell returns the samples of its shuffled
  -- pools layer by layer, one of every pool that is deep enough before any pool gives another, cut off
  -- at the batch's size; it has the size asked for, or every sample of the pools when they hold fewer.
  pub sample_lem :
      (size : ℕ) (r : R) (b : ReplayBuffer F)
      → 1 ≤ size
      → 1 ≤ length b.cells
      → let pools = pools_of b r in
        let drawn = take size (layers (deepest pools) 0 pools) in
        ((sample g size r b).0 ≡ ok drawn) × (length drawn ≡ min size (total pools))
  unfolding sample
  sample_lem size r b h k = (
    ground (arith, (rounds_lem size (pools_of b r) h).0),
    ap length (sym (rounds_lem size (pools_of b r) h).0) ∙ (rounds_lem size (pools_of b r) h).1,
  )
