-- ===== src/Neural/Buffer/Retention.antt =====
-- What `prune` keeps: in every cell the samples within the age horizon, and nothing else.
use volengine.Base.{
  ℕ, ◌+◌, ◌≤◌, ◌≡◌, refl, sym, ap, ◌∙◌, ◌⊎◌, inl, inr, Bool, true, false, some, List, [], ◌∷◌,
  arith, length, keep, All, All-keep, Bool-cases, if◌then◌else◌, length-keep-le, is_some,
}
use volengine.Base.Instants.{Instant}
use volengine.Base.Results.{ok, err, value_error}
use volengine.Base.Floats.{Float}
use volengine.Base.Dict.{get, has, Distinct}
use volengine.Base.Dict.Laws.{get-congr}
use volengine.Neural.Training.{TrainingSample}
use volengine.Neural.Stratification.{CellIndex, same_cell, cell_key, StratificationSpec}
use volengine.Neural.Buffer.{
  ReplayBuffer, Cells, held_at, is_fresh, prune_cells, prune, ran_backwards, total_held,
}
use volengine.Neural.Buffer.Validity.{AllCells, IsValid, Belongs}

total-cons :
    {F : Type 0} (c : CellIndex) (held : List (TrainingSample F)) (cells : Cells F)
    → total_held ((c, held) ∷ cells) ≡ length held + total_held cells
unfolding total_held
total-cons c held cells = refl

held_at-absent :
    {F : Type 0} (cells : Cells F) (d : CellIndex) → has cells d ≡ false → held_at cells d ≡ []
unfolding held_at has
held_at-absent cells d h = ground arith

held_at-cons :
    {F : Type 0} (c d : CellIndex) (held : List (TrainingSample F)) (cells : Cells F)
    → held_at ((c, held) ∷ cells) d ≡ (if same_cell c d then held else held_at cells d)
unfolding held_at get
held_at-cons c d held cells = ground arith

module _ {F : Type 0} ⦃f : Float F⦄ (horizon : F) (now : Instant) where
  abbrev fresh : List (TrainingSample F) → List (TrainingSample F)
  fresh = keep (is_fresh horizon now)

  -- The entry of a cell after the prune.
  abbrev entry : CellIndex → List (TrainingSample F) → Cells F → Cells F
  entry c kept rest = elim kept [ [] ↦ rest | k ∷ ks ↦ (c, k ∷ ks) ∷ rest ]

  has-entry :
      (c d : CellIndex) (kept : List (TrainingSample F)) (rest : Cells F)
      → has rest d ≡ false
      → same_cell c d ≡ false
      → has (entry c kept rest) d ≡ false
  unfolding has get
  has-entry c d [] rest h ne = h
  has-entry c d (k ∷ ks) rest h ne = rw ne h

  has-prune_cells :
      (cells : Cells F) (d : CellIndex)
      → has cells d ≡ false
      → has (prune_cells horizon now cells).0 d ≡ false
  unfolding prune_cells
  has-prune_cells [] d h = h
  has-prune_cells ((c, held) ∷ cells) d h = elim (Bool-cases (same_cell c d)) [
    | inl same ↦ absurd (unfold has get in (ground arith))
    | inr other ↦
        has-entry c d (fresh held) (prune_cells horizon now cells).0
          (has-prune_cells cells d (unfold has get in (ground arith))) other
  ]

  entry-Distinct :
      (c : CellIndex) (kept : List (TrainingSample F)) (rest : Cells F)
      → has rest c ≡ false
      → Distinct rest
      → Distinct (entry c kept rest)
  entry-Distinct c [] rest h d = d
  entry-Distinct c (k ∷ ks) rest h d = (h, d)

  prune_cells-Distinct :
      (cells : Cells F) → Distinct cells → Distinct (prune_cells horizon now cells).0
  unfolding prune_cells
  prune_cells-Distinct [] h = tt
  prune_cells-Distinct ((c, held) ∷ cells) h =
      entry-Distinct c (fresh held) (prune_cells horizon now cells).0 (has-prune_cells cells c h.0)
        (prune_cells-Distinct cells h.1)

  entry-AllCells :
      (spec : StratificationSpec F) (c : CellIndex) (kept : List (TrainingSample F))
      (rest : Cells F)
      → length kept ≤ spec.capacity_per_cell
      → All (Belongs spec c) kept
      → AllCells spec rest
      → AllCells spec (entry c kept rest)
  entry-AllCells spec c [] rest b p h = h
  entry-AllCells spec c (k ∷ ks) rest b p h =
      (record { filled = omega arith; bounded = b; placed = p }, h)

  prune_cells-AllCells :
      (spec : StratificationSpec F) (cells : Cells F)
      → AllCells spec cells
      → AllCells spec (prune_cells horizon now cells).0
  unfolding prune_cells
  prune_cells-AllCells spec [] h = tt
  prune_cells-AllCells spec ((c, held) ∷ cells) h =
      entry-AllCells spec c (fresh held) (prune_cells horizon now cells).0
        (omega (arith, length-keep-le (is_fresh horizon now) held, h.0.bounded))
        (All-keep (Belongs spec c) (is_fresh horizon now) held h.0.placed)
        (prune_cells-AllCells spec cells h.1)

  total-entry :
      (c : CellIndex) (kept : List (TrainingSample F)) (rest : Cells F)
      → total_held (entry c kept rest) ≡ length kept + total_held rest
  unfolding total_held
  total-entry c [] rest = omega arith
  total-entry c (k ∷ ks) rest = refl

  total-prune_cells :
      (cells : Cells F)
      → (prune_cells horizon now cells).1 + total_held (prune_cells horizon now cells).0
        ≡ total_held cells
  unfolding prune_cells
  total-prune_cells [] = unfold total_held in refl
  total-prune_cells ((c, held) ∷ cells) =
      let rest = prune_cells horizon now cells in
      omega (
        arith,
        total-entry c (fresh held) rest.0,
        total-cons c held cells,
        total-prune_cells cells,
        length-keep-le (is_fresh horizon now) held,
      )

  held_at-entry :
      (c d : CellIndex) (kept : List (TrainingSample F)) (rest : Cells F)
      → has rest c ≡ false
      → held_at (entry c kept rest) d ≡ (if same_cell c d then kept else held_at rest d)
  unfolding has
  held_at-entry c d [] rest gone = elim (Bool-cases (same_cell c d)) [
    | inl same ↦ rw same (held_at-absent rest d (ap is_some (sym (get-congr rest c d same)) ∙ gone))
    | inr other ↦ rw other
  ]
  held_at-entry c d (k ∷ ks) rest gone = unfold held_at get in (ground arith)

  held_at-prune_cells :
      (cells : Cells F) (d : CellIndex)
      → Distinct cells
      → held_at (prune_cells horizon now cells).0 d ≡ fresh (held_at cells d)
  unfolding prune_cells
  held_at-prune_cells [] d h = unfold held_at get in refl
  held_at-prune_cells ((c, held) ∷ cells) d h =
      held_at-entry c d (fresh held) (prune_cells horizon now cells).0 (has-prune_cells cells c h.0)
      ∙ split (same_cell c d) refl (held_at-prune_cells cells d h.1)
    where
      split :
          (same : Bool)
          → same_cell c d ≡ same
          → held_at (prune_cells horizon now cells).0 d ≡ fresh (held_at cells d)
          → (if same_cell c d then fresh held else held_at (prune_cells horizon now cells).0 d)
            ≡ fresh (held_at ((c, held) ∷ cells) d)
      split true e ih = rw (e, held_at-cons c d held cells, e)
      split false e ih = rw (e, held_at-cons c d held cells, e) ih

module _ {F : Type 0} ⦃f : Float F⦄ where
  prune-naive :
      (now : Instant) (b : ReplayBuffer F) → now.aware ≡ false → prune now b ≡ (err value_error, b)
  unfolding prune
  prune-naive now b naive = ground arith

  prune-backwards :
      (now : Instant) (b : ReplayBuffer F)
      → ran_backwards b.last_prune now ≡ true
      → prune now b ≡ (err value_error, b)
  unfolding prune
  prune-backwards now b back = ground arith

  prune-kept :
      (now : Instant) (b : ReplayBuffer F)
      → now.aware ≡ true
      → ran_backwards b.last_prune now ≡ false
      → let pruned = prune_cells b.spec.max_age_seconds now b.cells in
        prune now b ≡ (ok pruned.1, record b { cells = pruned.0; last_prune = some now })
  unfolding prune
  prune-kept now b aware on = ground arith

  -- A prune of a valid buffer either is refused, for a naive instant or for one before the last prune, and then leaves the
  -- buffer as it was; or it keeps in every cell exactly the samples within the age horizon, in their
  -- order, returns how many it dropped, remembers the instant, and leaves a valid buffer.
  pub prune_lem :
      (now : Instant) (b : ReplayBuffer F)
      → IsValid b
      → let after = (prune now b).1 in
        (((now.aware ≡ false) ⊎ (ran_backwards b.last_prune now ≡ true))
          × ((prune now b).0 ≡ err value_error)
          × (after ≡ b))
        ⊎ ((n : ℕ) × ((prune now b).0 ≡ ok n)
            × (n + total_held after.cells ≡ total_held b.cells)
            × ((c : CellIndex)
                → held_at after.cells c
                  ≡ keep (is_fresh b.spec.max_age_seconds now) (held_at b.cells c))
            × (after.last_prune ≡ some now)
            × IsValid after)
  prune_lem now b v = elim (Bool-cases now.aware) [
    | inr naive ↦ rw (prune-naive now b naive) (inl (inl naive, refl, refl))
    | inl aware ↦ elim (Bool-cases (ran_backwards b.last_prune now)) [
      | inl back ↦ rw (prune-backwards now b back) (inl (inr back, refl, refl))
      | inr on ↦
          let horizon = b.spec.max_age_seconds in
          rw (prune-kept now b aware on) (
            inr (
              (prune_cells horizon now b.cells).1,
              refl,
              total-prune_cells horizon now b.cells,
              λ c. held_at-prune_cells horizon now b.cells c v.distinct,
              refl,
              record {
                distinct = prune_cells-Distinct horizon now b.cells v.distinct;
                cells_valid = prune_cells-AllCells horizon now b.spec b.cells v.cells_valid;
              },
            ))
    ]
  ]
