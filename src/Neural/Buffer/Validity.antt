-- ===== src/Neural/Buffer/Validity.antt =====
-- The invariant of the buffer: distinct cells, none empty, none beyond its capacity, and every sample in
-- the cell of its own coordinates.
use volengine.Base.{
  suc, ◌≤◌, ◌≡◌, sym, subst, ◌∙◌, inl, inr, true, List, [], ◌∷◌, ◌++◌, arith, length, length-append,
  All, All-append, All-map, Bool-cases,
}
use volengine.Base.Floats.{Float}
use volengine.Base.Dict.{get, put, Distinct}
use volengine.Base.Dict.Laws.{put-Distinct}
use volengine.Neural.Training.{TrainingSample}
use volengine.Neural.Stratification.{
  CellIndex, same_cell, cell_sym, cell_congr, cell_key, StratificationSpec, cell_of,
}
use volengine.Neural.Buffer.{ReplayBuffer, Cells, make_room, held_at, add}
use volengine.Neural.Buffer.Eviction.{DropsOldest, make_room_lem}

cell_refl : (c : CellIndex) → same_cell c c ≡ true
cell_refl c = ground arith

module _ {F : Type 0} where
  All-middle :
      (P : TrainingSample F → Type 0) (o : TrainingSample F) (post xs : List (TrainingSample F))
      → All P (xs ++ o ∷ post)
      → All P (xs ++ post)
  All-middle P o post [] k = k.1
  All-middle P o post (x ∷ xs) k = (k.0, All-middle P o post xs k.1)

  All-dropped :
      (P : TrainingSample F → Type 0) (held left : List (TrainingSample F))
      → DropsOldest held left
      → All P held
      → All P left
  All-dropped P held left (pre, o, post, e, e', _, _) h =
      rw e' (All-middle P o post pre (subst (All P) e h))

  length-dropped :
      (held left : List (TrainingSample F))
      → DropsOldest held left
      → length held ≡ suc (length left)
  length-dropped held left (pre, o, post, e, e', _, _) =
      rw (e, e') (omega (arith, length-append pre (o ∷ post), length-append pre post))

module _ {F : Type 0} ⦃f : Float F⦄ where
  -- The sample's coordinates lie in this cell.
  abbrev pub Belongs : StratificationSpec F → CellIndex → TrainingSample F → Type 0
  Belongs spec c s = same_cell (cell_of spec s) c ≡ true

  pub record IsCell (spec : StratificationSpec F) (c : CellIndex) (held : List (TrainingSample F))
      : Type 0 where
    pub filled : 1 ≤ length held
    pub bounded : length held ≤ spec.capacity_per_cell
    pub placed : All (Belongs spec c) held

  abbrev pub AllCells : StratificationSpec F → Cells F → Type 0
  AllCells spec [] = Unit {0}
  AllCells spec ((c, held) ∷ cells) = IsCell spec c held × AllCells spec cells

  pub record IsValid (b : ReplayBuffer F) : Type 0 where
    pub distinct : Distinct b.cells
    pub cells_valid : AllCells b.spec b.cells

  -- Of a valid cell or an absent one: as `setdefault` gives it.
  record IsSlot (spec : StratificationSpec F) (c : CellIndex) (held : List (TrainingSample F))
      : Type 0 where
    bounded : length held ≤ spec.capacity_per_cell
    placed : All (Belongs spec c) held

  move_cell :
      (spec : StratificationSpec F) (c d : CellIndex) (held : List (TrainingSample F))
      → same_cell c d ≡ true
      → All (Belongs spec c) held
      → All (Belongs spec d) held
  move_cell spec c d held e = All-map (Belongs spec c) (Belongs spec d) held (λ s h.
      cell_sym (cell_of spec s) d
      ∙ sym (cell_congr c d (cell_of spec s) e)
      ∙ cell_sym c (cell_of spec s)
      ∙ h)

  held_at-IsSlot :
      (spec : StratificationSpec F) (cells : Cells F) (c : CellIndex)
      → AllCells spec cells
      → IsSlot spec c (held_at cells c)
  unfolding held_at get
  held_at-IsSlot spec [] c h = record { bounded = omega arith; placed = tt }
  held_at-IsSlot spec ((d, held) ∷ cells) c h = elim (Bool-cases (same_cell d c)) [
    | inl same ↦
        rw (same, held_at)
          (record { bounded = h.0.bounded; placed = move_cell spec d c held same h.0.placed })
    | inr other ↦ rw (other, held_at) (held_at-IsSlot spec cells c h.1)
  ]

  put-AllCells :
      (spec : StratificationSpec F) (cells : Cells F) (c : CellIndex)
      (held : List (TrainingSample F))
      → AllCells spec cells
      → IsCell spec c held
      → AllCells spec (put cells c held)
  unfolding put
  put-AllCells spec [] c held h k = (k, tt)
  put-AllCells spec ((d, old) ∷ cells) c held h k = elim (Bool-cases (same_cell d c)) [
    | inl same ↦ rw same (
      record {
        filled = k.filled;
        bounded = k.bounded;
        placed = move_cell spec c d held (cell_sym c d ∙ same) k.placed;
      },
      h.1,
    )
    | inr other ↦ rw other (h.0, put-AllCells spec cells c held h.1 k)
  ]

  joined-IsCell :
      (spec : StratificationSpec F) (held : List (TrainingSample F)) (s : TrainingSample F)
      → 1 ≤ spec.capacity_per_cell
      → IsSlot spec (cell_of spec s) held
      → IsCell spec (cell_of spec s) (make_room spec.capacity_per_cell held ++ s ∷ [])
  joined-IsCell spec held s one slot =
      let c = cell_of spec s in
      let room = make_room spec.capacity_per_cell held in
      let own : Belongs spec c s = cell_refl c in
      elim (make_room_lem spec.capacity_per_cell held one) [
        | inl (space, kept) ↦ rw kept (record {
          filled = omega (arith, length-append held (s ∷ []));
          bounded = omega (arith, length-append held (s ∷ []));
          placed = All-append (Belongs spec c) held (s ∷ []) slot.placed (own, tt);
        })
        | inr (full, dropped) ↦ record {
          filled = omega (arith, length-append room (s ∷ []));
          bounded =
              omega (
                arith,
                length-append room (s ∷ []),
                length-dropped held room dropped,
                slot.bounded,
              );
          placed =
              All-append (Belongs spec c) room (s ∷ [])
                (All-dropped (Belongs spec c) held room dropped slot.placed) (own, tt);
        }
      ]

  -- For a capacity of at least one, `add` turns a valid buffer into a valid one.
  pub add-IsValid :
      (s : TrainingSample F) (b : ReplayBuffer F)
      → 1 ≤ b.spec.capacity_per_cell
      → IsValid b
      → IsValid (add s b)
  unfolding add
  add-IsValid s b one v =
      let c = cell_of b.spec s in
      let held = held_at b.cells c in
      let new = make_room b.spec.capacity_per_cell held ++ s ∷ [] in
      record {
        distinct = put-Distinct b.cells c new v.distinct;
        cells_valid =
            put-AllCells b.spec b.cells c new v.cells_valid
              (joined-IsCell b.spec held s one (held_at-IsSlot b.spec b.cells c v.cells_valid));
      }
