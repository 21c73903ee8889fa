-- ===== src/Neural/Buffer/Eviction.antt =====
-- What `add` removes: from the sample's own cell, the first of the oldest observations.
use volengine.Base.{
  ℕ, suc, ◌≤◌, ◌<◌, ◌≡◌, refl, sym, ap, ◌∙◌, ◌⊎◌, inl, inr, true, false, List, [], ◌∷◌, ◌++◌, arith,
  leb, length, length-append, All, All-append, All-map, Bool-cases, if◌then◌else◌,
}
use mathlib.Core.List.{append-nil, append_assoc}
use volengine.Base.Instants.{before}
use volengine.Base.Floats.{Float}
use volengine.Base.Dict.Laws.{get-put}
use volengine.Neural.Training.{TrainingSample}
use volengine.Neural.Stratification.{CellIndex, same_cell, cell_key, cell_of}
use volengine.Neural.Buffer.{ReplayBuffer, oldest_from, oldest, delete_at, make_room, held_at, add}

module _ {F : Type 0} where
  abbrev pub StrictlyNewer : TrainingSample F → TrainingSample F → Type 0
  StrictlyNewer o s = before o.ts_observed s.ts_observed ≡ true

  abbrev pub NotOlder : TrainingSample F → TrainingSample F → Type 0
  NotOlder o s = before s.ts_observed o.ts_observed ≡ false

  -- One item is gone: the first of the oldest.
  abbrev pub DropsOldest : List (TrainingSample F) → List (TrainingSample F) → Type 0
  DropsOldest held left =
      (pre : List (TrainingSample F)) × (o : TrainingSample F) × (post : List (TrainingSample F))
      × (held ≡ pre ++ o ∷ post)
      × (left ≡ pre ++ post)
      × All (StrictlyNewer o) pre
      × All (NotOlder o) post

  delete_at-middle :
      (pre : List (TrainingSample F)) (o : TrainingSample F) (post : List (TrainingSample F))
      → delete_at (length pre) (pre ++ o ∷ post) ≡ pre ++ post
  unfolding delete_at
  delete_at-middle [] o post = refl
  delete_at-middle (p ∷ pre) o post =
      ap (λ (r : List (TrainingSample F)). p ∷ r) (delete_at-middle pre o post)

  -- Where the scan ends, from the best so far.
  oldest_from_lem :
      (pre : List (TrainingSample F)) (o : TrainingSample F) (post held : List (TrainingSample F))
      (i : ℕ)
      → All (StrictlyNewer o) pre
      → All (NotOlder o) post
      → length (pre ++ o ∷ post) ≡ i
      → (a : List (TrainingSample F)) × (best : TrainingSample F) × (b : List (TrainingSample F))
        × (pre ++ o ∷ post ++ held ≡ a ++ best ∷ b)
        × (oldest_from (length pre) o.ts_observed i held ≡ length a)
        × All (StrictlyNewer best) a
        × All (NotOlder best) b
  unfolding oldest_from
  oldest_from_lem pre o post [] i newer behind size =
      (pre, o, post, append-nil (pre ++ o ∷ post), refl, newer, behind)
  oldest_from_lem pre o post (s ∷ held) i newer behind size =
      elim (Bool-cases (before s.ts_observed o.ts_observed)) [
        | inl older ↦
            let seen = pre ++ o ∷ post in
            let past : All (StrictlyNewer s) seen =
              All-append (StrictlyNewer s) pre (o ∷ post)
                (All-map (StrictlyNewer o) (StrictlyNewer s) pre (λ w h. ground arith) newer)
                (older, All-map (NotOlder o) (StrictlyNewer s) post (λ w h. ground arith) behind) in
            let grown : length (seen ++ s ∷ []) ≡ suc i =
              omega (arith, length-append seen (s ∷ []), size) in
            let (a, best, b, e, found, n, h) =
              oldest_from_lem seen s [] held (suc i) past tt grown in
            rw older (
              a,
              best,
              b,
              sym (append_assoc seen (s ∷ []) held) ∙ e,
              ap (λ (k : ℕ). oldest_from k s.ts_observed (suc i) held) (sym size) ∙ found,
              n,
              h,
            )
        | inr other ↦
            let more : All (NotOlder o) (post ++ s ∷ []) =
              All-append (NotOlder o) post (s ∷ []) behind (other, tt) in
            let regroup : pre ++ o ∷ post ++ s ∷ held ≡ pre ++ o ∷ (post ++ s ∷ []) ++ held =
              simp append_assoc in
            let joined : pre ++ o ∷ (post ++ s ∷ []) ≡ pre ++ o ∷ post ++ s ∷ [] =
              simp append_assoc in
            let grown : length (pre ++ o ∷ (post ++ s ∷ [])) ≡ suc i =
              rw joined (omega (arith, length-append (pre ++ o ∷ post) (s ∷ []), size)) in
            let (a, best, b, e, found, n, h) =
              oldest_from_lem pre o (post ++ s ∷ []) held (suc i) newer more grown in
            rw other (a, best, b, regroup ∙ e, found, n, h)
      ]

  pub oldest_lem :
      (s : TrainingSample F) (held : List (TrainingSample F))
      → DropsOldest (s ∷ held) (delete_at (oldest (s ∷ held)) (s ∷ held))
  unfolding oldest
  oldest_lem s held =
      let (a, best, b, e, found, newer, behind) = oldest_from_lem [] s [] held 1 tt tt refl in
      (a, best, b, e, rw (found, e) (delete_at-middle a best b), newer, behind)

  -- For a capacity of at least one, a cell below it is left as it is, and a full one gives up one
  -- sample: the first of its oldest.
  pub make_room_lem :
      (capacity : ℕ) (held : List (TrainingSample F))
      → 1 ≤ capacity
      → ((length held < capacity) × (make_room capacity held ≡ held))
        ⊎ ((capacity ≤ length held) × DropsOldest held (make_room capacity held))
  unfolding make_room
  make_room_lem capacity [] one = inl (one, ground arith)
  make_room_lem capacity (s ∷ held) one = elim (Bool-cases (leb capacity (length (s ∷ held)))) [
    | inl full ↦ inr (ground arith, rw full (oldest_lem s held))
    | inr space ↦ inl (ground arith, rw space)
  ]

module _ {F : Type 0} ⦃f : Float F⦄ where
  -- After `add` the sample stands last in its own cell, behind what `make_room` leaves of that cell;
  -- every other cell holds what it held.
  pub held_at-add :
      (sample : TrainingSample F) (b : ReplayBuffer F) (c : CellIndex)
      → let cell = cell_of b.spec sample in
        held_at (add sample b).cells c ≡ (
          if same_cell cell c
          then make_room b.spec.capacity_per_cell (held_at b.cells cell) ++ sample ∷ []
          else held_at b.cells c)
  unfolding held_at add
  held_at-add sample b c =
      let cell = cell_of b.spec sample in
      ground (
        arith,
        get-put b.cells cell
            (make_room b.spec.capacity_per_cell (held_at b.cells cell) ++ sample ∷ []) c,
      )
