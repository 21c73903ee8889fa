-- ===== src/Risk/SurfaceView/Translation.antt =====
-- What the constructor of `SurfaceView` asks beyond the published contract.
use volengine.Base.{
  ℕ, suc, ◌≡◌, refl, ap, Bool, true, false, not, ◌&&◌, List, [], ◌∷◌, arith, length, ◌==◌, map,
}
use volengine.Base.Results.{ok}
use volengine.Base.Instants.{before}
use volengine.Base.Floats.{Float, IsOrdered, lt-not_le}
use volengine.Contracts.Surface.{
  CalibratedSurface, VolGrid, every, increasing, increasing_from, require_all_aware,
  positive_finite, smile_fits, vol_grid, calibrated_surface,
}
use volengine.Risk.SurfaceView.{
  surface_view, variance_rows, view_fields, to_surface_view, starts_after, ascends, earlier,
}

-- An axis in strict order by one test is so by another that the first implies.
increasing_from-weaken :
    {A : Type 0} (r s : A → A → Bool)
    → ((a b : A) → r a b ≡ true → s a b ≡ true)
    → (a : A) (xs : List A) → increasing_from r a xs ≡ true
    → increasing_from s a xs ≡ true
increasing_from-weaken r s w a [] h = refl
increasing_from-weaken r s w a (b ∷ xs) h = ground (arith, w a b, increasing_from-weaken r s w b xs)

increasing-weaken :
    {A : Type 0} (r s : A → A → Bool)
    → ((a b : A) → r a b ≡ true → s a b ≡ true)
    → (xs : List A) → increasing r xs ≡ true
    → increasing s xs ≡ true
increasing-weaken r s w [] h = refl
increasing-weaken r s w (a ∷ xs) h = increasing_from-weaken r s w a xs h

module _ {F : Type 0} ⦃f : Float F⦄ where
  length-variance_rows :
      (tenors : List F) (vols : List (List F))
      → (length tenors == length vols) ≡ true
      → length (variance_rows tenors vols) ≡ length tenors
  unfolding variance_rows
  length-variance_rows [] vols h = refl
  length-variance_rows (t ∷ tenors) [] h = ground arith
  length-variance_rows (t ∷ tenors) (s ∷ vols) h =
      ap suc (length-variance_rows tenors vols (ground arith))

  -- Every entry of the converted grid is a positive number.
  abbrev pub VariancesUsable : List F → List (List F) → Type 0
  VariancesUsable tenors vols = every (every positive_finite) (variance_rows tenors vols) ≡ true

  length-map' : (g : F → F) (xs : List F) → length (map g xs) ≡ length xs
  length-map' g [] = refl
  length-map' g (x ∷ xs) = ap suc (length-map' g xs)

  rows_fit :
      (n : ℕ) (tenors : List F) (vols : List (List F))
      → every (smile_fits n) vols ≡ true
      → VariancesUsable tenors vols
      → every
          (λ (row : List F). (length row == n) && every positive_finite row)
          (variance_rows tenors vols)
        ≡ true
  unfolding variance_rows smile_fits
  rows_fit n [] vols h u = refl
  rows_fit n (t ∷ tenors) [] h u = refl
  rows_fit n (t ∷ tenors) (s ∷ vols) h u =
      ground (arith, length-map' (λ (vol : F). f.mul (f.mul vol vol) t) s, rows_fit n tenors vols)

  -- What a grid that its constructor accepted satisfies.
  record GridFacts (g : VolGrid F) : Type 0 where
    some_tenor : (length g.tenors == 0) ≡ false
    some_node : (length g.log_moneyness == 0) ≡ false
    nodes_finite : every f.is_finite g.log_moneyness ≡ true
    nodes_rise : increasing f.lt g.log_moneyness ≡ true
    tenors_rise : increasing f.lt g.tenors ≡ true
    expiry_each : length g.expiries ≡ length g.tenors
    forward_each : length g.forwards ≡ length g.tenors
    expiries_aware : require_all_aware g.expiries ≡ ok tt
    expiries_rise : increasing before g.expiries ≡ true
    forwards_usable : every positive_finite g.forwards ≡ true
    smile_each : (length g.tenors == length g.vols) ≡ true
    smiles_fit : every (smile_fits (length g.log_moneyness)) g.vols ≡ true

  vol_grid-GridFacts : (g : VolGrid F) → vol_grid g ≡ ok g → GridFacts g
  unfolding vol_grid
  vol_grid-GridFacts g h = ground arith

  module _ (laws : IsOrdered F) where
    -- A surface that the contract accepts is a `SurfaceView`, the one with total variances in place of
    -- volatilities, as soon as its tenors are positive, its first expiry lies after the snapshot
    -- instant and no converted variance has overflowed or vanished.
    pub to_surface_view_total :
        (s : CalibratedSurface F)
        → vol_grid s.grid ≡ ok s.grid
        → calibrated_surface s ≡ ok s
        → every positive_finite s.grid.tenors ≡ true
        → starts_after s.ts_snapshot s.grid.expiries ≡ true
        → VariancesUsable s.grid.tenors s.grid.vols
        → to_surface_view s ≡ ok (view_fields s)
    unfolding to_surface_view surface_view view_fields calibrated_surface
    to_surface_view_total s g c tenors start usable =
        let facts = vol_grid-GridFacts s.grid g in
        let nodes =
          increasing-weaken f.lt ascends (λ a b h. ap not (lt-not_le laws a b h))
            s.grid.log_moneyness facts.nodes_rise in
        let rising =
          increasing-weaken f.lt ascends (λ a b h. ap not (lt-not_le laws a b h)) s.grid.tenors
            facts.tenors_rise in
        let dated =
          increasing-weaken before earlier (λ a b h. ground arith) s.grid.expiries
            facts.expiries_rise in
        let rows =
          rows_fit (length s.grid.log_moneyness) s.grid.tenors s.grid.vols facts.smiles_fit
            usable in
        ground (
          arith,
          facts,
          nodes,
          rising,
          dated,
          rows,
          length-variance_rows s.grid.tenors s.grid.vols facts.smile_each,
        )
