-- ===== src/Neural/Stratification/Bands.antt =====
-- The band that `_band_of` assigns: the one whose edges enclose the value, the outermost beyond the grid.
use volengine.Base.{
  ℕ, zero, suc, ◌+◌, ◌-◌, ◌≤◌, ◌<◌, ◌≡◌, ◌⊎◌, inl, inr, refl, sym, ap, ◌∙◌, Bool, true, false, some,
  List, [], ◌∷◌, arith, length, get_elem?, if◌then◌else◌, Bool-cases,
}
use Prim.Native.Nat.{max, min}
use volengine.Base.Floats.{Float}
use volengine.Neural.Stratification.{bisect_right, band_of}

band_place :
    (n b : ℕ)
    → 2 ≤ n
    → let i = max 0 (min (n - 2) (b - 1)) in
      (i + 2 ≤ n) × ((i ≡ 0) ⊎ (i < b)) × ((i + 2 ≡ n) ⊎ ((i + 1 ≡ b) ⊎ ((i ≡ 0) × (b ≡ 0))))
band_place n b h = (omega arith, ground arith, ground arith)

module _ {F : Type 0} ⦃f : Float F⦄ where
  first_counted :
      (x : F) (edges : List F) (value : F)
      → f.lt value x ≡ true
      → 0 < bisect_right (x ∷ edges) value
      → ⊥
  unfolding bisect_right
  first_counted x edges value above h = ground arith

  rest_counted :
      (x : F) (edges : List F) (value : F) (i : ℕ)
      → suc i < bisect_right (x ∷ edges) value
      → i < bisect_right edges value
  unfolding bisect_right
  rest_counted x edges value i h = ground arith

  -- Every edge counted stands at or below the value, and the next one above it.
  counted :
      (edges : List F) (value e : F) (i : ℕ)
      → i < bisect_right edges value
      → get_elem? edges i ≡ some e
      → f.lt value e ≡ false
  unfolding bisect_right
  counted [] value e i h at_i = absurd (omega arith)
  counted (x ∷ edges) value e zero h at_i = elim (Bool-cases (f.lt value x)) [
    | inl above ↦ absurd (first_counted x edges value above h)
    | inr below ↦ cc (at_i, below)
  ]
  counted (x ∷ edges) value e (suc i) h at_i =
      counted edges value e i (rest_counted x edges value i h) at_i

  uncounted :
      (edges : List F) (value e : F)
      → get_elem? edges (bisect_right edges value) ≡ some e
      → f.lt value e ≡ true
  unfolding bisect_right
  uncounted [] value e at_i = absurd (cc at_i)
  uncounted (x ∷ edges) value e at_i =
      go (f.lt value x) refl at_i (λ at_t. uncounted edges value e at_t)
    where
      go :
          (t : Bool)
          → f.lt value x ≡ t
          → get_elem? (x ∷ edges) (if t then 0 else suc (bisect_right edges value)) ≡ some e
          → (get_elem? edges (bisect_right edges value) ≡ some e → f.lt value e ≡ true)
          → f.lt value e ≡ true
      go true above at_t ih = cc (above, at_t)
      go false below at_t ih = ih at_t

  bisect_right_bound : (edges : List F) (value : F) → bisect_right edges value ≤ length edges
  unfolding bisect_right
  bisect_right_bound [] value = omega arith
  bisect_right_bound (x ∷ edges) value = ground (arith, bisect_right_bound edges value)

  pub band_of_lem :
      (edges : List F) (value lower upper : F)
      → 2 ≤ length edges
      → get_elem? edges (band_of edges value) ≡ some lower
      → get_elem? edges (band_of edges value + 1) ≡ some upper
      → (band_of edges value + 2 ≤ length edges)
        × ((band_of edges value ≡ 0) ⊎ (f.lt value lower ≡ false))
        × ((band_of edges value + 2 ≡ length edges)
            ⊎ ((f.lt value upper ≡ true) ⊎ ((band_of edges value ≡ 0) × (f.lt value lower ≡ true))))
  unfolding band_of
  band_of_lem edges value lower upper h at_lower at_upper =
      let (inside, from, to) = band_place (length edges) (bisect_right edges value) h in
      (
        inside,
        elim from [
          | inl first ↦ inl first
          | inr in_front ↦ inr (counted edges value lower (band_of edges value) in_front at_lower)
        ],
        elim to [
          | inl last ↦ inl last
          | inr (inl next) ↦
              inr (inl (uncounted edges value upper (ap (get_elem? edges) (sym next) ∙ at_upper)))
          | inr (inr (first, below)) ↦ inr (
              inr (
                first,
                uncounted edges value lower (ap (get_elem? edges) (below ∙ sym first) ∙ at_lower),
              ))
        ],
      )
