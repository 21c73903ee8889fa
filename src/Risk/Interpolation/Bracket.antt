-- ===== src/Risk/Interpolation/Bracket.antt =====
-- The bracket of a value in an axis: nodes of the axis, the value between them.
use volengine.Base.{
  ℕ, suc, ◌-◌, ◌≡◌, refl, ap, true, false, List, [], ◌∷◌, length, ◌<◌, ◌⊎◌, inl, inr, arith,
  Bool-cases,
}
use volengine.Base.Results.{Result, ok, ok-injective}
use volengine.Base.Floats.{Float, IsOrdered, not_le-lt}
use volengine.Contracts.Surface.{every}
use volengine.Risk.Interpolation.{nth, bisect_right, between_nodes, bracket}

pred_suc : (n : ℕ) → suc n - 1 ≡ n
pred_suc n = omega arith

module _ {F : Type 0} ⦃f : Float F⦄ where
  -- Two neighbouring items, the value not below the lower and below the upper.
  record Between (axis : List F) (v : F) (upper : ℕ) : Type 0 where
    at : ℕ
    below : F
    above : F
    found : upper ≡ suc at
    inside : suc at < length axis
    below_at : nth axis at ≡ ok below
    above_at : nth axis (suc at) ≡ ok above
    not_below : f.lt v below ≡ false
    under : f.lt v above ≡ true

  bisect_right-Between :
      (x : F) (xs : List F) (v final : F)
      → f.lt v x ≡ false
      → nth (x ∷ xs) (length xs) ≡ ok final
      → f.lt v final ≡ true
      → Between (x ∷ xs) v (bisect_right f.lt (x ∷ xs) v)
  unfolding bisect_right nth
  bisect_right-Between x [] v final low last high = absurd (cc (ok-injective last, low, high))
  bisect_right-Between x (y ∷ ys) v final low last high = elim (Bool-cases (f.lt v y)) [
    | inl above ↦ record {
      at = 0;
      below = x;
      above = y;
      found = rw (low, above) refl;
      inside = omega arith;
      below_at = refl;
      above_at = refl;
      not_below = low;
      under = above;
    }
    | inr still ↦
        let rest = bisect_right-Between y ys v final still last high in
        record {
          at = suc rest.at;
          below = rest.below;
          above = rest.above;
          found = rw low (ap suc rest.found);
          inside = omega (arith, rest.inside);
          below_at = rest.below_at;
          above_at = rest.above_at;
          not_below = rest.not_below;
          under = rest.under;
        }
  ]

  not_le-not_lt : IsOrdered F → (a b : F) → f.le a b ≡ false → f.lt a b ≡ false
  not_le-not_lt laws a b h = ground (arith, laws.lt_le a b)

  first_item : (x : F) (xs : List F) → nth (x ∷ xs) 0 ≡ ok x
  unfolding nth
  first_item x xs = refl

  nth_final :
      (x : F) (xs : List F)
      → every f.is_finite (x ∷ xs) ≡ true
      → (final : F) × (nth (x ∷ xs) (length xs) ≡ ok final) × (f.is_finite final ≡ true)
  unfolding nth
  nth_final x [] h = (x, refl, ground (arith, h))
  nth_final x (y ∷ ys) h = nth_final y ys (ground (arith, h))

  -- What `_bracket` gives: an end of the axis, or two neighbours.
  pub record Bracketed (axis : List F) (v : F) (r : Result (ℕ × ℕ × F)) : Type 0 where
    pub low : ℕ
    pub high : ℕ
    pub weight : F
    pub below : F
    pub above : F
    pub given : r ≡ ok (low, high, weight)
    pub inside : high < length axis
    pub below_at : nth axis low ≡ ok below
    pub above_at : nth axis high ≡ ok above
    pub placed :
        ((low ≡ high)
          × (weight ≡ f.of_ℕ 0)
          × (((low ≡ 0) × (f.le v below ≡ true))
              ⊎ ((suc low ≡ length axis) × (f.le above v ≡ true))))
        ⊎ ((high ≡ suc low)
            × (f.lt v below ≡ false)
            × (f.lt v above ≡ true)
            × (weight ≡ f.div (f.sub v below) (f.sub above below)))

  between_nodes-Bracketed :
      (axis : List F) (v : F) (upper : ℕ)
      → Between axis v upper
      → Bracketed axis v (between_nodes axis v upper)
  unfolding between_nodes
  between_nodes-Bracketed axis v upper b =
      rw (b.found, pred_suc b.at)
        (record {
          low = b.at;
          high = suc b.at;
          weight = f.div (f.sub v b.below) (f.sub b.above b.below);
          below = b.below;
          above = b.above;
          given = rw (b.below_at, b.above_at) refl;
          inside = b.inside;
          below_at = b.below_at;
          above_at = b.above_at;
          placed = inr (refl, b.not_below, b.under, refl);
        })

  -- Every node that the interpolation reads is there: on an axis of finite numbers that is not empty, a
  -- finite value has a bracket in the axis: the first node where the value is not past it, the last where
  -- the value is not short of it, both at weight zero, or else two neighbours with the value not below
  -- the lower and below the upper, weighted by the share of their distance that it stands from the lower.
  pub bracket-Bracketed :
      IsOrdered F
      → (x : F) (xs : List F) (v : F) → every f.is_finite (x ∷ xs) ≡ true
      → f.is_finite v ≡ true
      → Bracketed (x ∷ xs) v (bracket (x ∷ xs) v)
  unfolding bracket
  bracket-Bracketed laws x xs v finite known =
      let (final, last, end_finite) = nth_final x xs finite in
      rw (pred_suc (length xs), last)
        (elim (Bool-cases (f.le v x)) [
          | inl short ↦ rw short (record {
            low = 0;
            high = 0;
            weight = f.of_ℕ 0;
            below = x;
            above = x;
            given = refl;
            inside = omega arith;
            below_at = first_item x xs;
            above_at = first_item x xs;
            placed = inl (refl, refl, inl (refl, short));
          })
          | inr past ↦ elim (Bool-cases (f.le final v)) [
            | inl beyond ↦
                rw (past, beyond)
                  (record {
                    low = length xs;
                    high = length xs;
                    weight = f.of_ℕ 0;
                    below = final;
                    above = final;
                    given = refl;
                    inside = omega arith;
                    below_at = last;
                    above_at = last;
                    placed = inl (refl, refl, inr (refl, beyond));
                  })
            | inr short ↦
                let level = laws.finite_refl v known in
                let under =
                  not_le-lt laws final v (laws.finite_refl final end_finite) level short in
                rw (past, short)
                  (between_nodes-Bracketed (x ∷ xs) v _
                    (bisect_right-Between x xs v final (not_le-not_lt laws v x past) last under))
          ]
        ])
