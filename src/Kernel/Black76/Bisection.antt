-- ===== src/Kernel/Black76/Bisection.antt =====
-- The loop of the Black-76 solver follows the search, with its bracket astride the target.
use volengine.Base.{ℕ, zero, suc, ◌+◌, ◌<◌, ◌≡◌, refl, true, false, inl, inr, arith, Bool-cases}
use volengine.Base.Results.{Result, ok}
use volengine.Base.Floats.{Float, IsOrdered, le_lt_trans}
use volengine.Kernel.Elementary.{Elementary}
use volengine.Kernel.Black76.{midpoint, candidate_of, stepped, narrowed, rounds}
use volengine.Kernel.Black76.Search.{
  IsBisecting, tol, Moved, short, enough, Next, newton, halved, Search, step, Ends, narrow, close,
  spent, Straddles, Found,
}

module _ {F : Type 0} ⦃f : Float F⦄ (e : Elementary F) where
  -- A point of the bracket where the code may price.
  pub record IsInside (lo hi vol : F) : Type 0 where
    pub positive : f.lt (f.of_ℕ 0) vol ≡ true
    pub not_below : f.le lo vol ≡ true
    pub not_above : f.le vol hi ≡ true

  -- A next point, inside the bracket.
  record Chosen (lo hi p residual slope q : F) : Type 0 where
    inside : IsInside lo hi q
    next : Next e lo hi p residual slope q

  module _ (laws : IsOrdered F) (bisecting : IsBisecting e) (price_of vega_of : F → Result F)
      (target top guess : F) (bounded : f.is_finite (f.add top top) ≡ true)
      (priced : (vol : F)
        → f.lt (f.of_ℕ 0) vol ≡ true
        → f.is_finite vol ≡ true
        → ((w : F) × (price_of vol ≡ ok w)) × ((s : F) × (vega_of vol ≡ ok s))) where
    open laws use {lt_le, le_left, le_right, le_trans}

    abbrev pub Spans : F → F → Type 0
    Spans lo hi = Straddles e price_of target top lo hi

    finite_inside :
        {lo hi vol : F}
        → Spans lo hi
        → IsInside lo hi vol
        → (f.is_finite vol ≡ true) × (f.is_finite (f.add hi hi) ≡ true)
    finite_inside {lo} {hi} {vol} s i =
        let zero_le = lt_le (f.of_ℕ 0) vol i.positive in
        (
          (bisecting.doubles vol top zero_le (le_trans vol hi top i.not_above s.capped) bounded).0,
          (bisecting.doubles hi top (le_trans (f.of_ℕ 0) lo hi s.from_zero s.ordered) s.capped
              bounded).1,
        )

    abbrev Finds : Result F → Type 0
    Finds r = Found e price_of vega_of target top guess r

    abbrev Searches : ℕ → F → F → F → Type 0
    Searches n lo hi p = Search e price_of vega_of target top guess n lo hi p

    midpoint-Found :
        (lo hi : F)
        → Spans lo hi
        → f.is_finite (f.add hi hi) ≡ true
        → Ends e price_of vega_of target top guess lo hi (f.mul (f.ratio 1 2) (f.add lo hi))
        → Finds (ok (midpoint e lo hi))
    unfolding midpoint
    midpoint-Found lo hi s finite ends =
        let (above, below) = bisecting.mid_bounds lo hi s.from_zero s.ordered finite in
        record {
          vol = f.mul (f.ratio 1 2) (f.add lo hi);
          answered = refl;
          lo = lo;
          hi = hi;
          reached = ends;
          straddling = s;
          not_below = above;
          not_above = below;
        }

    candidate-Chosen :
        (lo hi p residual slope : F)
        → Spans lo hi
        → f.is_finite (f.add hi hi) ≡ true
        → f.lt (f.sub hi lo) (tol e) ≡ false
        → Chosen lo hi p residual slope (candidate_of e lo hi p residual slope)
    unfolding candidate_of midpoint
    candidate-Chosen lo hi p residual slope s finite wide =
        let (above, below) = bisecting.mid_bounds lo hi s.from_zero s.ordered finite in
        let positive = bisecting.mid_positive lo hi s.from_zero s.ordered finite wide in
        let middle : IsInside lo hi (f.mul (f.ratio 1 2) (f.add lo hi)) = record {
          positive = positive;
          not_below = above;
          not_above = below;
        } in
        let step = f.sub p (f.div residual slope) in
        elim (Bool-cases (f.lt (f.ratio 1 1_000_000_000_000) slope)) [
          | inr flat ↦ elim (Bool-cases (f.lt lo e.infinity)) [
            | inl up ↦
                rw (flat, up, bisecting.beyond hi)
                  (record { inside = middle; next = halved (inl flat) })
            | inr up ↦ rw (flat, up) (record { inside = middle; next = halved (inl flat) })
          ]
          | inl steep ↦ elim (Bool-cases (f.lt lo step)) [
            | inr outside ↦
                rw (steep, outside) (record { inside = middle; next = halved (inr (inl outside)) })
            | inl after ↦ elim (Bool-cases (f.lt step hi)) [
              | inr outside ↦
                  rw (steep, after, outside)
                    (record { inside = middle; next = halved (inr (inr outside)) })
              | inl before ↦
                  rw (steep, after, before)
                    (record {
                      inside = record {
                        positive = le_lt_trans laws (f.of_ℕ 0) lo step s.from_zero after;
                        not_below = lt_le lo step after;
                        not_above = lt_le step hi before;
                      };
                      next = newton steep after before;
                    })
            ]
          ]
        ]

    -- What the rest of the loop does from any next point of the bracket.
    abbrev Solves : ℕ → F → F → (F → Result F) → Type 0
    Solves n lo hi go = (q : F) → IsInside lo hi q → Searches n lo hi q → Finds (go q)

    stepped-Found :
        {n : ℕ} {a b : F} (lo hi p residual slope : F) (go : F → Result F)
        → n < 100
        → Searches n a b p
        → Moved e price_of target a b p lo hi residual
        → vega_of p ≡ ok slope
        → Spans lo hi
        → f.is_finite (f.add hi hi) ≡ true
        → f.lt (f.sub hi lo) (tol e) ≡ false
        → Solves (suc n) lo hi go
        → Finds (stepped e price_of vega_of target lo hi p residual slope go)
    unfolding stepped
    stepped-Found lo hi p residual slope go early so_far moved sloped s finite wide solves =
        let q = candidate_of e lo hi p residual slope in
        let chosen = candidate-Chosen lo hi p residual slope s finite wide in
        elim (Bool-cases (f.lt (f.abs (f.sub q p)) (tol e))) [
          | inr far ↦
              rw far (solves q chosen.inside (step so_far moved wide sloped chosen.next far))
          | inl near ↦ rw near (record {
            vol = q;
            answered = refl;
            lo = lo;
            hi = hi;
            reached = close early so_far moved wide sloped chosen.next near;
            straddling = s;
            not_below = chosen.inside.not_below;
            not_above = chosen.inside.not_above;
          })
        ]

    narrowed-Found :
        {n : ℕ} {a b : F} (lo hi p residual : F) (go : F → Result F)
        → n < 100
        → Searches n a b p
        → Moved e price_of target a b p lo hi residual
        → Spans lo hi
        → IsInside lo hi p
        → Solves (suc n) lo hi go
        → Finds (narrowed e price_of vega_of target lo hi p residual go)
    unfolding narrowed
    narrowed-Found lo hi p residual go early so_far moved s inside solves =
        let (p_finite, finite) = finite_inside s inside in
        let (slope, sloped) = (priced p inside.positive p_finite).1 in
        elim (Bool-cases (f.lt (f.sub hi lo) (tol e))) [
          | inl thin ↦ rw thin (midpoint-Found lo hi s finite (narrow early so_far moved thin))
          | inr wide ↦
              rw (wide, sloped)
                (stepped-Found lo hi p residual slope go early so_far moved sloped s finite wide
                  solves)
        ]

    -- A round keeps the bracket astride the target, and is a round of the search.
    pub rounds-Found :
        (left n : ℕ) (lo hi p : F)
        → n + left ≡ 100
        → Searches n lo hi p
        → Spans lo hi
        → IsInside lo hi p
        → Finds (rounds e price_of vega_of target left lo hi p)
    unfolding rounds
    rounds-Found zero n lo hi p count so_far s inside =
        midpoint-Found lo hi s (finite_inside s inside).1 (spent (omega arith) so_far)
    rounds-Found (suc left) n lo hi p count so_far s inside =
        let (w, worth) = (priced p inside.positive (finite_inside s inside).0).0 in
        let level = le_left p hi inside.not_above in
        let early : n < 100 = omega arith in
        let later : suc n + left ≡ 100 = omega arith in
        elim (Bool-cases (f.lt (f.sub w target) (f.of_ℕ 0))) [
          | inl low ↦
              let s' : Spans p hi = record {
                from_zero = lt_le (f.of_ℕ 0) p inside.positive;
                ordered = inside.not_above;
                capped = s.capped;
                below = inr (w, worth, low);
                above = s.above;
              } in
              rw (worth, low)
                (narrowed-Found p hi p (f.sub w target) (rounds e price_of vega_of target left p hi)
                  early so_far (short worth low) s'
                  (record {
                    positive = inside.positive;
                    not_below = level;
                    not_above = inside.not_above;
                  })
                  (λ q i next. rounds-Found left (suc n) p hi q later next s' i))
          | inr high ↦
              let s' : Spans lo p = record {
                from_zero = s.from_zero;
                ordered = inside.not_below;
                capped = le_trans p hi top inside.not_above s.capped;
                below = s.below;
                above = inr (w, worth, high);
              } in
              rw (worth, high)
                (narrowed-Found lo p p (f.sub w target) (rounds e price_of vega_of target left lo p)
                  early so_far (enough worth high) s'
                  (record {
                    positive = inside.positive;
                    not_below = inside.not_below;
                    not_above = level;
                  })
                  (λ q i next. rounds-Found left (suc n) lo p q later next s' i))
        ]
