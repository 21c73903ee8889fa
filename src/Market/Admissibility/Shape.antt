-- ===== src/Market/Admissibility/Shape.antt =====
-- What the neighbour test of a curve says of the whole curve.
use volengine.Base.{◌≡◌, ◌↔◌, refl, true, false, List, [], ◌∷◌, arith, All, All-map}
use volengine.Base.Floats.{Float, IsOrdered, le-not_lt, not_lt-le}
use volengine.Market.Quotes.{OptionKindD, call, put}
use volengine.Market.Admissibility.{breaks_from, breaks_monotonicity, disordered}

module _ {F : Type 0} ⦃f : Float F⦄ where
  -- A call's price does not rise with the strike, a put's does not fall.
  abbrev pub Ordered : OptionKindD → F → F × F → Type 0
  Ordered call near (k, far) = f.le far near ≡ true
  Ordered put near (k, far) = f.le near far ≡ true

  -- Every price is in order with every later one.
  abbrev pub AllOrdered : OptionKindD → List (F × F) → Type 0
  AllOrdered kind [] = Unit {0}
  AllOrdered kind ((k, near) ∷ prices) = All (Ordered kind near) prices × AllOrdered kind prices

  abbrev pub IsNumber : F × F → Type 0
  IsNumber (k, p) = f.le p p ≡ true

  module _ (laws : IsOrdered F) where
    open laws use {le_trans}

    Ordered-trans :
        (kind : OptionKindD) (a b k : F) (p : F × F)
        → Ordered kind a (k, b)
        → Ordered kind b p
        → Ordered kind a p
    Ordered-trans call a b k (j, c) h t = le_trans c b a t h
    Ordered-trans put a b k (j, c) h t = le_trans a b c h t

    Ordered-step :
        (kind : OptionKindD) (a k b : F)
        → f.le a a ≡ true
        → f.le b b ≡ true
        → disordered kind a b ≡ false
        → Ordered kind a (k, b)
    Ordered-step call a k b x y h = not_lt-le laws a b x y h
    Ordered-step put a k b x y h = not_lt-le laws b a y x h

    Ordered-not :
        (kind : OptionKindD) (a k b : F) → Ordered kind a (k, b) → disordered kind a b ≡ false
    Ordered-not call a k b h = le-not_lt laws b a h
    Ordered-not put a k b h = le-not_lt laws a b h

    from_Ordered :
        (kind : OptionKindD) (near : F) (prices : List (F × F))
        → f.le near near ≡ true
        → All IsNumber prices
        → breaks_from kind near prices ≡ false
        → All (Ordered kind near) prices × AllOrdered kind prices
    unfolding breaks_from
    from_Ordered kind near [] n ns h = (tt, tt)
    from_Ordered kind near ((k, far) ∷ prices) n ns h =
        let here : disordered kind near far ≡ false = ground arith in
        let rest : breaks_from kind far prices ≡ false = ground arith in
        let step = Ordered-step kind near k far n ns.0 here in
        let (later, all) = from_Ordered kind far prices ns.0 ns.1 rest in
        (
          (
            step,
            All-map (Ordered kind far) (Ordered kind near) prices
                (λ p t. Ordered-trans kind near far k p step t) later,
          ),
          (later, all),
        )

    to_unbroken :
        (kind : OptionKindD) (near : F) (prices : List (F × F))
        → All (Ordered kind near) prices
        → AllOrdered kind prices
        → breaks_from kind near prices ≡ false
    unfolding breaks_from
    to_unbroken kind near [] h a = refl
    to_unbroken kind near ((k, far) ∷ prices) h a =
        ground (arith, Ordered-not kind near k far h.0, to_unbroken kind far prices a.0 a.1)

    -- For prices that are numbers, the test of neighbours finds nothing exactly when every price of the
    -- curve is in order with every later one: calls never rise with the strike, puts never fall.
    pub breaks_monotonicity_lem :
        (kind : OptionKindD) (prices : List (F × F))
        → All IsNumber prices
        → (breaks_monotonicity prices kind ≡ false) ↔ AllOrdered kind prices
    unfolding breaks_monotonicity
    breaks_monotonicity_lem kind [] ns = (λ h. tt, λ h. refl)
    breaks_monotonicity_lem kind ((k, near) ∷ prices) ns =
        (λ h. from_Ordered kind near prices ns.0 ns.1 h, λ a. to_unbroken kind near prices a.0 a.1)
