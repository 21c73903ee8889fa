-- ===== src/Risk/Comparison/Pairing.antt =====
-- Lines are paired in the order of both reports, each with one on the same position.
use volengine.Base.{
  ◌≡◌, refl, ◌∙◌, true, Option, none, some, List, [], ◌∷◌, map, All, inl, inr, Bool-cases, arith,
}
use volengine.Base.Results.{Result, ok}
use volengine.Base.Instants.{Instant}
use volengine.Base.Floats.{Float, IsComparable}
use volengine.Base.Keys.{string_key, str_sym}
use volengine.Risk.ComputeReport.{OptionKindR, call, put, Position, PositionRisk}
use volengine.Risk.Comparison.{
  PositionComparison, same_kind, same_moment, same_position, position_comparison, first_match,
  paired_with, pair_lines,
}

-- Some of a list's items, in its order.
pub data Within {ℓ} {A : Type ℓ} : List A → List A → Type ℓ where
  nothing : {ys : List A} → Within [] ys
  skipped : {xs ys : List A} (y : A) → Within xs ys → Within xs (y ∷ ys)
  taken : {xs ys : List A} (y : A) → Within xs ys → Within (y ∷ xs) (y ∷ ys)

-- What `first_match` gave stands in the list, and what it left stands after it.
data Splits {A : Type 0} : List A → A → List A → Type 0 where
  here : (x : A) (rest : List A) → Splits (x ∷ rest) x rest
  later : {xs rest : List A} {x : A} (y : A) → Splits xs x rest → Splits (y ∷ xs) x rest

extend :
    {A : Type 0} (xs : List A) (x : A) (rest ys : List A)
    → Splits xs x rest
    → Within ys rest
    → Within (x ∷ ys) xs
extend _ _ _ ys (here x rest) w = taken x w
extend _ x rest ys (later {xs} y s) w = skipped y (extend xs x rest ys s w)

same_kind_sym : (a b : OptionKindR) → same_kind a b ≡ same_kind b a
unfolding same_kind
same_kind_sym call call = refl
same_kind_sym call put = refl
same_kind_sym put call = refl
same_kind_sym put put = refl

same_moment_sym : (a b : Instant) → same_moment a b ≡ same_moment b a
unfolding same_moment
same_moment_sym a b = ground arith

module _ {F : Type 0} ⦃f : Float F⦄ (laws : IsComparable F) where
  same_position_sym : (p q : Position F) → same_position p q ≡ same_position q p
  unfolding same_position
  same_position_sym p q =
      rw
        (
          str_sym p.underlying q.underlying,
          same_moment_sym p.expiry q.expiry,
          laws.eq_sym p.strike q.strike,
          same_kind_sym p.kind q.kind,
          laws.eq_sym p.quantity q.quantity,
        )
        refl

  -- What `first_match` gives stands in the list, on the line's position.
  abbrev Matches :
      PositionRisk F
      → List (PositionRisk F)
      → Option (PositionRisk F × List (PositionRisk F))
      → Type 0
  Matches line remaining none = Unit {0}
  Matches line remaining (some (other, rest)) =
      Splits remaining other rest × (same_position line.position other.position ≡ true)

  later-Matches :
      (line x : PositionRisk F) (xs : List (PositionRisk F))
      (m : Option (PositionRisk F × List (PositionRisk F)))
      → Matches line xs m
      → Matches line (x ∷ xs) m
  later-Matches line x xs none h = tt
  later-Matches line x xs (some (other, rest)) (s, same) = (later x s, same)

  first_match-Matches :
      (line : PositionRisk F) (remaining : List (PositionRisk F))
      → Matches line remaining (first_match line remaining)
  unfolding first_match
  first_match-Matches line [] = tt
  first_match-Matches line (x ∷ xs) = elim (Bool-cases (same_position x.position line.position)) [
    | inl same ↦ rw same (here x xs, same_position_sym line.position x.position ∙ same)
    | inr other ↦
        rw other (later-Matches line x xs (first_match line xs) (first_match-Matches line xs))
  ]

  -- Every line that was paired, in the order of both reports.
  pub record Paired (ls rs : List (PositionRisk F)) (r : Result (List (PositionComparison F)))
      : Type 0 where
    pub pairs : List (PositionComparison F)
    pub made : r ≡ ok pairs
    pub baselines : Within (map (λ c. c.baseline) pairs) ls
    pub challengers : Within (map (λ c. c.challenger) pairs) rs
    pub alike : All (λ c. same_position c.baseline.position c.challenger.position ≡ true) pairs

  paired_with-Paired :
      (l : PositionRisk F) (ls rs : List (PositionRisk F))
      (m : Option (PositionRisk F × List (PositionRisk F)))
      → Matches l rs m
      → ((rs' : List (PositionRisk F)) → Paired ls rs' (pair_lines ls rs'))
      → Paired (l ∷ ls) rs (paired_with l rs m (pair_lines ls))
  unfolding position_comparison
  paired_with-Paired l ls rs none h rest = record {
    pairs = (rest rs).pairs;
    made = (rest rs).made;
    baselines = skipped l (rest rs).baselines;
    challengers = (rest rs).challengers;
    alike = (rest rs).alike;
  }
  paired_with-Paired l ls rs (some (other, after)) (s, same) rest =
      rw (same, (rest after).made)
        (record {
          pairs = record { baseline = l; challenger = other } ∷ (rest after).pairs;
          made = refl;
          baselines = taken l (rest after).baselines;
          challengers =
              extend rs other after (map (λ c. c.challenger) (rest after).pairs) s
                (rest after).challengers;
          alike = (same, (rest after).alike);
        })

  -- `pair_lines` refuses nothing: every line that it gives pairs two on the same position, a line of the
  -- baseline with one of the challenger, and in it each report's lines keep their order and serve once.
  pub pair_lines-Paired : (ls rs : List (PositionRisk F)) → Paired ls rs (pair_lines ls rs)
  unfolding pair_lines
  pair_lines-Paired [] rs = record {
    pairs = [];
    made = refl;
    baselines = nothing;
    challengers = nothing;
    alike = tt;
  }
  pair_lines-Paired (l ∷ ls) rs =
      paired_with-Paired l ls rs (first_match l rs) (first_match-Matches l rs)
        (pair_lines-Paired ls)
