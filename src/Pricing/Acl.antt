-- ===== src/Pricing/Acl.antt =====
-- volengine/parametric_pricing/application/acl.py and grid_spec.py: a snapshot as a calibration task,
-- and the log-moneyness nodes of the published grid.
use volengine.Base.{
  ℕ, zero, suc, ◌-◌, Bool, true, false, not, ◌&&◌, ◌||◌, Option, none, some, List, [], ◌∷◌, ◌++◌,
  map, ltb, if◌then◌else◌,
}
use volengine.Base.Results.{Result, ok, err, value_error, no_implied_vol, guard, ◌>>=◌, ◌>>◌}
use volengine.Base.Floats.{Float, IsComparable}
use volengine.Base.Keys.{float_key, instant_key}
use volengine.Base.Dict.{Dict, get, put}
use volengine.Base.Sorting.{sort_by}
use volengine.Contracts.Snapshot.{
  MarketSnapshot, SliceData, QuoteData, OptionKind, call, put as put_kind,
}
use volengine.Pricing.Calibration.{SliceTask, CalibrationTask, slice_task, calibration_task}

-- Black-76 and SVI, which are not modelled, and the arithmetic of Python that they share.
pub record Numerics (F P : Type 0) : Type 0 where
  -- `sum`, `math.sqrt` and `x ** 2`
  pub sum : List F → F
  pub sqrt : F → F
  pub square : F → F
  -- `black76.implied_vol` of a price, a forward, a strike, a tenor and whether it is a call
  pub implied_vol : F → F → F → F → Bool → Result F
  -- `black76.vega` of a forward, a strike, a tenor and a volatility
  pub vega : F → F → F → F → Result F
  -- `SVIParams.implied_vol` of a log-moneyness and a tenor
  pub smile_vol : P → F → F → Result F

pub record Weighting (F : Type 0) : Type 0 where
  pub spread_scale : F
  pub flagged_factor : F
  pub unpaired_itm_factor : F

pub record GridSpec (F : Type 0) : Type 0 where
  pub k_min : F
  pub k_max : F
  pub n_nodes : ℕ

-- A strike's quotes by kind: `dict[OptionKind, QuoteData]`, in insertion order.
abbrev pub same_option : OptionKind → OptionKind → Bool
same_option call call = true
same_option put_kind put_kind = true
same_option _ _ = false

unfoldable pub put_leg :
    {F : Type 0}
    → List (OptionKind × QuoteData F)
    → OptionKind
    → QuoteData F
    → List (OptionKind × QuoteData F)
put_leg [] kind q = (kind, q) ∷ []
put_leg ((k, p) ∷ legs) kind q =
    if same_option k kind then (k, q) ∷ legs else (k, p) ∷ put_leg legs kind q

unfoldable pub get_leg :
    {F : Type 0} → List (OptionKind × QuoteData F) → OptionKind → Option (QuoteData F)
get_leg [] kind = none
get_leg ((k, p) ∷ legs) kind = if same_option k kind then some p else get_leg legs kind

-- `next(iter(legs.values()), None)`, as the choice of a strike without its preferred leg
unfoldable pub fallback :
    {F : Type 0}
    → F
    → List (OptionKind × QuoteData F)
    → List (F × QuoteData F × Bool)
    → List (F × QuoteData F × Bool)
fallback strike [] rest = rest
fallback strike ((k, p) ∷ legs) rest = (strike, p, false) ∷ rest

-- `bool(items)`
unfoldable pub some_of : {A : Type 0} → List A → Bool
some_of [] = false
some_of (_ ∷ _) = true

module _ {F : Type 0} ⦃f : Float F⦄ where
  abbrev pub unit_interval : F → Bool
  unit_interval x = not (not (f.is_finite x) || not (f.le (f.of_ℕ 0) x && f.le x (f.of_ℕ 1)))

  unfoldable pub weighting : Weighting F → Result (Weighting F)
  weighting w = do
    guard (not (not (f.is_finite w.spread_scale) || f.le w.spread_scale (f.of_ℕ 0))) value_error
    guard (unit_interval w.flagged_factor) value_error
    guard (unit_interval w.unpaired_itm_factor) value_error
    ok w

  unfoldable pub grid_spec : GridSpec F → Result (GridSpec F)
  grid_spec g = do
    guard (not (not (f.is_finite g.k_min) || not (f.is_finite g.k_max))) value_error
    guard (not (f.le g.k_max g.k_min)) value_error
    guard (not (ltb g.n_nodes 2)) value_error
    ok g

  -- `[self.k_min + step * index for index in range(...)]`, from an index, and the last node
  unfoldable pub nodes_from : F → F → F → ℕ → ℕ → List F
  nodes_from k_min step k_max index zero = k_max ∷ []
  nodes_from k_min step k_max index (suc left) =
      f.add k_min (f.mul step (f.of_ℕ index)) ∷ nodes_from k_min step k_max (suc index) left

  unfoldable pub nodes : GridSpec F → List F
  unfolding nodes_from
  nodes g =
      nodes_from g.k_min (f.div (f.sub g.k_max g.k_min) (f.of_ℕ (g.n_nodes - 1))) g.k_max 0
        (g.n_nodes - 1)

  -- `legs.get(wanted)`, or the fallback
  unfoldable pub choose :
      F
      → F
      → List (OptionKind × QuoteData F)
      → List (F × QuoteData F × Bool)
      → List (F × QuoteData F × Bool)
  unfolding get_leg fallback
  choose forward strike legs rest =
      elim (get_leg legs (if f.le forward strike then call else put_kind)) [
        | some preferred ↦ (strike, preferred, true) ∷ rest
        | none ↦ fallback strike legs rest
      ]

  unfoldable pub choose_all :
      F → List (F × List (OptionKind × QuoteData F)) → List (F × QuoteData F × Bool)
  unfolding choose
  choose_all forward [] = []
  choose_all forward ((strike, legs) ∷ by_strike) =
      choose forward strike legs (choose_all forward by_strike)

  abbrev pub strike_order :
      F × List (OptionKind × QuoteData F) → F × List (OptionKind × QuoteData F) → Bool
  strike_order (k, legs) (j, legs') = f.lt k j

  module _ {P : Type 0} (n : Numerics F P) where
    -- `_invert`: `NoImpliedVolError` is caught, and nothing else
    unfoldable pub caught : Result F → Result (Option F)
    caught (ok vol) = ok (some vol)
    caught (err no_implied_vol) = ok none
    caught (err e) = err e

    unfoldable pub invert : QuoteData F → SliceData F → Result (Option F)
    unfolding caught
    invert q s =
        caught (n.implied_vol q.mid s.forward q.strike s.tenor_years (same_option q.kind call))

    -- `_weight`
    unfoldable pub weight : QuoteData F → SliceData F → F → Bool → Weighting F → Result F
    unfolding some_of
    weight q s vol paired w = do
      sensitivity ← n.vega s.forward q.strike s.tenor_years vol
      let plain = f.div sensitivity (f.add (f.of_ℕ 1) (f.div q.spread_rel w.spread_scale))
      let judged =
          if some_of q.flags || some_of s.flags then f.mul plain w.flagged_factor else plain
      ok (if paired then judged else f.mul judged w.unpaired_itm_factor)

    -- One round of the loop of `_to_slice_task`: log-moneyness, volatility and weight. `math.log` raises
    -- on a ratio that is not above zero.
    unfoldable pub fitted_point :
        SliceData F
        → Weighting F
        → F
        → QuoteData F
        → Bool
        → Option F
        → Result (List (F × F × F))
        → Result (List (F × F × F))
    unfolding weight
    fitted_point s w strike q paired none later = later
    fitted_point s w strike q paired (some vol) later = do
      guard (not (f.le (f.div strike s.forward) (f.of_ℕ 0))) value_error
      let k = f.ln (f.div strike s.forward)
      influence ← weight q s vol paired w
      rest ← later
      ok ((k, vol, influence) ∷ rest)

    unfoldable pub fitted_points :
        SliceData F → Weighting F → List (F × QuoteData F × Bool) → Result (List (F × F × F))
    unfolding fitted_point invert
    fitted_points s w [] = ok []
    fitted_points s w ((strike, q, paired) ∷ quotes) = do
      let later = fitted_points s w quotes
      vol ← invert q s
      fitted_point s w strike q paired vol later

    unfoldable pub normalised : SliceData F → List (F × F × F) → F → Result (List (SliceTask F))
    normalised s points total = do
      task ← slice_task n.sum (record {
        expiry = s.expiry;
        tenor_years = s.tenor_years;
        forward = s.forward;
        log_moneyness = map (λ (p : F × F × F). p.0) points;
        implied_vol = map (λ (p : F × F × F). p.1) points;
        weights = map (λ (p : F × F × F). f.div p.2 total) points;
      })
      ok (task ∷ [])

    unfoldable pub task_of_points : SliceData F → List (F × F × F) → Result (List (SliceTask F))
    unfolding normalised
    task_of_points s points =
        let total = n.sum (map (λ (p : F × F × F). p.2) points) in
        if not (some_of points) || f.le total (f.of_ℕ 0) then ok [] else normalised s points total

module _ {F : Type 0} ⦃f : Float F⦄ ⦃c : IsComparable F⦄ where
  -- `by_strike.setdefault(quote.strike, {})[quote.kind] = quote`
  abbrev legs_at : Option (List (OptionKind × QuoteData F)) → List (OptionKind × QuoteData F)
  legs_at none = []
  legs_at (some legs) = legs

  unfoldable pub by_strike :
      List (QuoteData F)
      → Dict F (List (OptionKind × QuoteData F))
      → Dict F (List (OptionKind × QuoteData F))
  unfolding put_leg
  by_strike [] d = d
  by_strike (q ∷ quotes) d =
      by_strike quotes (
        put ⦃e = float_key⦄ d q.strike
          (put_leg (legs_at (get ⦃e = float_key⦄ d q.strike)) q.kind q))

  unfoldable pub out_of_the_money_quotes : SliceData F → List (F × QuoteData F × Bool)
  unfolding by_strike choose_all
  out_of_the_money_quotes s = choose_all s.forward (sort_by strike_order (by_strike s.quotes []))

  module _ {P : Type 0} (n : Numerics F P) where
    -- `_to_slice_task`: no task, or one
    unfoldable pub to_slice_task : SliceData F → Weighting F → Result (List (SliceTask F))
    unfolding out_of_the_money_quotes fitted_points task_of_points
    to_slice_task s w = do
      points ← fitted_points n s w (out_of_the_money_quotes s)
      task_of_points n s points

    unfoldable pub to_slice_tasks : List (SliceData F) → Weighting F → Result (List (SliceTask F))
    unfolding to_slice_task
    to_slice_tasks [] w = ok []
    to_slice_tasks (s ∷ slices) w = do
      let later = to_slice_tasks slices w
      task ← to_slice_task s w
      rest ← later
      ok (task ++ rest)

    unfoldable pub task_of_slices :
        MarketSnapshot F → List (SliceTask F) → Result (Option (CalibrationTask F))
    task_of_slices s [] = ok none
    task_of_slices s (t ∷ tasks) = do
      task ← calibration_task (record {
        market_id = s.market_id;
        snapshot_id = s.snapshot_id;
        ts_snapshot = s.ts_exchange;
        slices = t ∷ tasks;
      })
      ok (some task)

    unfoldable pub to_calibration_task :
        MarketSnapshot F → Weighting F → Result (Option (CalibrationTask F))
    unfolding to_slice_tasks task_of_slices
    to_calibration_task s w = do tasks ← to_slice_tasks s.slices w; task_of_slices s tasks
