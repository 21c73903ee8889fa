-- ===== src/Pricing/CalibrateOnSnapshot/Answers.antt =====
-- Every handled snapshot comes to one of the outcomes.
use volengine.Base.{
  ℕ, String, ◌≡◌, ◌⊎◌, refl, sym, ap, ◌∙◌, Bool, true, false, if◌then◌else◌, arith, Option, none,
  some, List, [], ◌∷◌, map, keep, length,
}
use volengine.Base.Results.{Result, ok, err, >>=-eq-ok}
use volengine.Base.Instants.{require_aware}
use volengine.Base.Floats.{Float, IsComparable}
use volengine.Contracts.Surface.{
  CalibratedSurface, VolGrid, FitMetrics, ok_status, degraded_status, stale_republish,
  calibrated_surface,
}
use volengine.Contracts.Snapshot.{MarketSnapshot}
use volengine.Contracts.Events.{CalibrationFailed, calibration_failed}
use volengine.Pricing.State.{SliceResult, CalibrationState, warm_start}
use volengine.Pricing.Calibration.{
  CalibrationTask, CalibrationResult, SliceTask, calibration_task, require_ordered_by_tenor,
}
use volengine.Pricing.Acl.{
  Numerics, Weighting, GridSpec, nodes, to_slice_tasks, task_of_slices, to_calibration_task,
}
use volengine.Pricing.Publication.{
  Label, results_of, grid_of_rows, to_fit_metrics, labelled, surface_of_rows, rows,
  to_calibrated_surface,
}
use volengine.Pricing.CalibrateOnSnapshot.{
  Attempt, fitted, failed, broken, Acceptance, accepts, Wiring, Readings, Producer, status_of_fit,
  republished, refuse, after_surface, label, duration_ms, after_acceptance, after_fit, after_task,
  handle,
}
use volengine.Pricing.CalibrateOnSnapshot.Outcomes.{
  IsFresh, Sifted, none_left, chosen, left_out, IsFit, IsDrawn, Refused, no_task, not_fitted,
  none_accepted, none_drawn, IsReport, in_task, in_fit, in_surface, Answered, raised, calibrated,
  refused_alone, refused_republished,
}

module _ {F : Type 0} where
  calibrated_surface_eq : (s x : CalibratedSurface F) → calibrated_surface s ≡ ok x → x ≡ s
  unfolding calibrated_surface require_aware
  calibrated_surface_eq s x h = ground (arith, h)

module _ {F : Type 0} ⦃f : Float F⦄ where
  calibration_task_eq : (a b : CalibrationTask F) → calibration_task a ≡ ok b → b ≡ a
  unfolding calibration_task require_ordered_by_tenor require_aware
  calibration_task_eq a b h = ground (arith, h)

module _ {F P : Type 0} ⦃f : Float F⦄ where
  status_of_fit_new :
      (s : MarketSnapshot F) (accepted attempted : List (SliceResult F P))
      → ¬ (status_of_fit s accepted attempted ≡ stale_republish)
  unfolding status_of_fit
  status_of_fit_new s accepted attempted h = ground (arith, h)

  labelled_label :
      (n : Numerics F P) (task : CalibrationTask F) (l : Label) (grid : VolGrid F)
      (fit : FitMetrics F) (x : CalibratedSurface F)
      → labelled n task l grid fit ≡ ok (some x)
      → (x.source_snapshot_id ≡ task.snapshot_id) × (x.status ≡ l.status)
  unfolding labelled
  labelled_label n task l grid fit x h =
      let (y, made, rest) = >>=-eq-ok (calibrated_surface _) (λ z. ok (some z)) h in
      let same = calibrated_surface_eq _ y made in
      (cc (ap (λ z. z.source_snapshot_id) same, rest), cc (ap (λ z. z.status) same, rest))

  surface_of_rows_label :
      (n : Numerics F P) (task : CalibrationTask F) (g : GridSpec F) (i : ℕ) (d : F) (l : Label)
      (rs : List (SliceResult F P × List F)) (x : CalibratedSurface F)
      → surface_of_rows n task g i d l rs ≡ ok (some x)
      → (x.source_snapshot_id ≡ task.snapshot_id) × (x.status ≡ l.status)
  unfolding surface_of_rows
  surface_of_rows_label n task g i d l [] x h = cc
  surface_of_rows_label n task g i d l (r ∷ rs) x h =
      let (grid, a, h1) = >>=-eq-ok (grid_of_rows n task g (r ∷ rs)) _ h in
      let (fit, b, h2) = >>=-eq-ok (to_fit_metrics n r.0 (results_of n rs) i d) _ h1 in
      labelled_label n task l grid fit x h2

  surface_label :
      (n : Numerics F P) (task : CalibrationTask F) (g : GridSpec F) (rs : List (SliceResult F P))
      (i : ℕ) (d : F) (l : Label) (x : CalibratedSurface F)
      → to_calibrated_surface n task g rs i d l ≡ ok (some x)
      → (x.source_snapshot_id ≡ task.snapshot_id) × (x.status ≡ l.status)
  unfolding to_calibrated_surface
  surface_label n task g rs i d l x h =
      let (published, a, rest) = >>=-eq-ok (rows n (nodes g) rs) _ h in
      surface_of_rows_label n task g i d l published x rest

  accepts_facts :
      (a : Acceptance F) (r : SliceResult F P)
      → accepts a r ≡ true
      → (r.converged ≡ true) × (r.at_bound ≡ false) × (f.le r.rmse_vol_bp a.max_rmse_vol_bp ≡ true)
  unfolding accepts
  accepts_facts a r h = ground (arith, h)

  rejects_facts :
      (a : Acceptance F) (r : SliceResult F P)
      → accepts a r ≡ false
      → (r.converged ≡ false)
        ⊎ ((r.at_bound ≡ true) ⊎ (f.le r.rmse_vol_bp a.max_rmse_vol_bp ≡ false))
  unfolding accepts
  rejects_facts a r h = ground (arith, h)

  sift_one :
      (a : Acceptance F) (r : SliceResult F P) (rs accepted : List (SliceResult F P)) (told : Bool)
      → accepts a r ≡ told
      → Sifted a.max_rmse_vol_bp rs accepted
      → Sifted a.max_rmse_vol_bp (r ∷ rs) (if told then r ∷ accepted else accepted)
  sift_one a r rs accepted true h rest =
      let (settled, free, near) = accepts_facts a r h in chosen settled free near rest
  sift_one a r rs accepted false h rest = left_out (rejects_facts a r h) rest

  keep-Sifted :
      (a : Acceptance F) (rs : List (SliceResult F P))
      → Sifted a.max_rmse_vol_bp rs (keep (accepts a) rs)
  keep-Sifted a [] = none_left
  keep-Sifted a (r ∷ rs) =
      sift_one a r rs (keep (accepts a) rs) (accepts a r) refl (keep-Sifted a rs)

  status_of_fit_judged :
      (s : MarketSnapshot F) (accepted attempted : List (SliceResult F P))
      → ((s.quality.degraded ≡ false)
          × (length accepted ≡ length attempted)
          × (status_of_fit s accepted attempted ≡ ok_status))
        ⊎ (((s.quality.degraded ≡ true) ⊎ ¬ (length accepted ≡ length attempted))
            × (status_of_fit s accepted attempted ≡ degraded_status))
  unfolding status_of_fit
  status_of_fit_judged s accepted attempted = ground arith

module _ {F P : Type 0} ⦃f : Float F⦄ ⦃c : IsComparable F⦄ where
  task_of_slices_source :
      (n : Numerics F P) (s : MarketSnapshot F) (tasks : List (SliceTask F))
      (task : CalibrationTask F)
      → task_of_slices n s tasks ≡ ok (some task)
      → task.snapshot_id ≡ s.snapshot_id
  unfolding task_of_slices
  task_of_slices_source n s [] task h = cc
  task_of_slices_source n s (t ∷ tasks) task h =
      let (y, made, rest) = >>=-eq-ok (calibration_task _) (λ z. ok (some z)) h in
      cc (ap (λ z. z.snapshot_id) (calibration_task_eq _ y made), rest)

  task_source :
      (n : Numerics F P) (s : MarketSnapshot F) (w : Weighting F) (task : CalibrationTask F)
      → to_calibration_task n s w ≡ ok (some task)
      → task.snapshot_id ≡ s.snapshot_id
  unfolding to_calibration_task
  task_source n s w task h =
      let (tasks, a, rest) = >>=-eq-ok (to_slice_tasks n s.slices w) _ h in
      task_of_slices_source n s tasks task rest

  abbrev report : Wiring F P → Readings → MarketSnapshot F → String → CalibrationFailed
  report k t s reason = record {
    market_id = s.market_id;
    source_snapshot_id = s.snapshot_id;
    producer_id = k.calibrator.producer_id;
    reason = reason;
    ts = t.refused;
  }

  report-IsReport :
      (k : Wiring F P) (t : Readings) (s : MarketSnapshot F) (before : CalibrationState F P)
      (reason : String)
      → Refused k t s before reason
      → IsReport k t s before (report k t s reason)
  report-IsReport k t s before reason because = record {
    own_market = refl;
    own_source = refl;
    own_producer = refl;
    stamped = refl;
    because = because;
  }

  refused-Answered :
      (k : Wiring F P) (t : Readings) (s : MarketSnapshot F) (state : CalibrationState F P)
      (failure : CalibrationFailed) (last : Option (CalibratedSurface F))
      → state.last_good ≡ last
      → IsReport k t s state failure
      → Answered k t s state (ok (calibration_failed failure ∷ republished last)) state
  unfolding republished
  refused-Answered k t s state failure none h told = refused_alone failure told h
  refused-Answered k t s state failure (some previous) h told =
      refused_republished failure previous told h

  refuse-Answered :
      (k : Wiring F P) (t : Readings) (s : MarketSnapshot F) (reason : String) (p : Producer F P)
      → Refused k t s p.state reason
      → Answered k t s p.state (refuse k t s reason p).0 (refuse k t s reason p).1.state
  unfolding refuse
  refuse-Answered k t s reason p because =
      refused-Answered k t s p.state (report k t s reason) p.state.last_good refl
        (report-IsReport k t s p.state reason because)

  after_surface-Answered :
      (k : Wiring F P) (t : Readings) (s : MarketSnapshot F) (task : CalibrationTask F)
      (result : CalibrationResult F P) (accepted : List (SliceResult F P)) (p : Producer F P)
      (r : Result (Option (CalibratedSurface F)))
      → IsDrawn k t s p.state task result accepted r
      → ((x : CalibratedSurface F)
          → r ≡ ok (some x)
          → IsFresh s x × (x.status ≡ status_of_fit s accepted result.slices))
      → let after = after_surface k t s task accepted p r in
        Answered k t s p.state after.0 after.1.state
  unfolding after_surface
  after_surface-Answered k t s task result accepted p (err e) drawn h =
      raised (in_surface task result accepted drawn)
  after_surface-Answered k t s task result accepted p (ok none) drawn h =
      refuse-Answered k t s _ p (none_drawn task result accepted drawn)
  after_surface-Answered k t s task result accepted p (ok (some x)) drawn h =
      let (new, status) = h x refl in
      calibrated x accepted (map (λ one. one.expiry) task.slices) new (record {
        task = task;
        result = result;
        drawn = drawn;
        live_tasks = refl;
        judged = rw status (status_of_fit_judged s accepted result.slices);
      })

  after_acceptance-Answered :
      (k : Wiring F P) (t : Readings) (s : MarketSnapshot F) (task : CalibrationTask F)
      (result : CalibrationResult F P) (accepted : List (SliceResult F P)) (p : Producer F P)
      → task.snapshot_id ≡ s.snapshot_id
      → IsFit k s p.state task (fitted result)
      → Sifted k.acceptance.max_rmse_vol_bp result.slices accepted
      → let after = after_acceptance k t s task result accepted p in
        Answered k t s p.state after.0 after.1.state
  unfolding after_acceptance label
  after_acceptance-Answered k t s task result [] p own fit sifted =
      refuse-Answered k t s _ p (none_accepted task result fit sifted)
  after_acceptance-Answered k t s task result (r ∷ rs) p own fit sifted =
      let l = label k t s (r ∷ rs) result.slices in
      after_surface-Answered k t s task result (r ∷ rs) p _
        (record { fit = fit; sifted = sifted; occupied = λ none. cc; drawing = (l, refl) })
        (λ x made.
          let (source, status) =
            surface_label k.numerics task k.grid (r ∷ rs) result.n_iterations (duration_ms t) l x
              made in
          (
            record {
              own_source = source ∙ own;
              own_status = λ stale. status_of_fit_new s (r ∷ rs) result.slices (sym status ∙ stale);
            },
            status,
          ))

  after_fit-Answered :
      (k : Wiring F P) (t : Readings) (s : MarketSnapshot F) (task : CalibrationTask F)
      (p : Producer F P) (attempt : Attempt F P)
      → task.snapshot_id ≡ s.snapshot_id
      → IsFit k s p.state task attempt
      → let after = after_fit k t s task p attempt in Answered k t s p.state after.0 after.1.state
  unfolding after_fit
  after_fit-Answered k t s task p (broken e) own fit = raised (in_fit task fit)
  after_fit-Answered k t s task p (failed reason) own fit =
      refuse-Answered k t s reason p (not_fitted task fit)
  after_fit-Answered k t s task p (fitted result) own fit =
      after_acceptance-Answered k t s task result _ _ own fit
        (keep-Sifted k.acceptance result.slices)

  after_task-Answered :
      (k : Wiring F P) (t : Readings) (s : MarketSnapshot F) (p : Producer F P)
      (task : Result (Option (CalibrationTask F)))
      → to_calibration_task k.numerics s k.weighting ≡ task
      → let after = after_task k t s p task in Answered k t s p.state after.0 after.1.state
  unfolding after_task
  after_task-Answered k t s p (err e) asked = raised (in_task asked)
  after_task-Answered k t s p (ok none) asked = refuse-Answered k t s _ p (no_task asked)
  after_task-Answered k t s p (ok (some task)) asked =
      after_fit-Answered k t s task p (k.calibrator.calibrate (warm_start p.state) task)
        (task_source k.numerics s k.weighting task asked) (record { asked = asked; told = refl })

  pub handle-Answered :
      (k : Wiring F P) (t : Readings) (s : MarketSnapshot F) (p : Producer F P)
      → Answered k t s p.state (handle k t s p).0 (handle k t s p).1.state
  unfolding handle
  handle-Answered k t s p = after_task-Answered k t s p _ refl
