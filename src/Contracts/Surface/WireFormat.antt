-- ===== src/Contracts/Surface/WireFormat.antt =====
-- `to_dict` and `from_dict` of the surface: what goes onto the wire comes back.
use volengine.Base.{
  String, false, not, ◌≡◌, refl, ◌≤◌, Option, none, some, List, [], ◌∷◌, ltb, arith, if◌then◌else◌,
}
use volengine.Base.Results.{Result, ok, err, value_error, type_error, guard, ◌>>=◌, ◌>>◌}
use volengine.Base.Instants.{Instant}
use volengine.Base.Floats.{Float}
use volengine.Base.Keys.{◌==◌, string_key}
use volengine.Contracts.Wire.{
  Json, int, num, text, arr, obj, Fields, end, field, Iso, IsIso, at_key, as_int, as_text, as_num,
  items, as_list, or_null, as_option, get_version, stamp, as_stamp, Each, each-items,
}
use volengine.Contracts.Surface.{
  VolGrid, FitMetrics, CalibratedSurface, SurfaceStatus, ok_status, degraded_status,
  stale_republish, vol_grid, fit_metrics, calibrated_surface,
}

-- `status.value` and `SurfaceStatus(value)`
unfoldable pub status_text : SurfaceStatus → String
status_text ok_status = "OK"
status_text degraded_status = "DEGRADED"
status_text stale_republish = "STALE_REPUBLISH"

unfoldable pub status_of : String → Result SurfaceStatus
status_of s =
    if s == "OK"
    then ok ok_status
    else if s == "DEGRADED"
    then ok degraded_status
    else if s == "STALE_REPUBLISH"
    then ok stale_republish
    else err value_error

module _ {F : Type 0} where
  unfoldable pub numbers : List F → Json F
  numbers xs = arr (items num xs)

  -- `dict(self.producer_meta)`
  unfoldable pub meta_fields : List (String × F) → Fields F
  meta_fields [] = end
  meta_fields ((k, x) ∷ meta) = field k (num x) (meta_fields meta)

  unfoldable pub meta_to_dict : List (String × F) → Json F
  meta_to_dict meta = obj (meta_fields meta)

  unfoldable pub grid_to_dict : Iso → VolGrid F → Json F
  grid_to_dict iso g = obj (
      field "log_moneyness" (numbers g.log_moneyness) (
        field "tenors" (numbers g.tenors) (
          field "expiries" (arr (items (stamp iso) g.expiries)) (
            field "forwards" (numbers g.forwards)
              (field "vols" (arr (items numbers g.vols)) end)))))

  unfoldable pub fit_to_dict : FitMetrics F → Json F
  fit_to_dict m = obj (
      field "rmse_vol_bp" (num m.rmse_vol_bp) (
        field "max_err_vol_bp" (num m.max_err_vol_bp) (
          field "n_quotes_used" (int m.n_quotes_used) (
            field "n_iterations" (int m.n_iterations)
              (field "duration_ms" (num m.duration_ms) end)))))

  unfoldable pub surface_to_dict : Iso → CalibratedSurface F → Json F
  surface_to_dict iso s = obj (
      field "surface_id" (text s.surface_id) (
        field "source_snapshot_id" (text s.source_snapshot_id) (
          field "market_id" (text s.market_id) (
            field "ts_snapshot" (stamp iso s.ts_snapshot) (
              field "ts_calibrated" (stamp iso s.ts_calibrated) (
                field "producer_id" (text s.producer_id) (
                  field "grid" (grid_to_dict iso s.grid) (
                    field "fit" (fit_to_dict s.fit) (
                      field "status" (text (status_text s.status)) (
                        field "producer_meta" (or_null meta_to_dict s.producer_meta)
                          (field "schema_version" (int s.schema_version) end)))))))))))

module _ {F : Type 0} ⦃f : Float F⦄ where
  unfoldable pub fields_from : Fields F → Result (List (String × F))
  fields_from end = ok []
  fields_from (field k v fs) = do x ← as_num v; meta ← fields_from fs; ok ((k, x) ∷ meta)

  unfoldable pub meta_from : Json F → Result (List (String × F))
  meta_from (obj fs) = fields_from fs
  meta_from _ = err type_error

  unfoldable pub grid_from_dict : Iso → Json F → Result (VolGrid F)
  grid_from_dict iso raw = do
    log_moneyness ← at_key "log_moneyness" raw >>= as_list as_num
    tenors ← at_key "tenors" raw >>= as_list as_num
    expiries ← at_key "expiries" raw >>= as_list (as_stamp iso)
    forwards ← at_key "forwards" raw >>= as_list as_num
    vols ← at_key "vols" raw >>= as_list (as_list as_num)
    vol_grid (record {
      log_moneyness = log_moneyness;
      tenors = tenors;
      expiries = expiries;
      forwards = forwards;
      vols = vols;
    })

  unfoldable pub fit_from_dict : Json F → Result (FitMetrics F)
  fit_from_dict raw = do
    rmse_vol_bp ← at_key "rmse_vol_bp" raw >>= as_num
    max_err_vol_bp ← at_key "max_err_vol_bp" raw >>= as_num
    n_quotes_used ← at_key "n_quotes_used" raw >>= as_int
    n_iterations ← at_key "n_iterations" raw >>= as_int
    duration_ms ← at_key "duration_ms" raw >>= as_num
    fit_metrics (record {
      rmse_vol_bp = rmse_vol_bp;
      max_err_vol_bp = max_err_vol_bp;
      n_quotes_used = n_quotes_used;
      n_iterations = n_iterations;
      duration_ms = duration_ms;
    })

  unfoldable pub surface_from_dict : Iso → Json F → Result (CalibratedSurface F)
  surface_from_dict iso raw = do
    version ← get_version raw
    guard (not (ltb 1 version)) value_error
    producer_meta ← at_key "producer_meta" raw >>= as_option meta_from
    surface_id ← at_key "surface_id" raw >>= as_text
    source_snapshot_id ← at_key "source_snapshot_id" raw >>= as_text
    market_id ← at_key "market_id" raw >>= as_text
    ts_snapshot ← at_key "ts_snapshot" raw >>= as_stamp iso
    ts_calibrated ← at_key "ts_calibrated" raw >>= as_stamp iso
    producer_id ← at_key "producer_id" raw >>= as_text
    grid ← at_key "grid" raw >>= grid_from_dict iso
    fit ← at_key "fit" raw >>= fit_from_dict
    status ← at_key "status" raw >>= as_text >>= status_of
    calibrated_surface (record {
      surface_id = surface_id;
      source_snapshot_id = source_snapshot_id;
      market_id = market_id;
      ts_snapshot = ts_snapshot;
      ts_calibrated = ts_calibrated;
      producer_id = producer_id;
      grid = grid;
      fit = fit;
      status = status;
      producer_meta = producer_meta;
      schema_version = version;
    })

  numbers-Each : (xs : List F) → Each num as_num xs
  numbers-Each [] = tt
  numbers-Each (x ∷ xs) = (refl, numbers-Each xs)

  numbers_back : (xs : List F) → as_list as_num (numbers xs) ≡ ok xs
  unfolding numbers
  numbers_back xs = each-items num as_num xs (numbers-Each xs)

  smiles-Each : (vols : List (List F)) → Each numbers (as_list as_num) vols
  smiles-Each [] = tt
  smiles-Each (smile ∷ vols) = (numbers_back smile, smiles-Each vols)

  fields_back : (meta : List (String × F)) → fields_from (meta_fields meta) ≡ ok meta
  unfolding fields_from meta_fields
  fields_back [] = refl
  fields_back ((k, x) ∷ meta) = rw (fields_back meta) refl

  meta_back :
      (meta : Option (List (String × F)))
      → as_option meta_from (or_null meta_to_dict meta) ≡ ok meta
  unfolding meta_from meta_to_dict
  meta_back none = refl
  meta_back (some meta) = rw (fields_back meta) refl

status_of-status_text : (status : SurfaceStatus) → status_of (status_text status) ≡ ok status
unfolding status_of status_text
status_of-status_text ok_status = refl
status_of-status_text degraded_status = refl
status_of-status_text stale_republish = refl

stamps-Each :
    (F : Type 0) (iso : Iso)
    → IsIso iso
    → (ts : List Instant) → Each {F = F} (stamp iso) (as_stamp iso) ts
stamps-Each F iso law [] = tt
stamps-Each F iso law (t ∷ ts) = (law.parse-format t, stamps-Each F iso law ts)

module _ {F : Type 0} ⦃f : Float F⦄ (iso : Iso) where
  module _ (law : IsIso iso) where
    grid_back : (g : VolGrid F) → vol_grid g ≡ ok g → grid_from_dict iso (grid_to_dict iso g) ≡ ok g
    unfolding grid_from_dict grid_to_dict
    grid_back g made =
        rw
          (
            numbers_back g.log_moneyness,
            numbers_back g.tenors,
            each-items (stamp iso) (as_stamp iso) g.expiries (stamps-Each F iso law g.expiries),
            numbers_back g.forwards,
            each-items numbers (as_list as_num) g.vols (smiles-Each g.vols),
          )
          made

    fit_back : (m : FitMetrics F) → fit_metrics m ≡ ok m → fit_from_dict (fit_to_dict m) ≡ ok m
    unfolding fit_from_dict fit_to_dict
    fit_back m made = made

    -- A surface whose constructors accepted it, its grid and its metrics, survives the wire when its
    -- version is one that this build reads: `from_dict` of its `to_dict` is the same surface.
    pub surface_from_dict-surface_to_dict :
        (s : CalibratedSurface F)
        → calibrated_surface s ≡ ok s
        → vol_grid s.grid ≡ ok s.grid
        → fit_metrics s.fit ≡ ok s.fit
        → s.schema_version ≤ 1
        → surface_from_dict iso (surface_to_dict iso s) ≡ ok s
    unfolding surface_from_dict surface_to_dict
    surface_from_dict-surface_to_dict s made grid fit readable =
        let current : ltb 1 s.schema_version ≡ false = ground arith in
        rw
          (
            current,
            law.parse-format s.ts_snapshot,
            law.parse-format s.ts_calibrated,
            meta_back s.producer_meta,
            grid_back s.grid grid,
            fit_back s.fit fit,
            status_of-status_text s.status,
          )
          made
