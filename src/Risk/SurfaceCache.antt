-- ===== src/Risk/SurfaceCache.antt =====
-- volengine/risk/application/surface_cache.py: `LastValueSurfaceProvider` and `ProducerSurfaces`. The
-- reading of the clock that `_observe` makes is an argument, and the sink is the list of what was sent.
pub mod Slots
pub mod Newest
use volengine.Base.{
  ℕ, String, Bool, true, false, Option, none, some, List, [], ◌∷◌, ◌++◌, if◌then◌else◌,
}
use volengine.Base.Int.{ℤ}
use volengine.Base.Results.{Result, ok, err, value_error}
use volengine.Base.Instants.{Instant, elapsed, before}
use volengine.Base.Floats.{Float}
use volengine.Base.Keys.{◌==◌, string_key}
use volengine.Base.Dict.{Dict, get, put}
use volengine.Platform.Metrics.{Tags, Measurement, counter, timing}
use volengine.Contracts.Surface.{
  CalibratedSurface, SurfaceStatus, ok_status, degraded_status, stale_republish,
}
use volengine.Risk.SurfaceView.{SurfaceView, to_surface_view}

pub record Cache (F : Type 0) : Type 0 where
  pub by_market : Dict String (Dict String (SurfaceView F))
  pub log : List (Measurement F)

-- `status.value`
unfoldable pub status_value : SurfaceStatus → String
status_value ok_status = "OK"
status_value degraded_status = "DEGRADED"
status_value stale_republish = "STALE_REPUBLISH"

unfoldable pub is_republished : SurfaceStatus → Bool
is_republished ok_status = false
is_republished degraded_status = false
is_republished stale_republish = true

-- `ProducerSurfaces.__init__`
unfoldable pub producer_surfaces : String → Result String
producer_surfaces producer = if producer == "" then err value_error else ok producer

module _ {F : Type 0} where
  abbrev pub empty_cache : Cache F
  empty_cache = record { by_market = []; log = [] }

  -- `self._by_market.get(market_id, {})`
  unfoldable pub slots : Cache F → String → Dict String (SurfaceView F)
  slots c market = elim (get c.by_market market) [ none ↦ [] | some held ↦ held ]

  -- `self._by_market.setdefault(view.market_id, {})[view.producer_id] = view`
  unfoldable pub store : SurfaceView F → Cache F → Cache F
  store v c = record c {
    by_market = put c.by_market v.market_id (put (slots c v.market_id) v.producer_id v);
  }

  unfoldable pub for_producer : Cache F → String → String → Option (SurfaceView F)
  for_producer c market producer = get (slots c market) producer

  -- `max(views, key=ts_snapshot)`: the first of the newest.
  unfoldable pub newest_from : SurfaceView F → Dict String (SurfaceView F) → SurfaceView F
  newest_from best [] = best
  newest_from best ((p, v) ∷ held) =
      newest_from (if before best.ts_snapshot v.ts_snapshot then v else best) held

  unfoldable pub newest : Dict String (SurfaceView F) → Option (SurfaceView F)
  newest [] = none
  newest ((p, v) ∷ held) = some (newest_from v held)

  unfoldable pub latest : Cache F → String → Option (SurfaceView F)
  latest c market = newest (slots c market)

  -- `ProducerSurfaces.latest`, with the producer that it pins
  unfoldable pub latest_pinned : String → Cache F → String → Option (SurfaceView F)
  latest_pinned producer c market = for_producer c market producer

module _ {F : Type 0} ⦃f : Float F⦄ where
  -- `elapsed.total_seconds() * MILLISECONDS_PER_SECOND`
  unfoldable pub milliseconds : ℤ → F
  milliseconds d = f.mul (f.seconds d) (f.of_ℕ 1_000)

  -- `_observe`: what it sends to the sink.
  unfoldable pub observe : CalibratedSurface F → Instant → List (Measurement F)
  unfolding milliseconds status_value is_republished
  observe s now =
      let tags : Tags = ("market", s.market_id) ∷ ("producer", s.producer_id) ∷ [] in
      counter "risk.surface.received" 1 (("status", status_value s.status) ∷ tags)
      ∷ (if is_republished s.status
          then []
          else timing "risk.surface.snapshot_to_surface_ms"
              (milliseconds (elapsed s.ts_calibrated s.ts_snapshot)) tags
            ∷ timing "risk.surface.delivery_lag_ms" (milliseconds (elapsed now s.ts_calibrated))
                tags
            ∷ [])

  -- `accept` after the translation.
  unfoldable pub accept_view :
      Result (SurfaceView F) → CalibratedSurface F → Instant → Cache F → Result (Unit {0}) × Cache F
  unfolding store
  accept_view (err e) s now c = (err e, c)
  accept_view (ok v) s now c = (ok tt, store v (record c { log = c.log ++ observe s now }))

  -- `accept`: translate, observe, store.
  unfoldable pub accept : CalibratedSurface F → Instant → Cache F → Result (Unit {0}) × Cache F
  accept s now c = accept_view (to_surface_view s) s now c
