-- ===== src/Risk/SurfaceCache/Slots.antt =====
-- Every producer of a market has its own slot, which holds its newest surface.
use volengine.Base.{
  String, ◌≡◌, ◌∙◌, refl, ap, some, ◌++◌, arith, ◌&&◌, inl, inr, if◌then◌else◌, Bool-cases,
}
use text.Mathlib.TextEquality.{eq_iff}
use volengine.Base.Results.{ok}
use volengine.Base.Instants.{Instant}
use volengine.Base.Floats.{Float}
use volengine.Base.Keys.{◌==◌, string_key}
use volengine.Base.Dict.{put}
use volengine.Base.Dict.Laws.{get-put}
use volengine.Contracts.Surface.{CalibratedSurface}
use volengine.Risk.SurfaceView.{SurfaceView, to_surface_view, surface_view, view_fields}
use volengine.Risk.SurfaceCache.{Cache, slots, store, for_producer, observe, accept, accept_view}

module _ {F : Type 0} where
  slots-store :
      (v : SurfaceView F) (c : Cache F) (market : String)
      → slots (store v c) market ≡ (
          if v.market_id == market
          then put (slots c v.market_id) v.producer_id v
          else slots c market)
  unfolding slots store
  slots-store v c market =
      ground
        (arith, get-put c.by_market v.market_id (put (slots c v.market_id) v.producer_id v) market)

  for_producer-store :
      (v : SurfaceView F) (c : Cache F) (market producer : String)
      → for_producer (store v c) market producer ≡ (
          if (v.market_id == market) && (v.producer_id == producer)
          then some v
          else for_producer c market producer)
  unfolding for_producer
  for_producer-store v c market producer = elim (Bool-cases (v.market_id == market)) [
    | inl same ↦
        rw (slots-store v c market, same, get-put)
          (ground (arith, (eq_iff v.market_id market).0 same))
    | inr other ↦ rw (slots-store v c market, other)
  ]

module _ {F : Type 0} ⦃f : Float F⦄ where
  -- The translation keeps the surface's own identity.
  to_surface_view-eq :
      (s : CalibratedSurface F) (v : SurfaceView F) → to_surface_view s ≡ ok v → v ≡ view_fields s
  unfolding to_surface_view surface_view
  to_surface_view-eq s v h = ground arith

  accepted-eq :
      (s : CalibratedSurface F) (now : Instant) (c : Cache F) (v : SurfaceView F)
      → to_surface_view s ≡ ok v
      → (accept s now c).1 ≡ store v (record c { log = c.log ++ observe s now })
  unfolding accept accept_view
  accepted-eq s now c v made = rw made

  -- After a surface that translates is accepted, the slot of its market and producer holds its view,
  -- and every other slot, of another producer or of another market, holds what it held.
  pub for_producer-accept :
      (s : CalibratedSurface F) (now : Instant) (c : Cache F) (v : SurfaceView F)
      (market producer : String)
      → to_surface_view s ≡ ok v
      → for_producer (accept s now c).1 market producer ≡ (
          if (s.market_id == market) && (s.producer_id == producer)
          then some (view_fields s)
          else for_producer c market producer)
  for_producer-accept s now c v market producer made =
      ap (λ (d : Cache F). for_producer d market producer) (accepted-eq s now c v made)
      ∙ for_producer-store v (record c { log = c.log ++ observe s now }) market producer
      ∙ rw (to_surface_view-eq s v made) (unfold for_producer slots view_fields in refl)
