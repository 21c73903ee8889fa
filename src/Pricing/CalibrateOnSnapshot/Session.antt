-- ===== src/Pricing/CalibrateOnSnapshot/Session.antt =====
-- What a producer publishes over a session, against the protocol that its consumers rely on.
use volengine.Base.{◌≡◌, Option, none, some, List, [], ◌∷◌, ◌++◌}
use volengine.Base.Results.{Result, ok, err}
use volengine.Base.Floats.{Float, IsComparable}
use volengine.Contracts.Surface.{CalibratedSurface, stale_republish, as_stale_republish}
use volengine.Contracts.Snapshot.{MarketSnapshot}
use volengine.Contracts.Events.{Event, CalibrationFailed, surface_calibrated, calibration_failed}
use volengine.Pricing.State.{CalibrationState, accept, remember}
use volengine.Pricing.CalibrateOnSnapshot.{Wiring, Readings, Producer, handle}
use volengine.Pricing.CalibrateOnSnapshot.Outcomes.{
  Answered, raised, calibrated, refused_alone, refused_republished,
}
use volengine.Pricing.CalibrateOnSnapshot.Answers.{handle-Answered}

-- The protocol: from the last good surface before some events to the one after them. A surface is
-- fresh, or it is the last good one, marked, right behind the failure that it stands in for.
pub data Protocol {F : Type 0}
    : Option (CalibratedSurface F) → List (Event F) → Option (CalibratedSurface F) → Type 0 where
  silent : {last : Option (CalibratedSurface F)} → Protocol last [] last
  fresh :
      {last end : Option (CalibratedSurface F)} {events : List (Event F)} (x : CalibratedSurface F)
      → ¬ (x.status ≡ stale_republish)
      → Protocol (some x) events end
      → Protocol last (surface_calibrated x ∷ events) end
  failed_cold :
      {end : Option (CalibratedSurface F)} {events : List (Event F)} (c : CalibrationFailed)
      → Protocol none events end
      → Protocol none (calibration_failed c ∷ events) end
  failed_warm :
      {end : Option (CalibratedSurface F)} {events : List (Event F)} (c : CalibrationFailed)
      (last : CalibratedSurface F)
      → Protocol (some last) events end
      → Protocol
          (some last)
          (calibration_failed c ∷ surface_calibrated (as_stale_republish last) ∷ events)
          end

module _ {F : Type 0} where
  -- The events of a call; the runner survives a handler that raises.
  abbrev pub events_of : Result (List (Event F)) → List (Event F)
  events_of (err e) = []
  events_of (ok events) = events

  cold :
      {more : List (Event F)} {end : Option (CalibratedSurface F)} (c : CalibrationFailed)
      (last : Option (CalibratedSurface F))
      → last ≡ none
      → Protocol last more end
      → Protocol last (calibration_failed c ∷ more) end
  cold c none h rest = failed_cold c rest
  cold c (some x) h rest = cc

  warm :
      {more : List (Event F)} {end : Option (CalibratedSurface F)} (c : CalibrationFailed)
      (previous : CalibratedSurface F) (last : Option (CalibratedSurface F))
      → last ≡ some previous
      → Protocol last more end
      → Protocol last
          (calibration_failed c ∷ surface_calibrated (as_stale_republish previous) ∷ more)
          end
  warm c previous last h rest = rw h (failed_warm c previous (rw⁻¹ h rest))

module _ {F P : Type 0} ⦃f : Float F⦄ ⦃c : IsComparable F⦄ where
  answered-Protocol :
      {k : Wiring F P} {t : Readings} {s : MarketSnapshot F} {before after : CalibrationState F P}
      {r : Result (List (Event F))} {more : List (Event F)} {end : Option (CalibratedSurface F)}
      → Answered k t s before r after
      → Protocol after.last_good more end
      → Protocol before.last_good (events_of r ++ more) end
  unfolding remember accept
  answered-Protocol (raised because) rest = rest
  answered-Protocol (calibrated x accepted live h fit) rest = fresh x h.own_status rest
  answered-Protocol {before = before} (refused_alone failure told h) rest =
      cold failure before.last_good h rest
  answered-Protocol {before = before} (refused_republished failure previous told h) rest =
      warm failure previous before.last_good h rest

module _ {F P : Type 0} ⦃f : Float F⦄ ⦃c : IsComparable F⦄ where
  -- The snapshots of a session, each with the clock's readings.
  unfoldable pub session :
      Wiring F P → List (Readings × MarketSnapshot F) → Producer F P → List (Event F) × Producer F P
  session k [] p = ([], p)
  session k ((t, s) ∷ calls) p =
      let (r, p') = handle k t s p in
      let (more, p'') = session k calls p' in (events_of r ++ more, p'')

  -- A producer follows the protocol through any session, whatever its optimiser returns, refuses or
  -- raises: a surface marked as republished only ever follows a failure, and is the last one published
  -- unmarked, or the last good surface that the session started with while there is none; a failure is
  -- alone only while there is neither; and the last good surface that the state keeps at the end is
  -- found in the same way.
  pub session-Protocol :
      (k : Wiring F P) (calls : List (Readings × MarketSnapshot F)) (p : Producer F P)
      → Protocol p.state.last_good (session k calls p).0 (session k calls p).1.state.last_good
  unfolding session
  session-Protocol k [] p = silent
  session-Protocol k ((t, s) ∷ calls) p =
      answered-Protocol (handle-Answered k t s p) (session-Protocol k calls (handle k t s p).1)
