-- ===== src/Neural/Training/Restarts.antt =====
-- The clock of `TrainingState`: when a restart of the network falls due.
use volengine.Base.{◌≡◌, refl, ap, List, [], ◌∷◌, some}
use volengine.Base.Instants.{Instant, elapsed}
use volengine.Base.Floats.{Float}
use volengine.Neural.Training.{
  TrainingState, untrained, trained, restarted, is_restart_due, first_or,
}

module _ {F L : Type 0} ⦃f : Float F⦄ where
  -- The cycles after one another, each with its network and its instant.
  unfoldable pub run_cycles : List (L × Instant) → TrainingState F L → TrainingState F L
  run_cycles [] s = s
  run_cycles ((surface, now) ∷ cycles) s = run_cycles cycles (trained surface now s)

  clock_kept :
      (cycles : List (L × Instant)) (s : TrainingState F L) (t : Instant)
      → s.last_restart ≡ some t
      → (run_cycles cycles s).last_restart ≡ some t
  unfolding run_cycles trained first_or
  clock_kept [] s t h = h
  clock_kept ((surface, now) ∷ cycles) s t h =
      clock_kept cycles (trained surface now s) t (ap (λ o. first_or o now) h)

  due :
      (s : TrainingState F L) (now t : Instant) (restart_seconds : F)
      → s.last_restart ≡ some t
      → is_restart_due s now (some restart_seconds)
        ≡ f.le restart_seconds (f.seconds (elapsed now t))
  unfolding is_restart_due
  due s now t restart_seconds h = rw h refl

  -- Whatever cycles run, they postpone no restart: it is due when the time since the last restart, or
  -- since the first cycle when none was done, has reached the period.
  pub is_restart_due_lem :
      (cycles : List (L × Instant)) (surface : L) (s : TrainingState F L) (now t : Instant)
      (restart_seconds : F)
      → (is_restart_due (run_cycles cycles (restarted t s)) now (some restart_seconds)
          ≡ f.le restart_seconds (f.seconds (elapsed now t)))
        × (is_restart_due (run_cycles ((surface, t) ∷ cycles) untrained) now (some restart_seconds)
            ≡ f.le restart_seconds (f.seconds (elapsed now t)))
  unfolding run_cycles restarted trained first_or
  is_restart_due_lem cycles surface s now t restart_seconds = (
    due (run_cycles cycles (restarted t s)) now t restart_seconds
        (clock_kept cycles (restarted t s) t refl),
    due (run_cycles cycles (trained surface t untrained)) now t restart_seconds
        (clock_kept cycles (trained surface t untrained) t refl),
  )
