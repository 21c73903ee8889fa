-- ===== src/Platform/Runner.antt =====
-- volengine/platform/runner.py: `BusRunner`, one subscription and one handler. The handler is a
-- parameter: a coroutine over the state that it shares with the rest of the engine, which returns, or
-- raises an `Exception`, or is cancelled (`CancelledError`, which `except Exception` lets through).
use volengine.Base.{
  ℕ, ◌+◌, String, ◌≡◌, ◌≢◌, refl, List, [], ◌∷◌, ◌++◌, arith, if◌then◌else◌, length,
}
use volengine.Base.Results.{Result, ok, err, value_error}
use volengine.Base.Keys.{◌==◌, string_key}
use volengine.Platform.Metrics.{Measurement, counter, total, total-append}

pub data Outcome : Type 0 where
  returned raised cancelled : Outcome

-- The loop is still running, or its task has ended by cancellation.
pub data Loop : Type 0 where
  running stopped : Loop

-- `BusRunner.__init__`: a runner must be named.
unfoldable pub init_runner : String → Result String
init_runner name = if name == "" then err value_error else ok name

-- One more measurement that counts one.
counted :
    {F : Type 0} (log more : List (Measurement F))
    → total "runner.handled" more + total "runner.handler_failed" more ≡ 1
    → total "runner.handled" (log ++ more) + total "runner.handler_failed" (log ++ more)
      ≡ total "runner.handled" log + total "runner.handler_failed" log + 1
counted log more h =
    omega
      (arith, total-append "runner.handled" log more, total-append "runner.handler_failed" log more)

module _ {E S : Type 0} (handler : E → S → Outcome × S) where
  -- The handler alone, over the same events: the state that it leaves if nothing stops it.
  unfoldable pub handle_all : List E → S → S
  handle_all [] s = s
  handle_all (e ∷ es) s = handle_all es (handler e s).1

  -- The handler is not cancelled on these events, from this state.
  abbrev pub Uncancelled : List E → S → Type 0
  Uncancelled [] s = Unit {0}
  Uncancelled (e ∷ es) s = ((handler e s).0 ≢ cancelled) × Uncancelled es (handler e s).1

module _ {F E S : Type 0} (handler : E → S → Outcome × S) (name : String) where
  -- The `except` and the `else` of the loop.
  unfoldable pub settle : Outcome → List (Measurement F) → Loop × List (Measurement F)
  settle returned log =
      (running, log ++ counter "runner.handled" 1 (("subscriber", name) ∷ []) ∷ [])
  settle raised log =
      (running, log ++ counter "runner.handler_failed" 1 (("subscriber", name) ∷ []) ∷ [])
  settle cancelled log = (stopped, log)

  -- One round of `while True`, from the event that `receive` returned.
  unfoldable pub round : E → S → List (Measurement F) → Loop × S × List (Measurement F)
  round e s log =
      let (outcome, s') = handler e s in let (loop, log') = settle outcome log in (loop, s', log')

  -- `run`, over the events that its subscription gives it, in order.
  unfoldable pub run : List E → S → List (Measurement F) → Loop × S × List (Measurement F)
  run [] s log = (running, s, log)
  run (e ∷ es) s log =
      let (loop, s', log') = round e s log in
      elim loop [ stopped ↦ (stopped, s', log') | running ↦ run es s' log' ]

  abbrev accounted : List (Measurement F) → ℕ
  accounted log = total "runner.handled" log + total "runner.handler_failed" log

  accounted-settle :
      (o : Outcome) (log : List (Measurement F))
      → o ≢ cancelled
      → ((settle o log).0 ≡ running) × (accounted (settle o log).1 ≡ accounted log + 1)
  unfolding settle
  accounted-settle returned log h =
      let more = counter "runner.handled" 1 (("subscriber", name) ∷ []) ∷ [] in
      (refl, counted log more (unfold total in refl))
  accounted-settle raised log h =
      let more = counter "runner.handler_failed" 1 (("subscriber", name) ∷ []) ∷ [] in
      (refl, counted log more (unfold total in refl))
  accounted-settle cancelled log h = absurd (h refl)

  -- A handler that raises does not stop the loop: unless it is cancelled, every event reaches it, in
  -- order, and each one is counted once, as handled or as failed.
  pub run_survives :
      (es : List E) (s : S) (log : List (Measurement F))
      → Uncancelled handler es s
      → ((run es s log).0 ≡ running)
        × ((run es s log).1 ≡ handle_all handler es s)
        × (accounted (run es s log).2 ≡ accounted log + length es)
  unfolding run handle_all round
  run_survives [] s log h = (refl, refl, omega arith)
  run_survives (e ∷ es) s log h =
      let (alive, once) = accounted-settle (handler e s).0 log h.0 in
      let rest = run_survives es (handler e s).1 (settle (handler e s).0 log).1 h.1 in
      ground (arith, alive, once, rest)
