-- ===== src/Platform/Examples.antt =====
-- The theorems of the platform at concrete sessions.
use volengine.Base.{
  ℕ, zero, suc, ◌+◌, ◌≡◌, ◌≢◌, refl, String, List, [], ◌∷◌, ◌++◌, some, true, map, get_elem?,
}
use volengine.Base.Fixed.{Fixed, fixed_float}
use volengine.Base.Dict.{get, put}
use volengine.Platform.Metrics.{total, counter}
use volengine.Platform.Bus.{
  Mailbox, Bus, waiting, event, broken, empty, subscribe, publish, receive, registered, deliver,
  deliver_all, put_event, dropped, receive_event, take_slot,
}
use volengine.Platform.Bus.Wiring.{put_where, drops}
use volengine.Platform.Bus.Sessions.{Op, open_box, send, fetch, step, run}
use volengine.Platform.Bus.Balance.{pending, handed_all, taken_all}
use volengine.Platform.Bus.Conflation.{
  session, newest_wins, drops_counted, receive-session_ne_broken, publish-session,
}
use volengine.Platform.Runner.{
  Outcome, returned, raised, running, handle_all, Uncancelled, run_survives, run as run_loop,
}

abbrev topic : String
topic = "surfaces"

abbrev two_subscribers : List (Op ℕ)
two_subscribers = open_box topic "risk" ∷ open_box topic "recorder" ∷ send topic 7 ∷ fetch 1 ∷ []

abbrev risk_box : Mailbox ℕ
risk_box = record { slot = some 7; ready = true; topic = topic; subscriber = "risk" }

risk_box_found : get_elem? (session Fixed ℕ two_subscribers).boxes 0 ≡ some risk_box
unfolding run step subscribe publish deliver_all deliver registered get put put_event dropped
    receive receive_event take_slot
risk_box_found = refl

abbrev sent_on : Bus Fixed ℕ
sent_on = publish topic 9 (run (map (send topic) (8 ∷ [])) (session Fixed ℕ two_subscribers))

newest_wins_example :
    ((receive 0 sent_on).0 ≡ event 9) × ((receive 0 (receive 0 sent_on).1).0 ≡ waiting)
newest_wins_example = newest_wins Fixed ℕ two_subscribers 0 risk_box (8 ∷ []) 9 risk_box_found

drops_counted_example :
    total "bus.dropped" (session Fixed ℕ two_subscribers).log
      + pending (session Fixed ℕ two_subscribers).boxes
      + taken_all two_subscribers (empty {F = Fixed})
    ≡ handed_all two_subscribers (empty {F = Fixed})
drops_counted_example = drops_counted Fixed ℕ two_subscribers

receive-session_ne_broken_example : (receive 0 (session Fixed ℕ two_subscribers)).0 ≢ broken
receive-session_ne_broken_example = receive-session_ne_broken Fixed ℕ two_subscribers 0

publish-session_example :
    publish topic 9 (session Fixed ℕ two_subscribers) ≡ record (session Fixed ℕ two_subscribers) {
      boxes = put_where topic 9 (session Fixed ℕ two_subscribers).boxes;
      log =
          (session Fixed ℕ two_subscribers).log
          ++ counter "bus.published" 1 (("topic", topic) ∷ [])
            ∷ drops topic (session Fixed ℕ two_subscribers).boxes;
    }
publish-session_example = publish-session Fixed ℕ two_subscribers topic 9

-- A handler that fails on zero and sums what it is given.
abbrev adder : ℕ → ℕ → Outcome × ℕ
adder zero s = (raised, s)
adder (suc n) s = (returned, suc n + s)

adder-Uncancelled : Uncancelled adder (3 ∷ 0 ∷ 4 ∷ []) 1
adder-Uncancelled = (λ e. cc, (λ e. cc, (λ e. cc, tt)))

run_survives_example :
    ((run_loop {F = Fixed} adder "risk" (3 ∷ 0 ∷ 4 ∷ []) 1 []).0 ≡ running)
    × ((run_loop {F = Fixed} adder "risk" (3 ∷ 0 ∷ 4 ∷ []) 1 []).1
        ≡ handle_all adder (3 ∷ 0 ∷ 4 ∷ []) 1)
    × (total "runner.handled" (run_loop {F = Fixed} adder "risk" (3 ∷ 0 ∷ 4 ∷ []) 1 []).2
          + total "runner.handler_failed"
              (run_loop {F = Fixed} adder "risk" (3 ∷ 0 ∷ 4 ∷ []) 1 []).2
        ≡ total {F = Fixed} "runner.handled" [] + total {F = Fixed} "runner.handler_failed" [] + 3)
run_survives_example = run_survives adder "risk" (3 ∷ 0 ∷ 4 ∷ []) 1 [] adder-Uncancelled
