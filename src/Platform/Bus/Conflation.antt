-- ===== src/Platform/Bus/Conflation.antt =====
-- What the bus promises over a session: the newest event wins, no mailbox breaks its protocol, and
-- every event that is lost is counted.
use volengine.Base.{
  ℕ, zero, suc, ◌+◌, map, String, ◌≡◌, ◌≢◌, refl, ap, ◌∙◌, inl, inr, some, List, [], ◌∷◌, ◌++◌,
  arith, get_elem?, set, Option-cases, get_elem?-set_self,
}
use text.Mathlib.TextEquality.{eq_iff}
use volengine.Base.Keys.{string_key}
use volengine.Platform.Metrics.{counter, total}
use volengine.Platform.Bus.{
  Mailbox, Bus, Received, waiting, event, broken, empty, put_event, publish, receive, receive_event,
  take_slot,
}
use volengine.Platform.Bus.Wiring.{put_if, put_where, drops, publish_lem}
use volengine.Platform.Bus.Sessions.{
  Op, send, step, run, IsSound, IsFlagged-at, receive-missing, receive-found, step-IsSound,
  run-IsSound, empty-IsSound,
}
use volengine.Platform.Bus.Balance.{
  found-lt, receive_event-ne-broken, pending, handed_all, taken_all, run-balance,
}

module _ {E : Type 0} where
  get_elem?-put_where :
      (topic : String) (e : E) (ms : List (Mailbox E)) (id : ℕ) (m : Mailbox E)
      → get_elem? ms id ≡ some m
      → get_elem? (put_where topic e ms) id ≡ some (put_if topic e m)
  unfolding put_where
  get_elem?-put_where topic e [] id m found = cc
  get_elem?-put_where topic e (x ∷ ms) zero m found = ground arith
  get_elem?-put_where topic e (x ∷ ms) (suc id) m found = get_elem?-put_where topic e ms id m found

  topic-put_if : (topic : String) (e : E) (m : Mailbox E) → (put_if topic e m).topic ≡ m.topic
  unfolding put_if put_event
  topic-put_if topic e m = ground arith

  put_if_same :
      (e : E) (m : Mailbox E) (topic : String) → m.topic ≡ topic → put_if topic e m ≡ put_event e m
  unfolding put_if
  put_if_same e m topic h = rw ((eq_iff m.topic topic).1 h)

module _ {F E : Type 0} where
  -- The mailbox at a position keeps its topic, whatever is published.
  get_elem?-sends :
      (topic : String) (older : List E) (id : ℕ) (m : Mailbox E) (b : Bus F E)
      → IsSound b
      → get_elem? b.boxes id ≡ some m
      → (m' : Mailbox E) × (get_elem? (run (map (send topic) older) b).boxes id ≡ some m')
        × (m'.topic ≡ m.topic)
  unfolding run step
  get_elem?-sends topic [] id m b h found = (m, found, refl)
  get_elem?-sends topic (e ∷ older) id m b h found =
      let moved : get_elem? (publish topic e b).boxes id ≡ some (put_if topic e m) =
        rw (publish_lem topic e b h.wired) (get_elem?-put_where topic e b.boxes id m found) in
      let (m', found', same) =
        get_elem?-sends topic older id (put_if topic e m) (publish topic e b)
          (step-IsSound (send topic e) b h) moved in
      (m', found', same ∙ topic-put_if topic e m)

  -- The first receive after a publication has its event, and empties the mailbox.
  receive-publish :
      (e : E) (id : ℕ) (m : Mailbox E) (topic : String) (b : Bus F E)
      → IsSound b
      → get_elem? b.boxes id ≡ some m
      → m.topic ≡ topic
      → ((receive id (publish topic e b)).0 ≡ event e)
        × ((receive id (receive id (publish topic e b)).1).0 ≡ waiting)
  receive-publish e id m topic b h found same =
      let sent = publish topic e b in
      let full : get_elem? sent.boxes id ≡ some (put_event e m) =
        rw (publish_lem topic e b h.wired)
          (get_elem?-put_where topic e b.boxes id m found ∙ ap some (put_if_same e m topic same)) in
      let drained : Mailbox E = (receive_event (put_event e m)).1 in
      let first = receive-found id (put_event e m) sent full in
      let empty_box : get_elem? (set sent.boxes id drained) id ≡ some drained =
        get_elem?-set_self sent.boxes id drained (found-lt sent.boxes id full) in
      let second =
        receive-found id drained (record sent { boxes = set sent.boxes id drained }) empty_box in
      (
        ap (λ (r : Received E × Bus F E). r.0) first
            ∙ unfold receive_event put_event take_slot in refl,
        ap (λ (r : Received E × Bus F E). (receive id r.1).0) first
            ∙ ap (λ (r : Received E × Bus F E). r.0) second
            ∙ unfold receive_event put_event in refl,
      )

module _ (F E : Type 0) where
  abbrev pub session : List (Op E) → Bus F E
  session ops = run ops empty

  pub session-IsSound : (ops : List (Op E)) → IsSound (session ops)
  session-IsSound ops = run-IsSound ops empty empty-IsSound

  -- In any session no receive ever finds the flag up over an empty slot, so `RuntimeError` is never
  -- raised.
  pub receive-session_ne_broken :
      (ops : List (Op E)) (id : ℕ) → (receive id (session ops)).0 ≢ broken
  receive-session_ne_broken ops id =
      let b = session ops in
      let h = session-IsSound ops in
      elim (Option-cases (get_elem? b.boxes id)) [
        | inl gone ↦ rw (receive-missing id b gone) (λ e. cc)
        | inr (m, found) ↦
            rw (receive-found id m b found)
              (receive_event-ne-broken m (IsFlagged-at b.boxes id m h.flagged found))
      ]

  -- In any session a publication puts its event into every mailbox of its topic, changes no other
  -- mailbox, and reports itself and then one drop for each pending event that it overwrites.
  pub publish-session :
      (ops : List (Op E)) (topic : String) (e : E)
      → publish topic e (session ops) ≡ record (session ops) {
        boxes = put_where topic e (session ops).boxes;
        log =
            (session ops).log
            ++ counter "bus.published" 1 (("topic", topic) ∷ []) ∷ drops topic (session ops).boxes;
      }
  publish-session ops topic e = publish_lem topic e (session ops) (session-IsSound ops).wired

  -- After any session and any run of publications on a mailbox's topic, the next receive returns the
  -- last event published, and the receive after it waits.
  pub newest_wins :
      (ops : List (Op E)) (id : ℕ) (m : Mailbox E) (older : List E) (e : E)
      → get_elem? (session ops).boxes id ≡ some m
      → let b = publish m.topic e (run (map (send m.topic) older) (session ops)) in
        ((receive id b).0 ≡ event e) × ((receive id (receive id b).1).0 ≡ waiting)
  newest_wins ops id m older e found =
      let b = session ops in
      let sound = run-IsSound (map (send m.topic) older) b (session-IsSound ops) in
      let (m', found', same) = get_elem?-sends m.topic older id m b (session-IsSound ops) found in
      receive-publish e id m' m.topic (run (map (send m.topic) older) b) sound found' same

  -- In any session the events handed to mailboxes are those received, those pending and those that
  -- `bus.dropped` counts: no event is lost in silence.
  pub drops_counted :
      (ops : List (Op E))
      → total "bus.dropped" (session ops).log
          + pending (session ops).boxes
          + taken_all ops (empty {F = F})
        ≡ handed_all ops (empty {F = F})
  drops_counted ops =
      run-balance ops (empty {F = F}) empty-IsSound ∙ unfold total pending in (omega arith)
