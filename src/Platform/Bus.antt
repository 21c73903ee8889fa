-- ===== src/Platform/Bus.antt =====
-- volengine/platform/bus.py. Mailboxes are shared objects: the bus holds them on a heap, `boxes`, and
-- both the topic table and the subscriber name one by its position there.
pub mod Wiring
pub mod Sessions
pub mod Balance
pub mod Conflation
use volengine.Base.{
  ℕ, ◌+◌, String, Bool, true, false, Option, none, some, List, [], ◌∷◌, ◌++◌, length, get_elem?,
  set, if◌then◌else◌,
}
use volengine.Base.Dict.{Dict, get, put}
use volengine.Base.Keys.{string_key}
use volengine.Platform.Metrics.{Measurement, counter}

-- `_Mailbox`: one slot, and the flag that says it may be read.
pub record Mailbox (E : Type 0) : Type 0 where
  pub slot : Option E
  pub ready : Bool
  pub topic : String
  pub subscriber : String

pub record Bus (F E : Type 0) : Type 0 where
  pub boxes : List (Mailbox E)
  pub mailboxes : Dict String (List ℕ)
  pub log : List (Measurement F)

-- What `await receive()` comes to: it is still waiting for the flag, it returns an event, or it raises
-- `RuntimeError` over an empty slot.
pub data Received (E : Type 0) : Type 0 where
  waiting : Received E
  event : E → Received E
  broken : Received E

module _ {F E : Type 0} where
  -- `_Mailbox.put`: the counter for the event that is destroyed, then the slot and the flag.
  unfoldable pub dropped : Mailbox E → List (Measurement F)
  dropped m = elim m.slot [
    | none ↦ []
    | some _ ↦ counter "bus.dropped" 1 (("topic", m.topic) ∷ ("subscriber", m.subscriber) ∷ []) ∷ []
  ]

module _ {E : Type 0} where
  unfoldable pub put_event : E → Mailbox E → Mailbox E
  put_event e m = record m { slot = some e; ready = true }

  -- `_Mailbox.receive`: waits for the flag, lowers it, takes the slot and empties it.
  unfoldable pub take_slot : Option E → Received E
  take_slot none = broken
  take_slot (some e) = event e

  unfoldable pub receive_event : Mailbox E → Received E × Mailbox E
  unfolding take_slot
  receive_event m =
      if m.ready then (take_slot m.slot, record m { slot = none; ready = false }) else (waiting, m)

abbrev pub ids_of : Option (List ℕ) → List ℕ
ids_of none = []
ids_of (some ids) = ids

module _ {F E : Type 0} where
  abbrev pub empty : Bus F E
  empty = record { boxes = []; mailboxes = []; log = [] }

  -- `self._mailboxes.get(topic, ())`
  unfoldable pub registered : Bus F E → String → List ℕ
  registered b topic = ids_of (get b.mailboxes topic)

  unfoldable pub subscribe : String → String → Bus F E → ℕ × Bus F E
  unfolding registered put
  subscribe topic subscriber b =
      let id = length b.boxes in
      let box : Mailbox E = record {
        slot = none;
        ready = false;
        topic = topic;
        subscriber = subscriber;
      } in
      (
        id,
        record b {
          boxes = b.boxes ++ box ∷ [];
          mailboxes = put b.mailboxes topic (registered b topic ++ id ∷ []);
        },
      )

  -- `mailbox.put(event)` for the mailbox at one position.
  unfoldable pub deliver : E → ℕ → Bus F E → Bus F E
  unfolding dropped put_event
  deliver e id b = elim (get_elem? b.boxes id) [
    | none ↦ b
    | some m ↦ record b { boxes = set b.boxes id (put_event e m); log = b.log ++ dropped m }
  ]

  -- The loop of `publish`.
  unfoldable pub deliver_all : E → List ℕ → Bus F E → Bus F E
  deliver_all e [] b = b
  deliver_all e (id ∷ ids) b = deliver_all e ids (deliver e id b)

  unfoldable pub publish : String → E → Bus F E → Bus F E
  publish topic e b =
      deliver_all e (registered b topic)
        (record b { log = b.log ++ counter "bus.published" 1 (("topic", topic) ∷ []) ∷ [] })

  -- `receive` on the mailbox at one position.
  unfoldable pub receive : ℕ → Bus F E → Received E × Bus F E
  unfolding receive_event
  receive id b = elim (get_elem? b.boxes id) [
    | none ↦ (waiting, b)
    | some m ↦ let (r, m') = receive_event m in (r, record b { boxes = set b.boxes id m' })
  ]
