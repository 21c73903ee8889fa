-- ===== src/Platform/Bus/Balance.antt =====
-- The books of a session: events handed to mailboxes, taken out, pending, and counted as dropped.
use volengine.Base.{
  ℕ, zero, suc, ◌+◌, ◌<◌, String, ◌≡◌, ◌≢◌, refl, sym, subst, inl, inr, false, none, some, List, [],
  ◌∷◌, ◌++◌, arith, length, get_elem?, set, if◌then◌else◌, Bool-cases, Option-cases, is_some,
}
use volengine.Base.Keys.{◌==◌, string_key}
use volengine.Platform.Metrics.{Measurement, counter, total, total-append}
use volengine.Platform.Bus.{
  Mailbox, Bus, Received, waiting, event, broken, dropped, put_event, registered, subscribe,
  receive, receive_event,
}
use volengine.Platform.Bus.Wiring.{positions, put_if, put_where, drops, publish_lem}
use volengine.Platform.Bus.Sessions.{
  Op, open_box, send, fetch, step, run, IsFlagged, IsSound, IsFlagged-at, receive-missing,
  receive-found, step-IsSound,
}

pub found-lt : {A : Type 0} {a : A} (xs : List A) (i : ℕ) → get_elem? xs i ≡ some a → i < length xs
found-lt [] i h = cc
found-lt (x ∷ xs) zero h = omega arith
found-lt (x ∷ xs) (suc i) h = omega (arith, found-lt xs i h)

module _ {E : Type 0} where
  pub receive_event-ne-broken : (m : Mailbox E) → IsFlagged m → (receive_event m).0 ≢ broken
  unfolding receive_event
  receive_event-ne-broken m h = ground arith

  -- One slot for each mailbox that holds an event.
  unfoldable pub pending : List (Mailbox E) → ℕ
  pending [] = 0
  pending (m ∷ ms) = (if is_some m.slot then 1 else 0) + pending ms

  pending-append : (xs ys : List (Mailbox E)) → pending (xs ++ ys) ≡ pending xs + pending ys
  unfolding pending
  pending-append [] ys = omega arith
  pending-append (m ∷ xs) ys = omega (arith, pending-append xs ys)

  unfoldable pub is_event : Received E → ℕ
  is_event waiting = 0
  is_event (event e) = 1
  is_event broken = 0

  pending-receive_event :
      (ms : List (Mailbox E)) (id : ℕ) (m : Mailbox E)
      → get_elem? ms id ≡ some m
      → IsFlagged m
      → pending (set ms id (receive_event m).1) + is_event (receive_event m).0 ≡ pending ms
  unfolding pending receive_event is_event
  pending-receive_event [] id m found f = cc
  pending-receive_event (x ∷ ms) zero m found f = ground arith
  pending-receive_event (x ∷ ms) (suc id) m found f =
      omega (arith, pending-receive_event ms id m found f)

module _ (F : Type 0) where
  published_total :
      (topic : String) (log : List (Measurement F))
      → total "bus.dropped" (counter "bus.published" 1 (("topic", topic) ∷ []) ∷ log)
        ≡ total "bus.dropped" log
  unfolding total
  published_total topic log = omega arith

module _ (F : Type 0) {E : Type 0} where
  total-dropped :
      (m : Mailbox E) → total "bus.dropped" (dropped {F = F} m) ≡ (if is_some m.slot then 1 else 0)
  unfolding dropped total
  total-dropped m = ground arith

  -- A put either fills a mailbox or is matched by one counted drop.
  pending-put_where :
      (topic : String) (e : E) (n : ℕ) (ms : List (Mailbox E))
      → total "bus.dropped" (drops {F = F} topic ms) + pending (put_where topic e ms)
        ≡ pending ms + length (positions topic n ms)
  unfolding pending put_where put_if drops positions put_event
  pending-put_where topic e n [] = unfold total in refl
  pending-put_where topic e n (m ∷ ms) = elim (Bool-cases (m.topic == topic)) [
    | inl same ↦ rw same (
        omega (
          arith,
          total-dropped m,
          pending-put_where topic e (suc n) ms,
          total-append "bus.dropped" (dropped {F = F} m) (drops topic ms),
        ))
    | inr other ↦ rw other (omega (arith, pending-put_where topic e (suc n) ms))
  ]

module _ {F E : Type 0} where
  -- How many mailboxes an operation hands an event to, and how many events it takes out.
  unfoldable pub handed : Op E → Bus F E → ℕ
  handed (send topic e) b = length (registered b topic)
  handed (open_box topic subscriber) b = 0
  handed (fetch id) b = 0

  unfoldable pub taken : Op E → Bus F E → ℕ
  taken (fetch id) b = is_event (receive id b).0
  taken (send topic e) b = 0
  taken (open_box topic subscriber) b = 0

  unfoldable pub handed_all : List (Op E) → Bus F E → ℕ
  handed_all [] b = 0
  handed_all (op ∷ ops) b = handed op b + handed_all ops (step op b)

  unfoldable pub taken_all : List (Op E) → Bus F E → ℕ
  taken_all [] b = 0
  taken_all (op ∷ ops) b = taken op b + taken_all ops (step op b)

  step-balance :
      (op : Op E) (b : Bus F E)
      → IsSound b
      → total "bus.dropped" (step op b).log + pending (step op b).boxes + taken op b
        ≡ total "bus.dropped" b.log + pending b.boxes + handed op b
  unfolding step handed taken
  step-balance (open_box topic subscriber) b h =
      let new : List (Mailbox E) =
        record { slot = none; ready = false; topic = topic; subscriber = subscriber } ∷ [] in
      unfold subscribe in (rw (pending-append b.boxes new) (unfold pending in (omega arith)))
  step-balance (send topic e) b h =
      rw (publish_lem topic e b h.wired, h.wired topic)
        (omega (
          arith,
          total-append "bus.dropped" b.log
              (counter "bus.published" 1 (("topic", topic) ∷ []) ∷ drops topic b.boxes),
          published_total F topic (drops topic b.boxes),
          pending-put_where F topic e 0 b.boxes,
        ))
  step-balance (fetch id) b h = elim (Option-cases (get_elem? b.boxes id)) [
    | inl gone ↦ subst balanced (sym (receive-missing id b gone)) (unfold is_event in (omega arith))
    | inr (m, found) ↦ subst balanced (sym (receive-found id m b found)) (
        omega (
          arith,
          pending-receive_event b.boxes id m found (IsFlagged-at b.boxes id m h.flagged found),
        ))
  ]
    where
      balanced : Received E × Bus F E → Type 0
      balanced r =
          total "bus.dropped" r.1.log + pending r.1.boxes + is_event r.0
          ≡ total "bus.dropped" b.log + pending b.boxes + 0

  pub run-balance :
      (ops : List (Op E)) (b : Bus F E)
      → IsSound b
      → total "bus.dropped" (run ops b).log + pending (run ops b).boxes + taken_all ops b
        ≡ total "bus.dropped" b.log + pending b.boxes + handed_all ops b
  unfolding run handed_all taken_all
  run-balance [] b h = refl
  run-balance (op ∷ ops) b h =
      omega (arith, step-balance op b h, run-balance ops (step op b) (step-IsSound op b h))
