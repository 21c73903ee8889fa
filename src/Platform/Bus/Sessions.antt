-- ===== src/Platform/Bus/Sessions.antt =====
-- A session of the bus: subscriptions, publications and receives in any order, from the empty bus.
-- Every session keeps the bus wired and each mailbox's flag in step with its slot.
use Prim.Native.Nat.add
use mathlib.Core.List.{append-nil}
use volengine.Base.{
  ℕ, zero, suc, ◌+◌, String, ◌≡◌, refl, ap, ◌∙◌, inl, inr, none, some, List, [], ◌∷◌, ◌++◌, arith,
  length, get_elem?, set, if◌then◌else◌, Bool-cases, Option-cases, is_some, All, All-append,
}
use text.Mathlib.TextEquality.{eq_iff}
use volengine.Base.Dict.{get}
use volengine.Base.Dict.Laws.{get-put}
use volengine.Base.Keys.{◌==◌, string_key}
use volengine.Platform.Bus.{
  Mailbox, Bus, waiting, empty, put_event, registered, subscribe, publish, receive, receive_event,
}
use volengine.Platform.Bus.Wiring.{positions, IsWired, put_if, put_where, publish_lem}

-- What the contexts do with the bus.
pub data Op (E : Type 0) : Type 0 where
  open_box : String → String → Op E
  send : String → E → Op E
  fetch : ℕ → Op E

module _ {F E : Type 0} where
  unfoldable pub step : Op E → Bus F E → Bus F E
  step (open_box topic subscriber) b = (subscribe topic subscriber b).1
  step (send topic e) b = publish topic e b
  step (fetch id) b = (receive id b).1

  unfoldable pub run : List (Op E) → Bus F E → Bus F E
  run [] b = b
  run (op ∷ ops) b = run ops (step op b)

-- The flag is up exactly when the slot is full.
abbrev pub IsFlagged : {E : Type 0} → Mailbox E → Type 0
IsFlagged m = m.ready ≡ is_some m.slot

pub record IsSound {F E : Type 0} (b : Bus F E) : Type 0 where
  pub wired : IsWired b
  pub flagged : All IsFlagged b.boxes

module _ {E : Type 0} where
  positions-append :
      (topic : String) (n : ℕ) (xs ys : List (Mailbox E))
      → positions topic n (xs ++ ys) ≡ positions topic n xs ++ positions topic (n + length xs) ys
  unfolding positions
  positions-append topic n [] ys =
      ap (λ (k : ℕ). positions topic k ys) (let e : n ≡ n + 0 = omega arith in e)
  positions-append topic n (m ∷ xs) ys =
      let e : suc n + length xs ≡ n + suc (length xs) = omega arith in
      ground (arith, rw e at (positions-append topic (suc n) xs ys))

  positions-set :
      (topic : String) (n : ℕ) (ms : List (Mailbox E)) (i : ℕ) (m m' : Mailbox E)
      → get_elem? ms i ≡ some m
      → m'.topic ≡ m.topic
      → positions topic n (set ms i m') ≡ positions topic n ms
  unfolding positions
  positions-set topic n [] i m m' found same = refl
  positions-set topic n (x ∷ ms) zero m m' found same = ground arith
  positions-set topic n (x ∷ ms) (suc i) m m' found same =
      rw (positions-set topic (suc n) ms i m m' found same)

  positions-put_where :
      (topic other : String) (e : E) (n : ℕ) (ms : List (Mailbox E))
      → positions topic n (put_where other e ms) ≡ positions topic n ms
  unfolding positions put_where put_if put_event
  positions-put_where topic other e n [] = refl
  positions-put_where topic other e n (m ∷ ms) =
      ground (arith, positions-put_where topic other e (suc n) ms)

  put_where-IsFlagged :
      (topic : String) (e : E) (ms : List (Mailbox E))
      → All IsFlagged ms
      → All IsFlagged (put_where topic e ms)
  unfolding put_where put_if put_event
  put_where-IsFlagged topic e [] h = tt
  put_where-IsFlagged topic e (m ∷ ms) h = ground (arith, put_where-IsFlagged topic e ms h.1)

  set-IsFlagged :
      (ms : List (Mailbox E)) (i : ℕ) (m : Mailbox E)
      → All IsFlagged ms
      → IsFlagged m
      → All IsFlagged (set ms i m)
  set-IsFlagged [] i m h f = tt
  set-IsFlagged (x ∷ ms) zero m h f = (f, h.1)
  set-IsFlagged (x ∷ ms) (suc i) m h f = (h.0, set-IsFlagged ms i m h.1 f)

  topic-receive_event : (m : Mailbox E) → (receive_event m).1.topic ≡ m.topic
  unfolding receive_event
  topic-receive_event m = ground arith

  receive_event-IsFlagged : (m : Mailbox E) → IsFlagged m → IsFlagged (receive_event m).1
  unfolding receive_event
  receive_event-IsFlagged m h = ground arith

  pub IsFlagged-at :
      (ms : List (Mailbox E)) (i : ℕ) (m : Mailbox E)
      → All IsFlagged ms
      → get_elem? ms i ≡ some m
      → IsFlagged m
  IsFlagged-at [] i m h found = cc
  IsFlagged-at (x ∷ ms) zero m h found = ground arith
  IsFlagged-at (x ∷ ms) (suc i) m h found = IsFlagged-at ms i m h.1 found

module _ {F E : Type 0} where
  registered-subscribe :
      (topic subscriber : String) (b : Bus F E) (t : String)
      → registered (subscribe topic subscriber b).1 t
        ≡ registered b t ++ (if topic == t then length b.boxes ∷ [] else [])
  unfolding subscribe registered
  registered-subscribe topic subscriber b t =
      let found = get-put b.mailboxes topic (registered b topic ++ length b.boxes ∷ []) t in
      elim (Bool-cases (topic == t)) [
        | inl same ↦ let e : topic ≡ t = (eq_iff topic t).0 same in rw (found, same, e)
        | inr other ↦ rw (found, other, append-nil)
      ]

  subscribe-IsSound :
      (topic subscriber : String) (b : Bus F E)
      → IsSound b
      → IsSound (subscribe topic subscriber b).1
  unfolding subscribe positions
  subscribe-IsSound topic subscriber b h = record {
    wired = λ t.
        registered-subscribe topic subscriber b t
        ∙ rw (h.wired t, positions-append t 0 b.boxes) (ground (arith, add.zero (length b.boxes)));
    flagged = All-append IsFlagged b.boxes _ h.flagged (refl, tt);
  }

  publish-IsSound : (topic : String) (e : E) (b : Bus F E) → IsSound b → IsSound (publish topic e b)
  unfolding registered
  publish-IsSound topic e b h = rw (publish_lem topic e b h.wired) (record {
    wired = λ t. rw (positions-put_where t topic e 0 b.boxes) (h.wired t);
    flagged = put_where-IsFlagged topic e b.boxes h.flagged;
  })

  pub receive-missing :
      (id : ℕ) (b : Bus F E) → get_elem? b.boxes id ≡ none → receive id b ≡ (waiting, b)
  unfolding receive
  receive-missing id b gone = rw (gone, receive)

  pub receive-found :
      (id : ℕ) (m : Mailbox E) (b : Bus F E)
      → get_elem? b.boxes id ≡ some m
      → receive id b
        ≡ ((receive_event m).0, record b { boxes = set b.boxes id (receive_event m).1 })
  unfolding receive
  receive-found id m b found = rw (found, receive)

  boxes-IsSound :
      (id : ℕ) (m m' : Mailbox E) (b : Bus F E)
      → IsSound b
      → get_elem? b.boxes id ≡ some m
      → m'.topic ≡ m.topic
      → IsFlagged m'
      → IsSound (record b { boxes = set b.boxes id m' })
  unfolding registered
  boxes-IsSound id m m' b h found same f = record {
    wired = λ t. rw (positions-set t 0 b.boxes id m m' found same) (h.wired t);
    flagged = set-IsFlagged b.boxes id m' h.flagged f;
  }

  receive-IsSound : (id : ℕ) (b : Bus F E) → IsSound b → IsSound (receive id b).1
  receive-IsSound id b h = elim (Option-cases (get_elem? b.boxes id)) [
    | inl gone ↦ rw (receive-missing id b gone) h
    | inr (m, found) ↦ rw (receive-found id m b found) (
        boxes-IsSound id m (receive_event m).1 b h found (topic-receive_event m)
          (receive_event-IsFlagged m (IsFlagged-at b.boxes id m h.flagged found)))
  ]

  pub step-IsSound : (op : Op E) (b : Bus F E) → IsSound b → IsSound (step op b)
  unfolding step
  step-IsSound (open_box topic subscriber) b h = subscribe-IsSound topic subscriber b h
  step-IsSound (send topic e) b h = publish-IsSound topic e b h
  step-IsSound (fetch id) b h = receive-IsSound id b h

  pub run-IsSound : (ops : List (Op E)) (b : Bus F E) → IsSound b → IsSound (run ops b)
  unfolding run
  run-IsSound [] b h = h
  run-IsSound (op ∷ ops) b h = run-IsSound ops (step op b) (step-IsSound op b h)

pub empty-IsSound : {F E : Type 0} → IsSound (empty {F = F} {E = E})
unfolding registered positions get
empty-IsSound = record { wired = λ t. refl; flagged = tt }
