-- ===== src/Platform/Bus/Wiring.antt =====
-- The topic table of the bus names exactly the mailboxes of each topic, in the order of subscription,
-- so `publish` is one map over the mailboxes.
use mathlib.Core.List.{append-nil, append_assoc}
use volengine.Base.{
  ℕ, suc, String, ◌≡◌, refl, ap, sym, ◌∙◌, inl, inr, some, List, [], ◌∷◌, ◌++◌, length, get_elem?,
  set, if◌then◌else◌, Bool-cases,
}
use volengine.Base.Keys.{◌==◌, string_key}
use volengine.Platform.Metrics.{Measurement, counter}
use volengine.Platform.Bus.{
  Mailbox, Bus, dropped, put_event, registered, deliver, deliver_all, publish,
}

-- The positions, counted from `n`, of the mailboxes of a topic.
unfoldable pub positions : {E : Type 0} → String → ℕ → List (Mailbox E) → List ℕ
positions topic n [] = []
positions topic n (m ∷ ms) =
    if m.topic == topic then n ∷ positions topic (suc n) ms else positions topic (suc n) ms

-- The table and the heap of mailboxes agree.
abbrev pub IsWired : {F E : Type 0} → Bus F E → Type 0
IsWired b = (topic : String) → registered b topic ≡ positions topic 0 b.boxes

-- What `publish` does to one mailbox, and what it reports.
unfoldable pub put_if : {E : Type 0} → String → E → Mailbox E → Mailbox E
put_if topic e m = if m.topic == topic then put_event e m else m

unfoldable pub put_where : {E : Type 0} → String → E → List (Mailbox E) → List (Mailbox E)
put_where topic e [] = []
put_where topic e (m ∷ ms) = put_if topic e m ∷ put_where topic e ms

unfoldable pub drops : {F E : Type 0} → String → List (Mailbox E) → List (Measurement F)
drops topic [] = []
drops topic (m ∷ ms) = (if m.topic == topic then dropped m else []) ++ drops topic ms

module _ {E : Type 0} where
  get_elem?-middle :
      (pre : List (Mailbox E)) (m : Mailbox E) (ms : List (Mailbox E))
      → get_elem? (pre ++ m ∷ ms) (length pre) ≡ some m
  get_elem?-middle [] m ms = refl
  get_elem?-middle (p ∷ pre) m ms = get_elem?-middle pre m ms

  set-middle :
      (pre : List (Mailbox E)) (m m' : Mailbox E) (ms : List (Mailbox E))
      → set (pre ++ m ∷ ms) (length pre) m' ≡ pre ++ m' ∷ ms
  set-middle [] m m' ms = refl
  set-middle (p ∷ pre) m m' ms = ap (λ (r : List (Mailbox E)). p ∷ r) (set-middle pre m m' ms)

  length-snoc : (pre : List (Mailbox E)) (m : Mailbox E) → length (pre ++ m ∷ []) ≡ suc (length pre)
  length-snoc [] m = refl
  length-snoc (p ∷ pre) m = ap suc (length-snoc pre m)

module _ {F E : Type 0} where
  deliver-found :
      (e : E) (id : ℕ) (m : Mailbox E) (b : Bus F E)
      → get_elem? b.boxes id ≡ some m
      → deliver e id b
        ≡ record b { boxes = set b.boxes id (put_event e m); log = b.log ++ dropped m }
  unfolding deliver
  deliver-found e id m b h = rw (h, deliver)

  deliver-middle :
      (e : E) (pre : List (Mailbox E)) (m : Mailbox E) (ms : List (Mailbox E)) (b : Bus F E)
      → b.boxes ≡ pre ++ m ∷ ms
      → deliver e (length pre) b
        ≡ record b { boxes = pre ++ put_event e m ∷ ms; log = b.log ++ dropped m }
  unfolding deliver
  deliver-middle e pre m ms b h =
      let found : get_elem? b.boxes (length pre) ≡ some m = rw h (get_elem?-middle pre m ms) in
      let stored : set b.boxes (length pre) (put_event e m) ≡ pre ++ put_event e m ∷ ms =
        rw h (set-middle pre m (put_event e m) ms) in
      deliver-found e (length pre) m b found
      ∙ ap (λ (r : List (Mailbox E)). record b { boxes = r; log = b.log ++ dropped m }) stored

  -- Delivery to the positions of a topic, from some point of the heap on.
  deliver_all-positions :
      (topic : String) (e : E) (pre ms : List (Mailbox E)) (b : Bus F E)
      → b.boxes ≡ pre ++ ms
      → deliver_all e (positions topic (length pre) ms) b
        ≡ record b { boxes = pre ++ put_where topic e ms; log = b.log ++ drops topic ms }
  unfolding deliver_all positions put_where put_if drops
  deliver_all-positions topic e pre [] b h = rw (← h, append-nil)
  deliver_all-positions topic e pre (m ∷ ms) b h = elim (Bool-cases (m.topic == topic)) [
    | inl same ↦
        let b' : Bus F E = record b {
          boxes = pre ++ put_event e m ∷ ms;
          log = b.log ++ dropped m;
        } in
        let rest =
          deliver_all-positions topic e (pre ++ put_event e m ∷ []) ms b'
            (sym (append_assoc pre (put_event e m ∷ []) ms)) in
        let met = rw (length-snoc pre (put_event e m)) at rest in
        rw same (
          ap (deliver_all e (positions topic (suc (length pre)) ms)) (deliver-middle e pre m ms b h)
          ∙ met
          ∙ simp append_assoc)
    | inr other ↦
        let rest =
          deliver_all-positions topic e (pre ++ m ∷ []) ms b
            (h ∙ sym (append_assoc pre (m ∷ []) ms)) in
        let met = rw (length-snoc pre m) at rest in rw other (met ∙ simp append_assoc)
  ]

  -- On a wired bus a publication reaches every mailbox of its topic and no other one, and it reports
  -- itself and each pending event that it destroys.
  pub publish_lem :
      (topic : String) (e : E) (b : Bus F E)
      → IsWired b
      → publish topic e b ≡ record b {
        boxes = put_where topic e b.boxes;
        log = b.log ++ counter "bus.published" 1 (("topic", topic) ∷ []) ∷ drops topic b.boxes;
      }
  unfolding publish
  publish_lem topic e b wired =
      let told : Bus F E = record b {
        log = b.log ++ counter "bus.published" 1 (("topic", topic) ∷ []) ∷ [];
      } in
      rw (wired topic, deliver_all-positions topic e [] b.boxes told refl) (simp append_assoc)
