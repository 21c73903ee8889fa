-- ===== src/Pricing/State/WarmStart.antt =====
-- Where the next fit starts, expiry by expiry.
use volengine.Base.{
  ◌≡◌, refl, ◌∙◌, ap, true, false, Option, none, some, List, [], ◌∷◌, arith, if◌then◌else◌, All,
}
use volengine.Base.Instants.{Instant}
use volengine.Base.Keys.{◌==◌, instant_key}
use volengine.Base.Dict.{Dict, get, put, restrict, member, Distinct}
use volengine.Base.Dict.Laws.{
  get-put, get-restrict, member-Respects, put-Distinct, restrict-Distinct,
}
use volengine.Pricing.State.{SliceResult, CalibrationState, record_all, accept}

abbrev pub or_else : {P : Type 0} → Option P → Option P → Option P
or_else none o = o
or_else (some p) o = some p

module _ {F P : Type 0} where
  -- The parameters of the last slice of a list that has this expiry.
  unfoldable pub last_fit : List (SliceResult F P) → Instant → Option P
  last_fit [] t = none
  last_fit (r ∷ rs) t = elim (last_fit rs t) [
    | some p ↦ some p
    | none ↦ if r.expiry == t then some r.params else none
  ]

  get-record_all :
      (rs : List (SliceResult F P)) (d : Dict Instant P) (t : Instant)
      → get (record_all rs d) t ≡ or_else (last_fit rs t) (get d t)
  unfolding record_all last_fit
  get-record_all [] d t = refl
  get-record_all (r ∷ rs) d t =
      ground (arith, get-record_all rs (put d r.expiry r.params) t, get-put d r.expiry r.params t)

  -- After `accept` the warm start of an expiry is the parameters accepted for it last in this cycle;
  -- without any, it is what was held, if the expiry is still live, and nothing otherwise.
  pub get-accept :
      (accepted : List (SliceResult F P)) (live : List Instant) (s : CalibrationState F P)
      (t : Instant)
      → get (accept accepted live s).warm t
        ≡ or_else (last_fit accepted t) (if member t live then get s.warm t else none)
  unfolding accept
  get-accept accepted live s t =
      get-record_all accepted (restrict (λ e. member e live) s.warm) t
      ∙ ap (or_else (last_fit accepted t))
          (get-restrict (λ e. member e live) s.warm t (member-Respects live))

  last_fit-dead :
      (accepted : List (SliceResult F P)) (live : List Instant) (t : Instant)
      → All (λ r. member r.expiry live ≡ true) accepted
      → member t live ≡ false
      → last_fit accepted t ≡ none
  unfolding last_fit
  last_fit-dead [] live t h dead = refl
  last_fit-dead (r ∷ rs) live t h dead =
      ground (arith, last_fit-dead rs live t h.1 dead, member-Respects live r.expiry t)

  -- Memory is pruned: when the accepted slices are of expiries of the task, as a fit's are, no expiry
  -- outside the task keeps a warm start.
  pub get-accept_dead :
      (accepted : List (SliceResult F P)) (live : List Instant) (s : CalibrationState F P)
      (t : Instant)
      → All (λ r. member r.expiry live ≡ true) accepted
      → member t live ≡ false
      → get (accept accepted live s).warm t ≡ none
  get-accept_dead accepted live s t h dead =
      get-accept accepted live s t ∙ rw (last_fit-dead accepted live t h dead, dead)

  record_all-Distinct :
      (rs : List (SliceResult F P)) (d : Dict Instant P) → Distinct d → Distinct (record_all rs d)
  unfolding record_all
  record_all-Distinct [] d h = h
  record_all-Distinct (r ∷ rs) d h =
      record_all-Distinct rs (put d r.expiry r.params) (put-Distinct d r.expiry r.params h)

  -- Each expiry keeps one warm start, whatever the cycles.
  pub accept-Distinct :
      (accepted : List (SliceResult F P)) (live : List Instant) (s : CalibrationState F P)
      → Distinct s.warm
      → Distinct (accept accepted live s).warm
  unfolding accept
  accept-Distinct accepted live s h =
      record_all-Distinct accepted _ (restrict-Distinct (λ e. member e live) s.warm h)
