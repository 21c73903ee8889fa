-- ===== src/Base/Dict/Counting.antt =====
-- Predicates over the keys of a dictionary, and how many keys a list has room for.
use Prim.Native.Nat.{suc, ◌≤◌}
use mathlib.Core.Path.{◌≡◌, ◌∙◌}
use mathlib.Core.Logic.{inl, inr}
use mathlib.Core.Bool.{Bool, true, false}
use mathlib.Core.List.{List, [], ◌∷◌}
use native.Mathlib.Omega.{arith}
use volengine.Base.Tests.{if◌then◌else◌, Bool-cases}
use volengine.Base.Lists.{length}
use volengine.Base.Keys.{Key, ◌==◌}
use volengine.Base.Dict.{Dict, get, has, put, restrict, member, Distinct}

module _ {K : Type 0} ⦃e : Key K⦄ where
  -- a list without its first item that equals a key
  removed : K → List K → List K
  removed k [] = []
  removed k (j ∷ js) = if j == k then js else j ∷ removed k js

  length-removed :
      (k : K) (js : List K) → member k js ≡ true → suc (length (removed k js)) ≡ length js
  unfolding removed member
  length-removed k [] h = cc
  length-removed k (j ∷ js) h = ground (arith, length-removed k js)

  member-removed :
      (k i : K) (js : List K)
      → (k == i) ≡ false
      → member i js ≡ true
      → member i (removed k js) ≡ true
  unfolding removed member
  member-removed k i [] ne h = h
  member-removed k i (j ∷ js) ne h = ground (arith, e.beq_congr j k i, member-removed k i js)

module _ {K V : Type 0} ⦃e : Key K⦄ where
  abbrev pub AllKeys : (K → Type 0) → Dict K V → Type 0
  AllKeys P [] = Unit {0}
  AllKeys P ((k, v) ∷ d) = P k × AllKeys P d

  pub AllKeys-map :
      (P Q : K → Type 0) (d : Dict K V) → ((k : K) → P k → Q k) → AllKeys P d → AllKeys Q d
  AllKeys-map P Q [] f h = tt
  AllKeys-map P Q ((k, v) ∷ d) f h = (f k h.0, AllKeys-map P Q d f h.1)

  pub AllKeys-put :
      (P : K → Type 0) (d : Dict K V) (k : K) (v : V) → AllKeys P d → P k → AllKeys P (put d k v)
  unfolding put
  AllKeys-put P [] k v h p = (p, tt)
  AllKeys-put P ((j, w) ∷ d) k v h p = elim (Bool-cases (j == k)) [
    | inl same ↦ rw same h
    | inr other ↦ rw other (h.0, AllKeys-put P d k v h.1 p)
  ]

  pub AllKeys-restrict : (p : K → Bool) (d : Dict K V) → AllKeys (λ k. p k ≡ true) (restrict p d)
  unfolding restrict
  AllKeys-restrict p [] = tt
  AllKeys-restrict p ((k, v) ∷ d) = elim (Bool-cases (p k)) [
    | inl kept ↦ rw kept (kept, AllKeys-restrict p d)
    | inr gone ↦ rw gone (AllKeys-restrict p d)
  ]

  AllKeys-removed :
      (d : Dict K V) (k : K) (js : List K)
      → has d k ≡ false
      → AllKeys (λ i. member i js ≡ true) d
      → AllKeys (λ i. member i (removed k js) ≡ true) d
  unfolding has get
  AllKeys-removed [] k js fresh h = tt
  AllKeys-removed ((i, v) ∷ d) k js fresh h = elim (Bool-cases (i == k)) [
    | inl same ↦ absurd (ground arith)
    | inr other ↦
        let apart : (k == i) ≡ false = e.beq_sym k i ∙ other in
        (member-removed k i js apart h.0, AllKeys-removed d k js (ground arith) h.1)
  ]

  -- Distinct keys that all stand in a list are no more than its items.
  pub length-le-of_members :
      (d : Dict K V) (js : List K)
      → Distinct d
      → AllKeys (λ k. member k js ≡ true) d
      → length d ≤ length js
  length-le-of_members [] js h m = omega arith
  length-le-of_members ((k, v) ∷ d) js h m = omega (
    arith,
    length-removed k js m.0,
    length-le-of_members d (removed k js) h.1 (AllKeys-removed d k js h.0 m.1),
  )
