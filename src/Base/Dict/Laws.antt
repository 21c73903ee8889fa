-- ===== src/Base/Dict/Laws.antt =====
-- What a dictionary holds after each operation, and that its keys stay distinct.
use mathlib.Core.Path.{◌≡◌, refl}
use mathlib.Core.Bool.{Bool, true, false, not}
use mathlib.Core.Option.{none, some}
use mathlib.Core.List.{List, [], ◌∷◌}
use native.Mathlib.Omega.{arith}
use volengine.Base.Tests.{if◌then◌else◌}
use volengine.Base.Keys.{Key, ◌==◌}
use volengine.Base.Dict.{Dict, get, has, put, restrict, remove, member, Distinct}

module _ {ℓ} {K : Type ℓ} ⦃e : Key K⦄ where
  -- A test that does not tell equal keys apart.
  abbrev pub Respects : (K → Bool) → Type ℓ
  Respects p = (a b : K) → (a == b) ≡ true → p a ≡ p b

  pub member-Respects : (js : List K) → Respects (λ k. member k js)
  unfolding member
  member-Respects [] a b h = refl
  member-Respects (j ∷ js) a b h =
      ground (arith, e.beq_sym j a, e.beq_sym j b, e.beq_congr a b j h, member-Respects js a b h)

  pub not_key-Respects : (k : K) → Respects (λ j. not (j == k))
  not_key-Respects k a b h = rw (e.beq_congr a b k h)

module _ {ℓ κ} {K : Type ℓ} {V : Type κ} ⦃e : Key K⦄ where
  pub get-congr : (d : Dict K V) (a b : K) → (a == b) ≡ true → get d a ≡ get d b
  unfolding get
  get-congr [] a b h = refl
  get-congr ((j, v) ∷ d) a b h =
      ground (arith, e.beq_sym j a, e.beq_sym j b, e.beq_congr a b j h, get-congr d a b h)

  pub get-put :
      (d : Dict K V) (k : K) (v : V) (j : K)
      → get (put d k v) j ≡ (if k == j then some v else get d j)
  unfolding get put
  get-put [] k v j = refl
  get-put ((i, w) ∷ d) k v j =
      ground (arith, e.beq_congr i k j, e.beq_congr i j k, e.beq_sym k j, get-put d k v j)

  pub get-restrict :
      (p : K → Bool) (d : Dict K V) (j : K)
      → Respects p
      → get (restrict p d) j ≡ (if p j then get d j else none)
  unfolding get restrict
  get-restrict p [] j r = ground arith
  get-restrict p ((i, v) ∷ d) j r = ground (arith, r i j, get-restrict p d j r)

  pub get-remove :
      (d : Dict K V) (k j : K) → get (remove d k) j ≡ (if j == k then none else get d j)
  unfolding remove
  get-remove d k j = ground (arith, get-restrict (λ (i : K). not (i == k)) d j (not_key-Respects k))

  pub put-Distinct : (d : Dict K V) (k : K) (v : V) → Distinct d → Distinct (put d k v)
  unfolding put has get
  put-Distinct [] k v h = (refl, tt)
  put-Distinct ((i, w) ∷ d) k v h =
      ground (arith, e.beq_sym i k, get-put d k v i, put-Distinct d k v h.1)

  has-restrict :
      (p : K → Bool) (d : Dict K V) (j : K) → has d j ≡ false → has (restrict p d) j ≡ false
  unfolding has get restrict
  has-restrict p [] j h = refl
  has-restrict p ((i, v) ∷ d) j h = ground (arith, has-restrict p d j)

  pub restrict-Distinct : (p : K → Bool) (d : Dict K V) → Distinct d → Distinct (restrict p d)
  unfolding restrict
  restrict-Distinct p [] h = tt
  restrict-Distinct p ((i, v) ∷ d) h =
      ground (arith, has-restrict p d i h.0, restrict-Distinct p d h.1)

  pub remove-Distinct : (d : Dict K V) (k : K) → Distinct d → Distinct (remove d k)
  unfolding remove
  remove-Distinct d k h = restrict-Distinct (λ j. not (j == k)) d h
