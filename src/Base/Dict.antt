-- ===== src/Base/Dict.antt =====
-- Python's `dict`: an association list in insertion order. Writing a key that is held replaces its
-- value in place, and keeps the key that is held.
pub mod Laws
pub mod Counting
use mathlib.Core.Path.{◌≡◌}
use mathlib.Core.Bool.{Bool, true, false, not}
use mathlib.Core.Option.{Option, none, some}
use mathlib.Core.List.{List, [], ◌∷◌}
use volengine.Base.Tests.{if◌then◌else◌, is_some}
use volengine.Base.Keys.{Key, ◌==◌}

abbrev pub Dict {ℓ κ} : Type ℓ → Type κ → Type (ℓ ⊔ κ)
Dict K V = List (K × V)

module _ {ℓ} {K : Type ℓ} ⦃e : Key K⦄ where
  -- k in keys
  unfoldable pub member : K → List K → Bool
  member k [] = false
  member k (j ∷ js) = if j == k then true else member k js

module _ {ℓ κ} {K : Type ℓ} {V : Type κ} ⦃e : Key K⦄ where
  -- d.get(k)
  unfoldable pub get : Dict K V → K → Option V
  get [] k = none
  get ((j, v) ∷ d) k = if j == k then some v else get d k

  -- k in d
  unfoldable pub has : Dict K V → K → Bool
  unfolding get
  has d k = is_some (get d k)

  -- d[k] = v
  unfoldable pub put : Dict K V → K → V → Dict K V
  put [] k v = (k, v) ∷ []
  put ((j, w) ∷ d) k v = if j == k then (j, v) ∷ d else (j, w) ∷ put d k v

  -- the entries whose key passes a test, in order
  unfoldable pub restrict : (K → Bool) → Dict K V → Dict K V
  restrict p [] = []
  restrict p ((j, v) ∷ d) = if p j then (j, v) ∷ restrict p d else restrict p d

  -- del d[k], d.pop(k, None)
  unfoldable pub remove : Dict K V → K → Dict K V
  unfolding restrict
  remove d k = restrict (λ j. not (j == k)) d

  -- No two entries have equal keys.
  abbrev pub Distinct : Dict K V → Type 0
  Distinct [] = Unit {0}
  Distinct ((j, v) ∷ d) = (has d j ≡ false) × Distinct d
