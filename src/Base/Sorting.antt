-- ===== src/Base/Sorting.antt =====
-- Python's `sorted`, which is stable: insertion before the first item that is not below.
use volengine.Base.Tests.{if◌then◌else◌, Bool-cases}
use volengine.Base.Lists.{length}
use volengine.Base.Members.{All}
use Prim.Native.Nat.{suc}
use mathlib.Core.Path.{◌≡◌, refl}
use mathlib.Core.Logic.{inl, inr}
use mathlib.Core.Bool.{Bool}
use mathlib.Core.List.{List, [], ◌∷◌}
use native.Mathlib.Omega.{arith}

module _ {ℓ} {A : Type ℓ} where
  unfoldable pub insert_by : (A → A → Bool) → A → List A → List A
  insert_by lt x [] = x ∷ []
  insert_by lt x (y ∷ ys) = if lt y x then y ∷ insert_by lt x ys else x ∷ y ∷ ys

  unfoldable pub sort_by : (A → A → Bool) → List A → List A
  sort_by lt [] = []
  sort_by lt (x ∷ xs) = insert_by lt x (sort_by lt xs)

  length-insert_by :
      (lt : A → A → Bool) (x : A) (ys : List A) → length (insert_by lt x ys) ≡ suc (length ys)
  unfolding insert_by
  length-insert_by lt x [] = refl
  length-insert_by lt x (y ∷ ys) = ground (arith, length-insert_by lt x ys)

  pub length-sort_by : (lt : A → A → Bool) (xs : List A) → length (sort_by lt xs) ≡ length xs
  unfolding sort_by
  length-sort_by lt [] = refl
  length-sort_by lt (x ∷ xs) =
      omega (arith, length-insert_by lt x (sort_by lt xs), length-sort_by lt xs)

  All-insert_by {κ} :
      (P : A → Type κ) (lt : A → A → Bool) (x : A) (ys : List A)
      → P x
      → All P ys
      → All P (insert_by lt x ys)
  unfolding insert_by
  All-insert_by P lt x [] h k = (h, tt)
  All-insert_by P lt x (y ∷ ys) h k = elim (Bool-cases (lt y x)) [
    | inl below ↦ rw below (k.0, All-insert_by P lt x ys h k.1)
    | inr not_below ↦ rw not_below (h, k)
  ]

  pub All-sort_by {κ} :
      (P : A → Type κ) (lt : A → A → Bool) (xs : List A) → All P xs → All P (sort_by lt xs)
  unfolding sort_by
  All-sort_by P lt [] h = tt
  All-sort_by P lt (x ∷ xs) h = All-insert_by P lt x (sort_by lt xs) h.0 (All-sort_by P lt xs h.1)
