-- ===== src/Contracts/Wire.antt =====
-- The primitive form of the contracts: what `to_dict` builds and `from_dict` reads. An instant travels
-- as text; `datetime.isoformat` and `datetime.fromisoformat` are a parameter with their documented law.
use volengine.Base.{ℕ, String, Bool, ◌≡◌, refl, Option, none, some, List, [], ◌∷◌, if◌then◌else◌}
use volengine.Base.Results.{Result, ok, err, key_error, type_error, ◌>>=◌}
use volengine.Base.Instants.{Instant}
use volengine.Base.Floats.{Float}
use volengine.Base.Keys.{◌==◌, string_key}

mutual
  pub data Json (F : Type 0) : Type 0 where
    null : Json F
    boolean : Bool → Json F
    int : ℕ → Json F
    num : F → Json F
    text : String → Json F
    arr : Items F → Json F
    obj : Fields F → Json F

  pub data Items (F : Type 0) : Type 0 where
    nil : Items F
    item : Json F → Items F → Items F

  pub data Fields (F : Type 0) : Type 0 where
    end : Fields F
    field : String → Json F → Fields F → Fields F

pub record Iso : Type 0 where
  pub format : Instant → String
  pub parse : String → Result Instant

-- Documented: `fromisoformat` is the inverse of `isoformat`.
pub record IsIso (iso : Iso) : Type 0 where
  pub parse-format : (t : Instant) → iso.parse (iso.format t) ≡ ok t

module _ {F : Type 0} where
  abbrev pub lookup : String → Fields F → Option (Json F)
  lookup k end = none
  lookup k (field j v fs) = if j == k then some v else lookup k fs

  abbrev pub found : Option (Json F) → Result (Json F)
  found none = err key_error
  found (some v) = ok v

  -- `raw[k]`
  abbrev pub at_key : String → Json F → Result (Json F)
  at_key k (obj fs) = found (lookup k fs)
  at_key k _ = err type_error

  abbrev pub as_int : Json F → Result ℕ
  as_int (int n) = ok n
  as_int _ = err type_error

  abbrev pub as_bool : Json F → Result Bool
  as_bool (boolean b) = ok b
  as_bool _ = err type_error

  abbrev pub as_text : Json F → Result String
  as_text (text s) = ok s
  as_text _ = err type_error

  -- `[to(x) for x in xs]`, and a tuple of what `from` makes of each item
  abbrev pub items : {A : Type 0} → (A → Json F) → List A → Items F
  items to [] = nil
  items to (x ∷ xs) = item (to x) (items to xs)

  abbrev pub each : {A : Type 0} → (Json F → Result A) → Items F → Result (List A)
  each from nil = ok []
  each from (item v vs) = do x ← from v; xs ← each from vs; ok (x ∷ xs)

  abbrev pub as_list : {A : Type 0} → (Json F → Result A) → Json F → Result (List A)
  as_list from (arr vs) = each from vs
  as_list from _ = err type_error

  abbrev pub or_null : {A : Type 0} → (A → Json F) → Option A → Json F
  or_null to none = null
  or_null to (some x) = to x

  abbrev pub as_option : {A : Type 0} → (Json F → Result A) → Json F → Result (Option A)
  as_option from null = ok none
  as_option from v = do x ← from v; ok (some x)

  -- `raw.get("schema_version", 1)`
  abbrev pub or_one : Option (Json F) → Result ℕ
  or_one none = ok 1
  or_one (some v) = as_int v

  abbrev pub get_version : Json F → Result ℕ
  get_version (obj fs) = or_one (lookup "schema_version" fs)
  get_version _ = err type_error

  abbrev pub stamp : Iso → Instant → Json F
  stamp iso t = text (iso.format t)

  abbrev pub as_stamp : Iso → Json F → Result Instant
  as_stamp iso v = as_text v >>= iso.parse

  -- Each item comes back from its own primitive form.
  abbrev pub Each : {A : Type 0} → (A → Json F) → (Json F → Result A) → List A → Type 0
  Each to from [] = Unit {0}
  Each to from (x ∷ xs) = (from (to x) ≡ ok x) × Each to from xs

  -- What every item's round trip gives for the list.
  pub each-items :
      {A : Type 0} (to : A → Json F) (from : Json F → Result A) (xs : List A)
      → Each to from xs
      → each from (items to xs) ≡ ok xs
  each-items to from [] h = refl
  each-items to from (x ∷ xs) h = rw (h.0, each-items to from xs h.1)

module _ {F : Type 0} ⦃f : Float F⦄ where
  -- a number, where an `int` stands for a `float` too
  abbrev pub as_num : Json F → Result F
  as_num (num x) = ok x
  as_num (int n) = ok (f.of_ℕ n)
  as_num _ = err type_error
