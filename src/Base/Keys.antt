-- ===== src/Base/Keys.antt =====
-- Equality of dictionary keys, as `==` and `hash` give it. It is symmetric, and equal keys compare
-- alike; nothing makes it reflexive, since a float key need not be.
use Prim.Native.Nat.{ℕ}
use Prim.Native.String.{String}
use mathlib.Core.Path.{◌≡◌}
use mathlib.Core.Bool.{Bool, true}
use native.Mathlib.Omega.{arith}
use text.Mathlib.Text.{◌==◌ as str_eq}
use text.Mathlib.TextEquality.{eq_iff}
use volengine.Base.Tests.{◌==◌ as nat_beq}
use volengine.Base.Floats.{Float, IsComparable}
use volengine.Base.Instants.{Instant, same_instant}

pub record Key {ℓ} (K : Type ℓ) : Type ℓ where
  pub beq : K → K → Bool
  pub beq_sym : (a b : K) → beq a b ≡ beq b a
  pub beq_congr : (a b c : K) → beq a b ≡ true → beq a c ≡ beq b c

infix 50 ◌==◌
abbrev pub ◌==◌ {ℓ} : {K : Type ℓ} ⦃k : Key K⦄ → K → K → Bool
◌==◌ ⦃k⦄ = k.beq

pub nat_sym : (a b : ℕ) → nat_beq a b ≡ nat_beq b a
nat_sym a b = ground arith

pub nat_congr : (a b c : ℕ) → nat_beq a b ≡ true → nat_beq a c ≡ nat_beq b c
nat_congr a b c h = ground arith

instance abbrev pub nat_key : Key ℕ
nat_key = record { beq = nat_beq; beq_sym = nat_sym; beq_congr = nat_congr }

pub str_sym : (a b : String) → str_eq a b ≡ str_eq b a
str_sym a b = ground (arith, eq_iff a b, eq_iff b a)

pub str_congr : (a b c : String) → str_eq a b ≡ true → str_eq a c ≡ str_eq b c
str_congr a b c h = ground (arith, eq_iff a b, eq_iff a c, eq_iff b c)

instance abbrev pub string_key : Key String
string_key = record { beq = str_eq; beq_sym = str_sym; beq_congr = str_congr }

pub instant_sym : (a b : Instant) → same_instant a b ≡ same_instant b a
instant_sym a b = ground arith

pub instant_congr :
    (a b c : Instant) → same_instant a b ≡ true → same_instant a c ≡ same_instant b c
instant_congr a b c h = ground arith

instance abbrev pub instant_key : Key Instant
instant_key = record { beq = same_instant; beq_sym = instant_sym; beq_congr = instant_congr }

-- A dictionary keyed by a float names its key where it is used.
abbrev pub float_key : {F : Type 0} ⦃f : Float F⦄ ⦃c : IsComparable F⦄ → Key F
float_key ⦃f⦄ ⦃c⦄ = record { beq = f.eq; beq_sym = c.eq_sym; beq_congr = c.eq_congr }
