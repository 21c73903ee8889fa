-- ===== src/Base/Instants.antt =====
-- volengine/shared_kernel/domain/instants.py, and `datetime` as far as the engine uses it. An instant
-- counts microseconds from `datetime.min`; `aware` says that it carries a zone.
use Prim.Native.Nat.{ℕ}
use mathlib.Core.Bool.{Bool, true}
use volengine.Base.Tests.{ltb, leb, ◌==◌}
use volengine.Base.Int.{ℤ, sub_ℕ}
use volengine.Base.Results.{Result, guard, value_error}

pub record Instant : Type 0 where
  pub aware : Bool
  pub micros : ℕ

-- `later - earlier`, a `timedelta`: between two aware instants.
abbrev pub elapsed : Instant → Instant → ℤ
elapsed later earlier = sub_ℕ later.micros earlier.micros

-- `a < b`, `a <= b` and `a == b` of two aware instants.
abbrev pub before : Instant → Instant → Bool
before a b = ltb a.micros b.micros

abbrev pub not_after : Instant → Instant → Bool
not_after a b = leb a.micros b.micros

abbrev pub same_instant : Instant → Instant → Bool
same_instant a b = a.micros == b.micros

unfoldable pub require_aware : Instant → Result (Unit {0})
require_aware ts = guard ts.aware value_error

abbrev pub at : ℕ → Instant
at n = record { aware = true; micros = n }
