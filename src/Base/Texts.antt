-- ===== src/Base/Texts.antt =====
-- `str` as far as the engine looks into it: `not text.strip()`.
use Prim.Native.Nat.{ℕ}
use Prim.Native.Char.{code}
use Prim.Native.String.{String}
use mathlib.Core.Bool.{Bool, true, ◌&&◌, ◌||◌}
use volengine.Base.Tests.{leb, ◌==◌}

-- The code points that `str.strip` takes off.
unfoldable pub is_space : ℕ → Bool
is_space c =
    (leb 9 c && leb c 13)
    || (leb 28 c && leb c 32)
    || (c == 133)
    || (c == 160)
    || (c == 5_760)
    || (leb 8_192 c && leb c 8_202)
    || (c == 8_232)
    || (c == 8_233)
    || (c == 8_239)
    || (c == 8_287)
    || (c == 12_288)

unfoldable pub is_blank : String → Bool
unfolding is_space
is_blank String.[] = true
is_blank (String.◌∷◌ c s) = is_space (code c) && is_blank s
