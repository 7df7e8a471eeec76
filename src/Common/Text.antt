-- ===== src/Common/Text.antt =====
-- Text literals as Go strings, and the byte searches of package strings.
use Prim.Native.Nat.{ℕ, suc}
use Prim.Native.Char.{code}
use Prim.Native.String.{String}
use mathlib.Core.Path.{◌≡◌}
use mathlib.Core.Bool.{false}
use mathlib.Core.Option
use mathlib.Core.Option.{Option, none, some}
use mathlib.Core.List.{[], ◌∷◌, ◌++◌}
use native.Mathlib.Omega.{arith}
use toise.Common.Tests.{if◌then◌else◌, nat_eq}
use toise.Common.Lists.{length}
use toise.Common.Equal.{Str}

-- The bytes of an ASCII literal.
abbrev pub codes : String → Str
codes String.[] = []
codes (String.◌∷◌ c s) = code c ∷ codes s

-- strings.IndexByte: the first position of a byte.
unfoldable pub index_byte : Str → ℕ → Option ℕ
index_byte [] c = none
index_byte (b ∷ s) c =
    let rest = Option.map suc (index_byte s c) in if nat_eq b c then some 0 else rest

-- No byte of the string is `c`.
abbrev pub Avoids : ℕ → Str → Type 0
Avoids c [] = Unit
Avoids c (b ∷ s) = (nat_eq b c ≡ false) × Avoids c s

-- The first `c` is found right behind a prefix that avoids it.
pub index_byte-append :
    (c : ℕ) (s t : Str) → Avoids c s → index_byte (s ++ c ∷ t) c ≡ some (length s)
unfolding index_byte
index_byte-append c [] t h = ground arith
index_byte-append c (b ∷ s) t h = ground (arith, index_byte-append c s t h.1)
