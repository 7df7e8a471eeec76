-- ===== src/Store/Keys/Range.antt =====
-- The range scans of internal/store: a key lies in the range of a prefix exactly when it has it.
use toise.Common.{
  ◌≡◌, Bool, true, false, ◌&&◌, not, Option, none, some, [], ◌∷◌, ◌<◌, arith, nat_eq, Str,
}
use toise.Model.Value.{str_lt}
use toise.Store.Keys.{prefix_upper_bound}

abbrev pub AllBytes : Str → Type 0
AllBytes [] = Unit
AllBytes (b ∷ s) = (b < 256) × AllBytes s

abbrev pub has_prefix : Str → Str → Bool
has_prefix [] key = true
has_prefix (b ∷ p) [] = false
has_prefix (b ∷ p) (c ∷ key) = nat_eq b c && has_prefix p key

-- What an iterator with these bounds visits.
abbrev pub below : Str → Option Str → Bool
below key none = true
below key (some end) = str_lt key end

abbrev pub in_range : Str → Option Str → Str → Bool
in_range lower upper key = not (str_lt key lower) && below key upper

-- An iterator from a prefix to its upper bound visits exactly the keys that begin with it.
pub in_range-prefix_upper_bound :
    (prefix key : Str)
    → AllBytes prefix
    → AllBytes key
    → in_range prefix (prefix_upper_bound prefix) key ≡ has_prefix prefix key
unfolding prefix_upper_bound str_lt
in_range-prefix_upper_bound [] key h k = ground arith
in_range-prefix_upper_bound (b ∷ p) [] h k = ground arith
in_range-prefix_upper_bound (b ∷ p) (c ∷ key) h k =
    ground (arith, in_range-prefix_upper_bound p key h.1 k.1)
