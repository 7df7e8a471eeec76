-- ===== src/Common/Decimal.antt =====
-- strconv.Itoa on lengths, and strconv.Atoi.
use Prim.Native.Nat.{ℕ, zero, suc, ◌+◌, ◌-◌, ◌*◌, ◌/◌, ◌%◌, ◌^◌, ◌≤◌, ◌<◌}
use mathlib.Core.Path.{◌≡◌}
use mathlib.Core.Bool.{Bool, true, false, ◌&&◌}
use mathlib.Core.Option.{Option, none, some}
use mathlib.Core.List.{[], ◌∷◌}
use native.Mathlib.Omega.{arith}
use toise.Common.Tests.{if◌then◌else◌, ltb, leb, nat_eq}
use toise.Common.Equal.{Str}
use toise.Common.Text.{Avoids}

-- An int: `negsuc n` is -(n + 1).
pub data ℤ : Type 0 where
  pos : ℕ → ℤ
  negsuc : ℕ → ℤ

-- The digits of n in front of `acc`.
digits : ℕ → ℕ → Str → Str
digits zero n acc = acc
digits (suc fuel) n acc =
    let rest = digits fuel (n / 10) ((48 + n % 10) ∷ acc) in
    if ltb n 10 then (48 + n) ∷ acc else rest

unfoldable pub itoa : ℕ → Str
unfolding digits
itoa n = digits (suc n) n []

unfoldable pub parse_digits : ℕ → Str → Option ℕ
parse_digits n [] = some n
parse_digits n (c ∷ s) =
    let rest = parse_digits (n * 10 + (c - 48)) s in if leb 48 c && leb c 57 then rest else none

-- The largest int.
abbrev pub max_int : ℕ
max_int = 2 ^ 63 - 1

in_range : Bool → Option ℕ → Option ℤ
in_range neg none = none
in_range false (some n) = if leb n max_int then some (pos n) else none
in_range true (some zero) = some (pos 0)
in_range true (some (suc n)) = if leb n max_int then some (negsuc n) else none

unsigned : Bool → Str → Option ℤ
unfolding in_range parse_digits
unsigned neg [] = none
unsigned neg (c ∷ s) = in_range neg (parse_digits 0 (c ∷ s))

-- An optional sign, at least one digit, and a value that an int holds.
unfoldable pub atoi : Str → Option ℤ
unfolding unsigned
atoi [] = none
atoi (c ∷ s) =
    if nat_eq c 45
    then unsigned true s
    else if nat_eq c 43
    then unsigned false s
    else unsigned false (c ∷ s)

parse_digits-digits : (f n : ℕ) (s : Str) → n < f → parse_digits 0 (digits f n s) ≡ parse_digits n s
unfolding digits parse_digits
parse_digits-digits zero n s h = absurd (omega arith)
parse_digits-digits (suc f) n s h =
    ground (arith, parse_digits-digits f (n / 10) ((48 + n % 10) ∷ s))

digits-Avoids : (f n : ℕ) (s : Str) → Avoids 0 s → Avoids 0 (digits f n s)
unfolding digits
digits-Avoids zero n s h = h
digits-Avoids (suc f) n s h = ground (arith, digits-Avoids f (n / 10) ((48 + n % 10) ∷ s))

-- The decimal form of a number holds no zero byte.
pub itoa-Avoids : (n : ℕ) → Avoids 0 (itoa n)
unfolding itoa
itoa-Avoids n = digits-Avoids (suc n) n [] tt

-- A digit leads.
abbrev Leads : Str → Type 0
Leads [] = ⊥
Leads (c ∷ s) = (48 ≤ c) × (c ≤ 57)

digits-Leads : (f n : ℕ) (s : Str) → n < f → Leads (digits f n s)
unfolding digits
digits-Leads zero n s h = absurd (omega arith)
digits-Leads (suc zero) n s h = ground arith
digits-Leads (suc (suc f)) n s h = ground (arith, digits-Leads (suc f) (n / 10) ((48 + n % 10) ∷ s))

atoi-Leads :
    (s : Str) (n : ℕ) → Leads s → parse_digits 0 s ≡ some n → n ≤ max_int → atoi s ≡ some (pos n)
unfolding atoi
atoi-Leads [] n l p h = absurd l
atoi-Leads (c ∷ s) n l p h = ground arith

-- What strconv.Itoa writes for a length, strconv.Atoi reads back.
pub atoi-itoa : (n : ℕ) → n ≤ max_int → atoi (itoa n) ≡ some (pos n)
unfolding itoa
atoi-itoa n h =
    atoi-Leads (digits (suc n) n []) n (digits-Leads (suc n) n [] (omega arith))
      (unfold parse_digits in parse_digits-digits (suc n) n [] (omega arith)) h
