-- ===== src/Store/Keys/Order.antt =====
-- Big-endian words: they read back, and their bytes are in the order of the numbers.
use toise.Common.{
  refl, ◌∙◌, ◌∙◌, ◌≤◌, ℕ, zero, suc, ◌+◌, ◌*◌, ◌/◌, ◌%◌, ◌^◌, ◌<◌, ◌≡◌, arith, ltb, nat_eq,
  if◌then◌else◌, true, false,
}
use native.Mathlib.Nat.{pow-suc, div-add-mod', mod-lt, div-lt_iff_lt-mul}
use toise.Model.Value.{str_lt}
use toise.Store.Keys.{encode_be, decode_be}

-- 256 ^ k is positive.
power_pos : (k : ℕ) → 0 < 256 ^ k
power_pos zero = omega arith
power_pos (suc k) = omega (arith, power_pos k, pow-suc 256 k)

-- The highest byte of a word of k + 1 bytes, and what is left.
record Splits (k n : ℕ) : Type 0 where
  whole : n / 256 ^ k * 256 ^ k + n % 256 ^ k ≡ n
  rest : n % 256 ^ k < 256 ^ k
  high : n / 256 ^ k < 256
  byte : n / 256 ^ k % 256 ≡ n / 256 ^ k

splits : (k n : ℕ) → n < 256 ^ suc k → Splits k n
splits k n h =
    let p = power_pos k in
    let high =
      (div-lt_iff_lt-mul {k = 256 ^ k} {x = n} {y = 256} p).1 (omega (arith, pow-suc 256 k)) in
    record { whole = div-add-mod' n (256 ^ k); rest = mod-lt n p; high = high; byte = omega arith }

shifted :
    (acc q b r n p : ℕ) → b ≡ q → q * p + r ≡ n → (acc * 256 + b) * p + r ≡ acc * (p * 256) + n
shifted acc q b r n p e h = grind arith

pub decode_be-encode_be :
    (k n acc : ℕ) → n < 256 ^ k → decode_be acc (encode_be k n) ≡ acc * 256 ^ k + n
unfolding encode_be decode_be
decode_be-encode_be zero n acc h = omega arith
decode_be-encode_be (suc k) n acc h =
    let s = splits k n h in
    let p = 256 ^ k in
    decode_be-encode_be k (n % p) (acc * 256 + n / p % 256) s.rest
    ∙ shifted acc (n / p) (n / p % 256) (n % p) n p s.byte s.whole
    ∙ rw (pow-suc 256 k) refl

next_block : (q q' p : ℕ) → q < q' → q * p + p ≤ q' * p
next_block q q' p h = grind arith

-- A number is compared by its quotient first and by its remainder second.
compare_blocks :
    (p q r q' r' : ℕ)
    → r < p
    → r' < p
    → (if ltb q q' then true else if nat_eq q q' then ltb r r' else false)
      ≡ ltb (q * p + r) (q' * p + r')
compare_blocks p q r q' r' h g = ground (arith, next_block q q' p, next_block q' q p)

-- The bytes of two words of one width are in the order of their numbers.
pub str_lt-encode_be :
    (k m n : ℕ) → m < 256 ^ k → n < 256 ^ k → str_lt (encode_be k m) (encode_be k n) ≡ ltb m n
unfolding encode_be str_lt
str_lt-encode_be zero m n h g = ground arith
str_lt-encode_be (suc k) m n h g =
    let s = splits k m h in
    let t = splits k n g in
    let p = 256 ^ k in
    rw (s.byte, t.byte, str_lt-encode_be k (m % p) (n % p) s.rest t.rest)
      (compare_blocks p (m / p) (m % p) (n / p) (n % p) s.rest t.rest ∙ rw (s.whole, t.whole) refl)
